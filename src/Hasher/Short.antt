-- ===== src/Hasher/Short.antt =====
-- A failure that ends soon reports nothing and leaves no trace.
use modbus_tcplogger.Common.{
  ℕ, ◌≤◌, ◌<◌, ◌≡◌, refl, sym, ap, ap₂, ◌∙◌, false, inl, inr, List, [], ◌∷◌, arith, ltb, lt→ltb,
  if◌then◌else◌, Bool-cases, length, All,
}
use modbus_tcplogger.Common.Int.{ℤ, pos, ◌-ℤ◌, wrap_i64}
use modbus_tcplogger.Common.Float.{Floats}
use modbus_tcplogger.Hasher.{
  HashedValue, ValueHasher, normal, in_fail, Emitted, void, default_value, elapsed_over,
  failure_delta_default, add,
}
use modbus_tcplogger.Hasher.Window.{tail, drop_last-snoc, last_or-snoc}
use modbus_tcplogger.Hasher.Spec.{
  Tracker, push, newest, observe, judge_fail, observe_fail, observe_value, track,
}
use modbus_tcplogger.Hasher.Ring.{contents}
use modbus_tcplogger.Hasher.Inv.{Inv}
use modbus_tcplogger.Hasher.Refine.{abstract, view, add_refines, newest-tail}
use modbus_tcplogger.Hasher.Once.{reports, IsFail}
use modbus_tcplogger.Hasher.History.{
  add_all, track_all, add_all-Inv, add_all_refines, capacity-add_all,
}

pub elapsed_over_self : (t : ℤ) (n : ℕ) → elapsed_over t t (pos n) ≡ false
unfolding elapsed_over ◌-ℤ◌ wrap_i64
elapsed_over_self t n = ground arith

module _ (fl : Floats) where
  open fl use {F, feq, f64_min}

  -- A failed reading that comes too soon after the first of its run to be reported.
  abbrev pub IsBrief : ℤ → HashedValue F → Type 0
  IsBrief start x = IsFail fl x × (elapsed_over x.timestamp start failure_delta_default ≡ false)

  -- A tracker that has just entered a failure.
  abbrev failed : ℕ → Tracker F → HashedValue F → Tracker F
  failed cap s f = record s { log = push cap s.log f; mode = in_fail }

  track-enter :
      (cap : ℕ) (s : Tracker F) (f : HashedValue F)
      → s.mode ≡ normal
      → IsFail fl f
      → track fl cap s f ≡ (failed cap s f, void)
  unfolding track observe_fail judge_fail
  track-enter cap s f m e = rw (
    e,
    m,
    last_or-snoc (default_value fl) (if ltb (length s.log) cap then s.log else tail s.log) f,
    elapsed_over_self f.timestamp 120,
  )

  track-brief :
      (cap : ℕ) (s : Tracker F) (x : HashedValue F)
      → s.mode ≡ in_fail
      → IsBrief (newest fl s.log).timestamp x
      → track fl cap s x ≡ (s, void)
  unfolding track observe_fail judge_fail
  track-brief cap s x m b = rw (b.0, m, b.1)

  track_all-brief :
      (cap : ℕ) (s : Tracker F) (xs : List (HashedValue F))
      → s.mode ≡ in_fail
      → All (IsBrief (newest fl s.log).timestamp) xs
      → ((track_all fl cap s xs).0 ≡ s) × (reports (track_all fl cap s xs).1 ≡ 0)
  unfolding track_all
  track_all-brief cap s [] m b = (refl, refl)
  track_all-brief cap s (x ∷ xs) m b =
      rw (track-brief cap s x m b.0) (track_all-brief cap s xs m b.1)

  observe-report :
      (cap : ℕ) (s s' : Tracker F) (x : HashedValue F)
      → newest fl s.log ≡ newest fl s'.log
      → s.last_emitted ≡ s'.last_emitted
      → s.resolving ≡ s'.resolving
      → (observe fl cap s x).1 ≡ (observe fl cap s' x).1
  unfolding observe
  observe-report cap s s' x n l r = ground arith

  -- The log that a failure leaves behind once it is taken back.
  abbrev trimmed : ℕ → List (HashedValue F) → List (HashedValue F)
  trimmed cap es = if ltb (length es) cap then es else tail es

  newest-trimmed :
      (cap : ℕ) (es : List (HashedValue F)) → 2 ≤ cap → newest fl (trimmed cap es) ≡ newest fl es
  newest-trimmed cap es l = elim (Bool-cases (ltb (length es) cap)) [
    | inl lt ↦ rw lt refl
    | inr ge ↦ rw ge (newest-tail fl es (ground arith))
  ]

  track-recover :
      (cap : ℕ) (s : Tracker F) (f x : HashedValue F)
      → s.mode ≡ normal
      → feq x.val f64_min ≡ false
      → track fl cap (failed cap s f) x ≡ observe fl cap (record s { log = trimmed cap s.log }) x
  unfolding track observe_value
  track-recover cap s f x m v = rw v (
      ap (λ (z : Tracker F). observe fl cap z x)
        (ground (arith, drop_last-snoc (trimmed cap s.log) f)))

  track-value :
      (cap : ℕ) (s : Tracker F) (x : HashedValue F)
      → s.mode ≡ normal
      → feq x.val f64_min ≡ false
      → track fl cap s x ≡ observe fl cap s x
  unfolding track observe_value
  track-value cap s x m v = rw (v, m)

  track_all-short :
      (cap : ℕ) (s : Tracker F) (f : HashedValue F) (xs : List (HashedValue F)) (x : HashedValue F)
      → 2 ≤ cap
      → s.mode ≡ normal
      → IsFail fl f
      → All (IsBrief f.timestamp) xs
      → feq x.val f64_min ≡ false
      → (reports (track_all fl cap s (f ∷ xs)).1 ≡ 0)
        × (track fl cap (track_all fl cap s (f ∷ xs)).0 x
            ≡ observe fl cap (record s { log = trimmed cap s.log }) x)
  unfolding track_all
  track_all-short cap s f xs x l m e b v =
      let z = failed cap s f in
      let brief : All (IsBrief (newest fl z.log).timestamp) xs =
        rw (last_or-snoc (default_value fl) (trimmed cap s.log) f) b in
      let quiet = track_all-brief cap z xs refl brief in
      let after : (track_all fl cap s (f ∷ xs)).0 ≡ z = rw (track-enter cap s f m e) quiet.0 in
      (
        rw (track-enter cap s f m e) quiet.1,
        ap (λ (y : Tracker F). track fl cap y x) after ∙ track-recover cap s f x m v,
      )

  module _ (h : ValueHasher F) (f : HashedValue F) (xs : List (HashedValue F)) (x : HashedValue F)
      (i : Inv h) (m : h.state ≡ normal) (e : IsFail fl f) (b : All (IsBrief f.timestamp) xs)
      (v : feq x.val f64_min ≡ false) where
    after_failure :
        (reports (add_all fl h (f ∷ xs)).1 ≡ 0)
        × (view fl (add fl (add_all fl h (f ∷ xs)).0 x.val x.timestamp)
            ≡ observe fl h.capacity
                (record (abstract fl h) { log = trimmed h.capacity (contents fl h) })
                x)
    after_failure =
        let after = add_all fl h (f ∷ xs) in
        let same = add_all_refines fl h (f ∷ xs) i in
        let s = track_all-short h.capacity (abstract fl h) f xs x i.ring.cap_lo m e b v in
        (
          ap (λ (q : Tracker F × List (Emitted F)). reports q.1) same ∙ s.0,
          add_refines fl after.0 x.val x.timestamp (add_all-Inv fl h (f ∷ xs) i)
              ∙ ap₂ (λ c (z : Tracker F). track fl c z x) (capacity-add_all fl h (f ∷ xs))
                  (ap (λ (q : Tracker F × List (Emitted F)). q.0) same)
              ∙ s.1,
        )

    no_failure : view fl (add fl h x.val x.timestamp) ≡ observe fl h.capacity (abstract fl h) x
    no_failure = add_refines fl h x.val x.timestamp i ∙ track-value h.capacity (abstract fl h) x m v

    -- On a hasher with the invariant and in the normal mode, a run of failed readings that all come
    -- within `failure_delta` of its first reports nothing, and the next good reading is reported exactly
    -- as if there had been no failure.
    pub short_failure_unnoticed :
        (reports (add_all fl h (f ∷ xs)).1 ≡ 0)
        × ((add fl (add_all fl h (f ∷ xs)).0 x.val x.timestamp).1 ≡ (add fl h x.val x.timestamp).1)
    short_failure_unnoticed = (
      after_failure.0,
      ap (λ (r : Tracker F × Emitted F). r.1) after_failure.1
          ∙ observe-report h.capacity
              (record (abstract fl h) { log = trimmed h.capacity (contents fl h) }) (abstract fl h)
              x (newest-trimmed h.capacity (contents fl h) i.ring.cap_lo) refl refl
          ∙ ap (λ (r : Tracker F × Emitted F). r.1) (sym no_failure),
    )

    -- On a hasher with the invariant and in the normal mode, whose ring is not full, a run of failed
    -- readings that all come within `failure_delta` of its first leaves no trace: after the next good
    -- reading the samples held, the time of the last report and the mode are those of no failure.
    pub short_failure_no_trace :
        length (contents fl h) < h.capacity
        → abstract fl (add fl (add_all fl h (f ∷ xs)).0 x.val x.timestamp).0
          ≡ abstract fl (add fl h x.val x.timestamp).0
    short_failure_no_trace lt =
        ap (λ (r : Tracker F × Emitted F). r.0) after_failure.1
        ∙ ap (λ es. (observe fl h.capacity (record (abstract fl h) { log = es }) x).0)
            (rw (lt→ltb _ _ lt) refl)
        ∙ ap (λ (r : Tracker F × Emitted F). r.0) (sym no_failure)
