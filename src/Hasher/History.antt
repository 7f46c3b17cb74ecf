-- ===== src/Hasher/History.antt =====
-- A tag's whole history: the samples one after another, as `write_measure` feeds them to the hasher.
use modbus_tcplogger.Common.{
  ℕ, zero, suc, ◌^◌, ◌≤◌, ◌≡◌, refl, ap, ap₂, ◌∙◌, false, not, List, [], ◌∷◌, arith,
}
use modbus_tcplogger.Common.Int.{ℤ, ◌≤ℤ◌}
use modbus_tcplogger.Common.Float.{Floats}
use modbus_tcplogger.Hasher.{HashedValue, ValueHasher, normal, Emitted, new, add}
use modbus_tcplogger.Hasher.Spec.{Tracker, track}
use modbus_tcplogger.Hasher.Ring.{contents, samples}
use modbus_tcplogger.Hasher.Inv.{Inv, new-Inv, add-Inv, capacity-add}
use modbus_tcplogger.Hasher.Refine.{abstract, add_refines}
use modbus_tcplogger.Hasher.Query.{get_hashed}
use modbus_tcplogger.Hasher.Answer.{answer, get_hashed-eq-answer}
use modbus_tcplogger.Hasher.Chrono.{Chrono, IsSorted, track-Chrono, ring_SortedTo}

module _ (fl : Floats) where
  open fl use {F, feq, f64_min}

  unfoldable pub add_all : ValueHasher F → List (HashedValue F) → ValueHasher F × List (Emitted F)
  add_all h [] = (h, [])
  add_all h (x ∷ xs) =
      let (h', e) = add fl h x.val x.timestamp in let (h'', es) = add_all h' xs in (h'', e ∷ es)

  unfoldable pub track_all : ℕ → Tracker F → List (HashedValue F) → Tracker F × List (Emitted F)
  track_all cap s [] = (s, [])
  track_all cap s (x ∷ xs) =
      let (s', e) = track fl cap s x in let (s'', es) = track_all cap s' xs in (s'', e ∷ es)

  -- The log with one sample, as it is after `new`.
  abbrev pub first : F → ℤ → Tracker F
  first v t = record {
    log = record { val = v; timestamp = t } ∷ [];
    last_emitted = t;
    resolving = false;
    mode = normal;
  }

  abstract-new : (cap : ℕ) (v : F) (t : ℤ) → 2 ≤ cap → abstract fl (new fl cap v t) ≡ first v t
  unfolding new samples
  abstract-new zero v t l = absurd (omega arith)
  abstract-new (suc cap) v t l = refl

  capacity-new : (cap : ℕ) (v : F) (t : ℤ) → (new fl cap v t).capacity ≡ cap
  unfolding new
  capacity-new cap v t = refl

  pub add_all-Inv : (h : ValueHasher F) (xs : List (HashedValue F)) → Inv h → Inv (add_all h xs).0
  unfolding add_all
  add_all-Inv h [] i = i
  add_all-Inv h (x ∷ xs) i =
      add_all-Inv (add fl h x.val x.timestamp).0 xs (add-Inv fl h x.val x.timestamp i)

  pub capacity-add_all :
      (h : ValueHasher F) (xs : List (HashedValue F)) → (add_all h xs).0.capacity ≡ h.capacity
  unfolding add_all
  capacity-add_all h [] = refl
  capacity-add_all h (x ∷ xs) =
      capacity-add_all (add fl h x.val x.timestamp).0 xs ∙ capacity-add fl h x.val x.timestamp

  -- Over any history the ring and the log hold the same samples and report the same ones.
  pub add_all_refines :
      (h : ValueHasher F) (xs : List (HashedValue F))
      → Inv h
      → (abstract fl (add_all h xs).0, (add_all h xs).1) ≡ track_all h.capacity (abstract fl h) xs
  unfolding add_all track_all
  add_all_refines h [] i = refl
  add_all_refines h (x ∷ xs) i =
      let (h', e) = add fl h x.val x.timestamp in
      ap (λ (q : Tracker F × List (Emitted F)). (q.0, e ∷ q.1))
        (add_all_refines h' xs (add-Inv fl h x.val x.timestamp i)
          ∙ ap (λ cap. track_all cap (abstract fl h') xs) (capacity-add fl h x.val x.timestamp))
      ∙ ap (λ (r : Tracker F × Emitted F). let s = track_all h.capacity r.0 xs in (s.0, r.1 ∷ s.1))
          (add_refines fl h x.val x.timestamp i)

  -- The times of the samples, each not before the last.
  abbrev pub InOrder : ℤ → List (HashedValue F) → Type 0
  InOrder now [] = Unit {0}
  InOrder now (x ∷ xs) = (now ≤ℤ x.timestamp) × InOrder x.timestamp xs

  track_all-IsSorted :
      (cap : ℕ) (s : Tracker F) (now : ℤ) (xs : List (HashedValue F))
      → Chrono now s.log
      → InOrder now xs
      → IsSorted (track_all cap s xs).0.log
  unfolding track_all
  track_all-IsSorted cap s now [] c o = c.0
  track_all-IsSorted cap s now (x ∷ xs) c o =
      track_all-IsSorted cap (track fl cap s x).0 x.timestamp xs (track-Chrono fl cap s x now c o.0)
        o.1

  -- With a capacity from 2 to 2 ^ 62, and after any history whose times never decrease, a query to the
  -- ring is answered as `answer` selects from the log of that history.
  pub get_hashed-add_all :
      (cap : ℕ) (v : F) (t : ℤ) (xs : List (HashedValue F)) (from to : ℤ)
      → 2 ≤ cap
      → cap ≤ 2 ^ 62
      → InOrder t xs
      → let h = (add_all (new fl cap v t) xs).0 in
        get_hashed fl h from to
        ≡ answer fl (not h.ring_finished) (track_all cap (first v t) xs).0.log from to
  get_hashed-add_all cap v t xs from to l u o =
      let h₀ = new fl cap v t in
      let i₀ = new-Inv fl cap v t l u in
      let h = (add_all h₀ xs).0 in
      let same : abstract fl h ≡ (track_all cap (first v t) xs).0 =
        ap (λ (q : Tracker F × List (Emitted F)). q.0) (add_all_refines h₀ xs i₀)
        ∙ ap₂ (λ c s. (track_all c s xs).0) (capacity-new cap v t) (abstract-new cap v t l) in
      let log_eq : contents fl h ≡ (track_all cap (first v t) xs).0.log = ap (λ s. s.log) same in
      let sorted : IsSorted (contents fl h) =
        rw log_eq (track_all-IsSorted cap (first v t) t xs ((tt, tt), (omega arith, tt)) o) in
      let r = (add_all-Inv h₀ xs i₀).ring in
      get_hashed-eq-answer fl h from to r (ring_SortedTo fl h r sorted)
      ∙ ap (λ es. answer fl (not h.ring_finished) es from to) log_eq
