-- ===== src/Hasher/Repeats.antt =====
-- Unchanged readings are held back, and what was held back is reported with the next change.
use mathlib.Core.Path.{subst}
use modbus_tcplogger.Common.{
  ℕ, ◌≡◌, refl, sym, ap, ap₂, ◌∙◌, true, false, List, [], ◌∷◌, ◌++◌, none, some, All,
}
use modbus_tcplogger.Common.Int.{ℤ}
use modbus_tcplogger.Common.Float.{Floats}
use modbus_tcplogger.Hasher.{
  HashedValue, ValueHasher, normal, Emitted, void, default_value, slot, elapsed_over,
  stable_delta_default, add,
}
use modbus_tcplogger.Hasher.Window.{drop_last, drop_last-snoc, last_or-snoc}
use modbus_tcplogger.Hasher.Spec.{Tracker, set_last, newest, observe, observe_value, track}
use modbus_tcplogger.Hasher.Ring.{contents, newest-contents}
use modbus_tcplogger.Hasher.Inv.{Inv}
use modbus_tcplogger.Hasher.Refine.{abstract, add_refines}
use modbus_tcplogger.Hasher.Once.{reports}
use modbus_tcplogger.Hasher.History.{
  add_all, track_all, add_all-Inv, add_all_refines, capacity-add_all,
}

module _ (fl : Floats) where
  open fl use {F, feq, f64_min}

  -- A good reading equal to `v`, at most `stable_delta` after the last report.
  abbrev pub IsRepeat : F → ℤ → HashedValue F → Type 0
  IsRepeat v last x =
      (feq v x.val ≡ true)
      × (feq x.val f64_min ≡ false)
      × (elapsed_over x.timestamp last stable_delta_default ≡ false)

  -- The time of the last of some readings.
  abbrev pub last_time : ℤ → List (HashedValue F) → ℤ
  last_time t [] = t
  last_time t (x ∷ xs) = last_time x.timestamp xs

  -- The tracker with its newest sample moved on to a later time, and not yet reported there.
  abbrev holding : Tracker F → ℤ → Tracker F
  holding s t = record s {
    log = set_last s.log (record (newest fl s.log) { timestamp = t });
    resolving = true;
  }

  track-repeat :
      (cap : ℕ) (s : Tracker F) (x : HashedValue F)
      → s.mode ≡ normal
      → IsRepeat (newest fl s.log).val s.last_emitted x
      → track fl cap s x ≡ (holding s x.timestamp, void)
  unfolding track observe_value observe
  track-repeat cap s x m r = rw (r.1, m, r.0, r.2)

  newest-holding :
      (s : Tracker F) (t : ℤ)
      → newest fl (holding s t).log ≡ record (newest fl s.log) { timestamp = t }
  newest-holding s t =
      last_or-snoc (default_value fl) (drop_last s.log) (record (newest fl s.log) { timestamp = t })

  holding-holding : (s : Tracker F) (t u : ℤ) → holding (holding s t) u ≡ holding s u
  holding-holding s t u =
      ap₂
        (λ es (x : HashedValue F). record s {
          log = es ++ (record x { timestamp = u } ∷ []);
          resolving = true;
        })
        (drop_last-snoc (drop_last s.log) (record (newest fl s.log) { timestamp = t }))
        (newest-holding s t)

  track_all-repeat :
      (cap : ℕ) (s : Tracker F) (x : HashedValue F) (xs : List (HashedValue F))
      → s.mode ≡ normal
      → All (IsRepeat (newest fl s.log).val s.last_emitted) (x ∷ xs)
      → ((track_all fl cap s (x ∷ xs)).0 ≡ holding s (last_time x.timestamp xs))
        × (reports (track_all fl cap s (x ∷ xs)).1 ≡ 0)
  unfolding track_all
  track_all-repeat cap s x [] m r = rw (track-repeat cap s x m r.0) (refl, refl)
  track_all-repeat cap s x (y ∷ ys) m r =
      let rest : All (IsRepeat (newest fl (holding s x.timestamp).log).val s.last_emitted)
          (y ∷ ys) =
        subst (λ v. All (IsRepeat v s.last_emitted) (y ∷ ys))
          (ap (λ (z : HashedValue F). z.val) (sym (newest-holding s x.timestamp))) r.1 in
      let ih = track_all-repeat cap (holding s x.timestamp) y ys m rest in
      rw (track-repeat cap s x m r.0)
        (ih.0 ∙ holding-holding s x.timestamp (last_time y.timestamp ys), ih.1)

  module _ (h : ValueHasher F) (x : HashedValue F) (xs : List (HashedValue F)) (i : Inv h)
      (m : h.state ≡ normal) (r : All (IsRepeat (slot fl h).val h.last_emitted_ts) (x ∷ xs)) where
    held :
        (abstract fl (add_all fl h (x ∷ xs)).0 ≡ holding (abstract fl h) (last_time x.timestamp xs))
        × (reports (add_all fl h (x ∷ xs)).1 ≡ 0)
    held =
        let e = add_all_refines fl h (x ∷ xs) i in
        let k = track_all-repeat h.capacity (abstract fl h) x xs m (
          subst (λ v. All (IsRepeat v h.last_emitted_ts) (x ∷ xs))
            (ap (λ (z : HashedValue F). z.val) (sym (newest-contents fl h i.ring))) r) in
        (
          ap (λ (q : Tracker F × List (Emitted F)). q.0) e ∙ k.0,
          ap (λ (q : Tracker F × List (Emitted F)). reports q.1) e ∙ k.1,
        )

    -- On a hasher with the invariant and in the normal mode, good readings that repeat the newest value
    -- within `stable_delta` of the last report are all held back: nothing is reported, and the ring only moves the time of its newest sample to that of the last reading.
    pub repeats_held_back :
        (reports (add_all fl h (x ∷ xs)).1 ≡ 0)
        × (contents fl (add_all fl h (x ∷ xs)).0
            ≡ set_last
                (contents fl h)
                (record (slot fl h) { timestamp = last_time x.timestamp xs }))
    repeats_held_back = (
      held.1,
      ap (λ (s : Tracker F). s.log) held.0
          ∙ ap
              (λ (z : HashedValue F).
                set_last (contents fl h) (record z { timestamp = last_time x.timestamp xs }))
              (newest-contents fl h i.ring),
    )

    next_add :
        (y : HashedValue F)
        → (add fl (add_all fl h (x ∷ xs)).0 y.val y.timestamp).1
          ≡ (track fl h.capacity (holding (abstract fl h) (last_time x.timestamp xs)) y).1
    next_add y =
        ap (λ (q : Tracker F × Emitted F). q.1)
          (add_refines fl (add_all fl h (x ∷ xs)).0 y.val y.timestamp (add_all-Inv fl h (x ∷ xs) i)
            ∙ ap₂ (λ c (s : Tracker F). track fl c s y) (capacity-add_all fl h (x ∷ xs)) held.0)

    -- On a hasher with the invariant and in the normal mode, after one or more repeated readings that are
    -- held back, the first good reading that differs is reported together with the last of those.
    pub change_reports_both :
        (y : HashedValue F)
        → feq (slot fl h).val y.val ≡ false
        → feq y.val f64_min ≡ false
        → (add fl (add_all fl h (x ∷ xs)).0 y.val y.timestamp).1
          ≡ (some y, some (record (slot fl h) { timestamp = last_time x.timestamp xs }))
    unfolding track observe_value observe
    change_reports_both y changed good =
        let t = last_time x.timestamp xs in
        next_add y
        ∙ rw (good, m, newest-holding (abstract fl h) t, newest-contents fl h i.ring, changed) refl

    -- On a hasher with the invariant and in the normal mode, after one or more repeated readings that are
    -- held back, a good reading that repeats the value more than `stable_delta` after the last report is
    -- reported alone.
    pub heartbeat_reported :
        (y : HashedValue F)
        → feq (slot fl h).val y.val ≡ true
        → feq y.val f64_min ≡ false
        → elapsed_over y.timestamp h.last_emitted_ts stable_delta_default ≡ true
        → (add fl (add_all fl h (x ∷ xs)).0 y.val y.timestamp).1 ≡ (some y, none)
    unfolding track observe_value observe
    heartbeat_reported y same good over =
        let t = last_time x.timestamp xs in
        next_add y
        ∙ rw (good, m, newest-holding (abstract fl h) t, newest-contents fl h i.ring, same, over)
            refl
