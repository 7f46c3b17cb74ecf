-- ===== src/Hasher/Refine.antt =====
-- The ring implements the log: every call of `add` does to the samples in the ring what the rules
-- of the log say, and reports the same samples.
use modbus_tcplogger.Common.{
  ℕ, ◌≤◌, ◌≡◌, refl, sym, ap, ap₂, ◌∙◌, Bool, false, inl, inr, List, [], ◌∷◌, some, arith, ltb,
  Bool-cases, length,
}
use modbus_tcplogger.Common.Int.{ℤ}
use modbus_tcplogger.Common.Float.{Floats}
use modbus_tcplogger.Hasher.Window.{drop_last, tail, drop_last-snoc}
use modbus_tcplogger.Hasher.Spec.{
  Tracker, push, newest, observe, judge_fail, observe_fail, observe_value, track,
}
use modbus_tcplogger.Hasher.Ring.{
  IsRing, CanRollBack, contents, older, step_back, newest-contents, drop_last-contents,
  write-IsRing, contents-write, slot-write, store_next-IsRing, contents-store_next,
  store_next-CanRollBack, slot-store_next, roll_back-IsRing, contents-roll_back,
  current_and_previous_val_lem,
}
use modbus_tcplogger.Hasher.Inv.{
  Inv, store_next-same, roll_back-same_rest, add_fail_of_normal, add_fail_of_in_fail,
  add_fail_of_reported, store_fail-Inv,
}
use modbus_tcplogger.Hasher.{
  HashedValue, ValueHasher, HashState, normal, in_fail, fail_reported, Emitted,
  stable_delta_default, failure_delta_default, slot, write, store_next, roll_back,
  current_and_previous_val, add_normal, add_after_noice, clean_fail_report, report_fail, add_fail,
  add_value, add,
}

module _ (fl : Floats) where
  open fl use {F, feq, f64_min}

  abbrev pub abstract : ValueHasher F → Tracker F
  abstract h = record {
    log = contents fl h;
    last_emitted = h.last_emitted_ts;
    resolving = h.is_resolving_duplicate;
    mode = h.state;
  }

  abbrev pub view : ValueHasher F × Emitted F → Tracker F × Emitted F
  view r = (abstract r.0, r.1)

  -- `current_and_previous_val` reads nothing but the ring.
  previous_of_same :
      (g : ValueHasher F) (l : ℤ) (b : Bool) (m : HashState)
      → current_and_previous_val fl
          (record g { last_emitted_ts = l; is_resolving_duplicate = b; state = m })
        ≡ current_and_previous_val fl g
  unfolding current_and_previous_val
  previous_of_same g l b m = refl

  pub newest-tail : (es : List (HashedValue F)) → 2 ≤ length es → newest fl (tail es) ≡ newest fl es
  newest-tail [] h = refl
  newest-tail (e ∷ []) h = absurd (omega arith)
  newest-tail (e ∷ e' ∷ es) h = refl

  newest-drop_last-push :
      (cap : ℕ) (es : List (HashedValue F)) (x : HashedValue F)
      → 2 ≤ cap
      → newest fl (drop_last (push cap es x)) ≡ newest fl es
  newest-drop_last-push cap es x h = elim (Bool-cases (ltb (length es) cap)) [
    | inl lt ↦ rw lt (rw drop_last-snoc refl)
    | inr ge ↦ rw ge (rw drop_last-snoc (newest-tail es (ground arith)))
  ]

  -- After a sample is stored, the one before it is the sample that was the newest.
  previous-store_next :
      (h : ValueHasher F) (x : HashedValue F)
      → IsRing h
      → current_and_previous_val fl (store_next fl h x) ≡ (some x, some (slot fl h))
  previous-store_next h x r =
      let g = store_next fl h x in
      let r' = store_next-IsRing fl h x r in
      current_and_previous_val_lem fl g r' (store_next-CanRollBack fl h x r)
      ∙ ap₂ (λ a b. (some a, some b)) (slot-store_next fl h x r)
          (ap (newest fl)
              (sym (drop_last-contents fl g r') ∙ ap drop_last (contents-store_next fl h x r))
            ∙ newest-drop_last-push h.capacity (contents fl h) x r.cap_lo
            ∙ newest-contents fl h r)

  previous-write :
      (h : ValueHasher F) (x : HashedValue F)
      → IsRing h
      → CanRollBack h
      → current_and_previous_val fl (write fl h x) ≡ (some x, some (newest fl (older fl h)))
  previous-write h x r b =
      let g = write fl h x in
      let r' = write-IsRing fl h x r in
      current_and_previous_val_lem fl g r' (ground arith)
      ∙ ap₂ (λ a b. (some a, some b)) (slot-write fl h x r)
          (ap (newest fl) (
            sym (drop_last-contents fl g r')
            ∙ ap drop_last (contents-write fl h x r)
            ∙ drop_last-snoc _ x
            ∙ drop_last-contents fl h r))

  add_normal_refines :
      (h : ValueHasher F) (v : F) (t : ℤ)
      → IsRing h
      → h.stable_delta ≡ stable_delta_default
      → let r = add_normal fl h v t in
        (abstract r.0, r.1) ≡ observe fl h.capacity (abstract h) (record { val = v; timestamp = t })
  unfolding add_normal observe
  add_normal_refines h v t r d =
      let x : HashedValue F = record { val = v; timestamp = t } in
      let y : HashedValue F = record (slot fl h) { timestamp = t } in
      ground (
        arith,
        newest-contents fl h r,
        contents-store_next fl h x r,
        slot-store_next fl h x r,
        store_next-same fl h x,
        contents-write fl h y r,
        previous-store_next h x r,
        previous_of_same (store_next fl h x) t false (store_next fl h x).state,
      )

  -- `report_fail` on a ring whose newest sample can be taken back.
  report_fail_refines :
      (h : ValueHasher F) (t : ℤ)
      → IsRing h
      → CanRollBack h
      → h.state ≡ in_fail
      → h.failure_delta ≡ failure_delta_default
      → let r = report_fail fl h t in (abstract r.0, r.1) ≡ judge_fail fl (abstract h) t
  unfolding report_fail judge_fail
  report_fail_refines h t r b s d =
      let y : HashedValue F = record (slot fl h) { timestamp = t } in
      ground (
        arith,
        newest-contents fl h r,
        slot-write fl h y r,
        contents-write fl h y r,
        previous-write h y r b,
        drop_last-contents fl h r,
        previous_of_same (write fl h y) h.last_emitted_ts false fail_reported,
      )

  add_fail_refines :
      (h : ValueHasher F) (v : F) (t : ℤ) (m : HashState)
      → Inv h
      → h.state ≡ m
      → view (add_fail fl h v t)
        ≡ observe_fail fl h.capacity m (abstract h) (record { val = v; timestamp = t })
  unfolding observe_fail
  add_fail_refines h v t normal i s =
      let x : HashedValue F = record { val = v; timestamp = t } in
      let g : ValueHasher F = record (store_next fl h x) { state = in_fail } in
      let j = store_fail-Inv fl h x i in
      ap view (add_fail_of_normal fl h v t s)
      ∙ report_fail_refines g t j.ring (j.failing refl) refl j.failure
      ∙ ap (λ z. judge_fail fl z t)
          (ground (arith, store_next-same fl h x, contents-store_next fl h x i.ring))
  add_fail_refines h v t in_fail i s =
      ap view (add_fail_of_in_fail fl h v t s)
      ∙ report_fail_refines h t i.ring (i.failing s) s i.failure
  add_fail_refines h v t fail_reported i s = ap view (add_fail_of_reported fl h v t s)

  add_after_noice_refines :
      (h : ValueHasher F) (v : F) (t : ℤ)
      → Inv h
      → h.state ≡ in_fail
      → view (add_after_noice fl h v t)
        ≡ observe fl h.capacity
            (record (abstract h) { log = drop_last (contents fl h); mode = normal })
            (record { val = v; timestamp = t })
  unfolding add_after_noice
  add_after_noice_refines h v t i s =
      let g : ValueHasher F = roll_back (step_back h) in
      let same = roll_back-same_rest fl (step_back h) in
      let r = roll_back-IsRing fl h i.ring (i.failing s) in
      add_normal_refines g v t r (same.1 ∙ i.stable)
      ∙ ap₂ (λ c z. observe fl c z (record { val = v; timestamp = t })) same.0
          (ground (
            arith,
            same,
            contents-roll_back fl h i.ring (i.failing s),
            drop_last-contents fl h i.ring,
          ))

  clean_fail_report_refines :
      (h : ValueHasher F) (v : F) (t : ℤ)
      → Inv h
      → view (clean_fail_report fl h v t)
        ≡ observe_value fl h.capacity fail_reported (abstract h) (record { val = v; timestamp = t })
  unfolding clean_fail_report observe_value
  clean_fail_report_refines h v t i =
      let x : HashedValue F = record { val = v; timestamp = t } in
      let g : ValueHasher F = record h { state = normal; is_resolving_duplicate = false } in
      let r : IsRing g = ground arith in
      ground (arith, store_next-same fl g x, contents-store_next fl g x r, slot-store_next fl g x r)

  add_value_refines :
      (h : ValueHasher F) (v : F) (t : ℤ) (m : HashState)
      → Inv h
      → h.state ≡ m
      → view (add_value fl m h v t)
        ≡ observe_value fl h.capacity m (abstract h) (record { val = v; timestamp = t })
  unfolding add_value observe_value
  add_value_refines h v t normal i s = add_normal_refines h v t i.ring i.stable
  add_value_refines h v t in_fail i s = add_after_noice_refines h v t i s
  add_value_refines h v t fail_reported i s = clean_fail_report_refines h v t i

  -- On a hasher with the invariant, the ring and the log agree on every sample: the ring after `add`
  -- holds the log after `track`, with the same mode and time of the last report, and both report the
  -- same samples.
  pub add_refines :
      (h : ValueHasher F) (v : F) (t : ℤ)
      → Inv h
      → let (h', e) = add fl h v t in
        (abstract h', e) ≡ track fl h.capacity (abstract h) (record { val = v; timestamp = t })
  unfolding add track
  add_refines h v t i = elim (Bool-cases (feq v f64_min)) [
    | inl fail ↦ rw fail (add_fail_refines h v t h.state i refl)
    | inr value ↦ rw value (add_value_refines h v t h.state i refl)
  ]
