-- ===== src/Hasher/Inv.antt =====
-- The invariant of `ValueHasher`, and that every call of `add` keeps it.
use modbus_tcplogger.Common.{
  ℕ, ◌≢◌, length-set, length-replicate, replicate, ◌^◌, ◌≤◌, ◌≡◌, refl, ◌∙◌, false, inl, inr, arith,
  Bool-cases,
}
use modbus_tcplogger.Common.Int.{ℤ}
use modbus_tcplogger.Common.Float.{Floats}
use modbus_tcplogger.Hasher.Ring.{
  IsRing, CanRollBack, step_back, store_next-IsRing, store_next-CanRollBack, roll_back-IsRing,
}
use modbus_tcplogger.Hasher.{
  HashedValue, ValueHasher, HashState, normal, in_fail, fail_reported, void, stable_delta_default,
  failure_delta_default, default_value, slot, advance, go_ahead, store_next, roll_back, add_normal,
  add_after_noice, clean_fail_report, enter_fail, new, report_fail, add_fail, add_value, add,
}

pub record Inv {F : Type 0} (h : ValueHasher F) : Type 0 where
  pub ring : IsRing h
  pub stable : h.stable_delta ≡ stable_delta_default
  pub failure : h.failure_delta ≡ failure_delta_default
  pub failing : h.state ≡ in_fail → CanRollBack h

module _ (fl : Floats) where
  open fl use {F, feq, f64_min}

  -- The fields that storing a sample leaves alone.
  pub store_next-same :
      (h : ValueHasher F) (x : HashedValue F)
      → let g = store_next fl h x in
        (g.capacity ≡ h.capacity)
        × (g.stable_delta ≡ h.stable_delta)
        × (g.failure_delta ≡ h.failure_delta)
        × (g.last_emitted_ts ≡ h.last_emitted_ts)
        × (g.is_resolving_duplicate ≡ h.is_resolving_duplicate)
        × (g.state ≡ h.state)
  unfolding store_next advance go_ahead
  store_next-same h x = ground arith

  -- The fields that `roll_back` leaves alone.
  pub roll_back-same_rest :
      (h : ValueHasher F)
      → let g = roll_back h in
        (g.capacity ≡ h.capacity)
        × (g.stable_delta ≡ h.stable_delta)
        × (g.failure_delta ≡ h.failure_delta)
        × (g.last_emitted_ts ≡ h.last_emitted_ts)
        × (g.is_resolving_duplicate ≡ h.is_resolving_duplicate)
        × (g.state ≡ h.state)
  unfolding roll_back
  roll_back-same_rest h = ground arith

  pub add_fail_of_normal :
      (h : ValueHasher F) (v : F) (t : ℤ)
      → h.state ≡ normal
      → add_fail fl h v t
        ≡ report_fail fl
            (record (store_next fl h (record { val = v; timestamp = t })) { state = in_fail })
            t
  unfolding add_fail enter_fail
  add_fail_of_normal h v t s = rw s

  pub add_fail_of_in_fail :
      (h : ValueHasher F) (v : F) (t : ℤ)
      → h.state ≡ in_fail
      → add_fail fl h v t ≡ report_fail fl h t
  unfolding add_fail enter_fail
  add_fail_of_in_fail h v t s = rw s

  pub add_fail_of_reported :
      (h : ValueHasher F) (v : F) (t : ℤ) → h.state ≡ fail_reported → add_fail fl h v t ≡ (h, void)
  unfolding add_fail
  add_fail_of_reported h v t s = rw s

  abbrev pub store_fail : ValueHasher F → HashedValue F → ValueHasher F
  store_fail h x = record (store_next fl h x) { state = in_fail }

  pub store_fail-Inv : (h : ValueHasher F) (x : HashedValue F) → Inv h → Inv (store_fail h x)
  store_fail-Inv h x i = record {
    ring = ground (arith, store_next-IsRing fl h x i.ring);
    stable = ground (arith, store_next-same h x, i);
    failure = ground (arith, store_next-same h x, i);
    failing = λ _. ground (arith, store_next-CanRollBack fl h x i.ring);
  }

  pub new-Inv : (cap : ℕ) (v : F) (t : ℤ) → 2 ≤ cap → cap ≤ 2 ^ 62 → Inv (new fl cap v t)
  unfolding new
  new-Inv cap v t l u = record {
    ring = ground (
      arith,
      length-set (replicate cap (default_value fl)) 0 (record { val = v; timestamp = t }),
      length-replicate cap (default_value fl),
    );
    stable = refl;
    failure = refl;
    failing = λ e. cc;
  }

  add_normal-Inv :
      (h : ValueHasher F) (v : F) (t : ℤ)
      → IsRing h
      → h.stable_delta ≡ stable_delta_default
      → h.failure_delta ≡ failure_delta_default
      → h.state ≢ in_fail
      → Inv (add_normal fl h v t).0
  unfolding add_normal
  add_normal-Inv h v t r d e n =
      let x : HashedValue F = record { val = v; timestamp = t } in
      ground (
        arith,
        store_next-same h x,
        store_next-IsRing fl h x r,
        length-set h.hashed_values h.head (record (slot fl h) { timestamp = t }),
      )

  clean_fail_report-Inv :
      (h : ValueHasher F) (v : F) (t : ℤ) → Inv h → Inv (clean_fail_report fl h v t).0
  unfolding clean_fail_report
  clean_fail_report-Inv h v t i =
      let x : HashedValue F = record { val = v; timestamp = t } in
      let g : ValueHasher F = record h { state = normal; is_resolving_duplicate = false } in
      let r : IsRing g = ground arith in
      ground (arith, store_next-same g x, store_next-IsRing fl g x r)

  report_fail-Inv : (h : ValueHasher F) (t : ℤ) → Inv h → Inv (report_fail fl h t).0
  unfolding report_fail
  report_fail-Inv h t i =
      ground (arith, length-set h.hashed_values h.head (record (slot fl h) { timestamp = t }))

  add_fail-Inv :
      (h : ValueHasher F) (v : F) (t : ℤ) (m : HashState)
      → Inv h
      → h.state ≡ m
      → Inv (add_fail fl h v t).0
  add_fail-Inv h v t normal i s =
      rw (add_fail_of_normal h v t s) (report_fail-Inv _ t (store_fail-Inv h _ i))
  add_fail-Inv h v t in_fail i s = rw (add_fail_of_in_fail h v t s) (report_fail-Inv h t i)
  add_fail-Inv h v t fail_reported i s = rw (add_fail_of_reported h v t s) i

  add_value-Inv :
      (h : ValueHasher F) (v : F) (t : ℤ) (m : HashState)
      → Inv h
      → h.state ≡ m
      → Inv (add_value fl m h v t).0
  unfolding add_value add_after_noice
  add_value-Inv h v t normal i s = add_normal-Inv h v t i.ring i.stable i.failure (λ e. cc)
  add_value-Inv h v t in_fail i s =
      let g : ValueHasher F = roll_back (step_back h) in
      let same = roll_back-same_rest (step_back h) in
      add_normal-Inv g v t (roll_back-IsRing fl h i.ring (i.failing s)) (same.1 ∙ i.stable)
        (same.2 ∙ i.failure) (λ e. cc (same.5))
  add_value-Inv h v t fail_reported i s = clean_fail_report-Inv h v t i

  -- Every sample keeps the invariant `Inv`: the indices of the ring stay in range and its counters do
  -- not wrap, the two intervals keep their values, and in a failure that is not reported the newest
  -- sample can be taken back.
  pub add-Inv : (h : ValueHasher F) (v : F) (t : ℤ) → Inv h → Inv (add fl h v t).0
  unfolding add
  add-Inv h v t i = elim (Bool-cases (feq v f64_min)) [
    | inl fail ↦ rw fail (add_fail-Inv h v t h.state i refl)
    | inr value ↦ rw value (add_value-Inv h v t h.state i refl)
  ]

  capacity-add_normal :
      (h : ValueHasher F) (v : F) (t : ℤ) → (add_normal fl h v t).0.capacity ≡ h.capacity
  unfolding add_normal
  capacity-add_normal h v t = ground (arith, store_next-same h (record { val = v; timestamp = t }))

  capacity-report_fail : (h : ValueHasher F) (t : ℤ) → (report_fail fl h t).0.capacity ≡ h.capacity
  unfolding report_fail
  capacity-report_fail h t = ground arith

  capacity-add_fail :
      (h : ValueHasher F) (v : F) (t : ℤ) (m : HashState)
      → h.state ≡ m
      → (add_fail fl h v t).0.capacity ≡ h.capacity
  capacity-add_fail h v t normal s =
      let x : HashedValue F = record { val = v; timestamp = t } in
      rw (add_fail_of_normal h v t s)
        (capacity-report_fail (store_fail h x) t ∙ (store_next-same h x).0)
  capacity-add_fail h v t in_fail s = rw (add_fail_of_in_fail h v t s) (capacity-report_fail h t)
  capacity-add_fail h v t fail_reported s = rw (add_fail_of_reported h v t s) refl

  capacity-add_value :
      (h : ValueHasher F) (v : F) (t : ℤ) (m : HashState)
      → (add_value fl m h v t).0.capacity ≡ h.capacity
  unfolding add_value add_after_noice clean_fail_report
  capacity-add_value h v t normal = capacity-add_normal h v t
  capacity-add_value h v t in_fail =
      capacity-add_normal (roll_back (step_back h)) v t ∙ (roll_back-same_rest (step_back h)).0
  capacity-add_value h v t fail_reported =
      (store_next-same (record h { state = normal; is_resolving_duplicate = false })
        (record { val = v; timestamp = t })).0

  pub capacity-add : (h : ValueHasher F) (v : F) (t : ℤ) → (add fl h v t).0.capacity ≡ h.capacity
  unfolding add
  capacity-add h v t = elim (Bool-cases (feq v f64_min)) [
    | inl fail ↦ rw fail (capacity-add_fail h v t h.state refl)
    | inr value ↦ rw value (capacity-add_value h v t h.state)
  ]
