-- ===== src/Hasher/Search.antt =====
-- The binary search of `lower_bound_ring`: on a sorted window it ends within its fuel, at the first
-- slot whose time is not before the target.
use modbus_tcplogger.Common.{
  ℕ, zero, suc, ◌+◌, ◌-◌, ◌/◌, ◌^◌, ◌≤◌, ◌<◌, ◌≡◌, refl, inl, inr, List, some, arith, ltb,
  Bool-cases,
}
use modbus_tcplogger.Common.Int.{ℤ, ltb_ℤ, ◌≤ℤ◌, ◌<ℤ◌, add_u64}
use modbus_tcplogger.Common.Float.{Floats}
use modbus_tcplogger.Hasher.{HashedValue}
use modbus_tcplogger.Hasher.Query.{probe, search_ring, lower_bound_ring}

module _ (fl : Floats) (arr : List (HashedValue (fl.F))) (oldest : ℕ) where
  -- The time of the `i`-th slot from the oldest.
  abbrev pub time_at : ℕ → ℤ
  time_at i = (probe fl arr oldest i).timestamp

  abbrev pub SortedTo : ℕ → Type 0
  SortedTo size = (i j : ℕ) → i ≤ j → j < size → time_at i ≤ℤ time_at j

  -- `r` separates the times before `target` from the others.
  pub record Splits (size : ℕ) (target : ℤ) (r : ℕ) : Type 0 where
    pub within : r ≤ size
    pub before : (i : ℕ) → i < r → time_at i <ℤ target
    pub after : (i : ℕ) → r ≤ i → i < size → target ≤ℤ time_at i

  below_of :
      (target : ℤ) (i m : ℕ) → time_at i ≤ℤ time_at m → time_at m <ℤ target → time_at i <ℤ target
  below_of target i m p q = omega arith

  above_of :
      (target : ℤ) (m i : ℕ) → time_at m ≤ℤ time_at i → target ≤ℤ time_at m → target ≤ℤ time_at i
  above_of target m i p q = omega arith

  search_ring-Splits :
      (fuel : ℕ) (size : ℕ) (target : ℤ) (left right : ℕ)
      → size ≤ 2 ^ 62
      → SortedTo size
      → right - left < fuel
      → left ≤ right
      → right ≤ size
      → ((i : ℕ) → i < left → time_at i <ℤ target)
      → ((i : ℕ) → right ≤ i → i < size → target ≤ℤ time_at i)
      → (r : ℕ) × (search_ring fl fuel arr oldest target left right ≡ some r) × Splits size target r
  unfolding search_ring
  search_ring-Splits zero size target left right b s f l u below above = absurd (omega arith)
  search_ring-Splits (suc fuel) size target left right b s f l u below above =
      elim (Bool-cases (ltb left right)) [
        | inl lt ↦
            let m = left + (right - left) / 2 in
            let in_range : (left ≤ m) × (m < right) = ground arith in
            let e₁ : add_u64 left ((right - left) / 2) ≡ m = omega arith in
            let e₂ : add_u64 m 1 ≡ m + 1 = omega arith in
            elim (Bool-cases (ltb_ℤ (time_at m) target)) [
              | inl up ↦
                  rw (lt, e₁, up, e₂)
                    (search_ring-Splits fuel size target (m + 1) right b s (omega arith)
                      (omega arith) u
                      (λ i h.
                        below_of target i m (s i m (omega arith) (omega arith)) (ground arith))
                      above)
              | inr down ↦
                  rw (lt, e₁, down)
                    (search_ring-Splits fuel size target left m b s (omega arith) (omega arith)
                      (omega arith) below (λ i p q. above_of target m i (s m i p q) (ground arith)))
            ]
        | inr ge ↦ (
          left,
          rw ge refl,
          record {
            within = omega arith;
            before = below;
            after = λ i p q. above i (ground arith) q;
          },
        )
      ]

  -- On a sorted window of `size` slots the search ends, at the slot that splits it.
  pub lower_bound_ring_total :
      (size : ℕ) (target : ℤ)
      → size ≤ 2 ^ 62
      → SortedTo size
      → (r : ℕ) × (lower_bound_ring fl arr size oldest target ≡ some r) × Splits size target r
  unfolding lower_bound_ring
  lower_bound_ring_total size target b s =
      search_ring-Splits (size + 1) size target 0 size b s (omega arith) (omega arith) (omega arith)
        (λ i h. absurd (omega arith)) (λ i p q. absurd (omega arith))
