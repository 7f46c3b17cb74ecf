-- ===== src/Hasher/Query.antt =====
-- `ValueHasher::get_hashed` and its binary search over the ring.
use modbus_tcplogger.Common.{
  ℕ, zero, suc, ◌+◌, ◌-◌, ◌/◌, ◌%◌, ◌&&◌, ◌||◌, not, Option, none, some, List, [], ◌∷◌, ltb, ◌==◌,
  if◌then◌else◌, get_or, length,
}
use modbus_tcplogger.Common.Int.{ℤ, pos, ltb_ℤ, eqb_ℤ, add_u64, sub_u64}
use modbus_tcplogger.Common.Float.{Floats}
use modbus_tcplogger.Hasher.{HashedValue, ValueHasher, default_value}

module _ (fl : Floats) where
  open fl use {F}

  abbrev pub probe : List (HashedValue F) → ℕ → ℕ → HashedValue F
  probe arr oldest_idx mid = get_or arr (add_u64 oldest_idx mid % length arr) (default_value fl)

  -- The loop of `lower_bound_ring` on fuel; `none` means that the fuel ran out.
  unfoldable pub search_ring : ℕ → List (HashedValue F) → ℕ → ℤ → ℕ → ℕ → Option ℕ
  search_ring zero arr oldest_idx target left right = none
  search_ring (suc fuel) arr oldest_idx target left right =
      let mid = add_u64 left ((right - left) / 2) in
      let upper = search_ring fuel arr oldest_idx target (add_u64 mid 1) right in
      let lower = search_ring fuel arr oldest_idx target left mid in
      if ltb left right
      then if ltb_ℤ (probe arr oldest_idx mid).timestamp target then upper else lower
      else some left

  -- The interval shrinks in each round, so `size + 1` rounds are enough.
  unfoldable pub lower_bound_ring : List (HashedValue F) → ℕ → ℕ → ℤ → Option ℕ
  lower_bound_ring arr size oldest_idx target = search_ring (size + 1) arr oldest_idx target 0 size

  -- `for i in start..end`, with the number of rounds left; entries of time 0 are skipped.
  unfoldable pub collect : ValueHasher F → ℕ → ℕ → ℕ → List (HashedValue F)
  collect h oldest_idx i zero = []
  collect h oldest_idx i (suc n) =
      let idx = add_u64 oldest_idx i % h.capacity in
      let hv = get_or h.hashed_values idx (default_value fl) in
      let rest = collect h oldest_idx (i + 1) n in
      if eqb_ℤ hv.timestamp (pos 0) then rest else hv ∷ rest

  abbrev pub between : ValueHasher F → Option ℕ → Option ℕ → Option (List (HashedValue F))
  between h none _ = none
  between h (some start) none = none
  between h (some start) (some end) =
      if start == end then none else some (collect h h.tail start (end - start))

  -- The number of slots from the oldest to the newest.
  abbrev pub ring_len : ValueHasher F → ℕ
  ring_len h = sub_u64 (add_u64 h.head h.capacity) h.tail % h.capacity + 1

  unfoldable pub get_hashed : ValueHasher F → ℤ → ℤ → Option (List (HashedValue F))
  get_hashed h from to =
      if not (ltb_ℤ from to)
        || (h.head == h.tail && not h.ring_finished
            || ltb_ℤ from (get_or h.hashed_values h.tail (default_value fl)).timestamp)
      then none
      else between h (lower_bound_ring h.hashed_values (ring_len h) h.tail from)
          (lower_bound_ring h.hashed_values (ring_len h) h.tail to)
