-- ===== src/Hasher/Ring.antt =====
-- The samples that the ring holds, oldest first, and the part of the invariant that keeps the ring
-- well formed: no index out of range and no machine arithmetic that wraps.
use modbus_tcplogger.Common.{
  ℕ, suc, ◌+◌, ◌-◌, ◌^◌, ◌≤◌, ◌<◌, ◌≡◌, refl, ap, ◌∙◌, ◌⊎◌, true, false, inl, inr, some, List, [],
  ◌∷◌, ◌++◌, arith, ltb, leb, if◌then◌else◌, Bool-cases, get_or, length, length-set,
  get_or-set_self,
}
use modbus_tcplogger.Common.Int.{sub_u64}
use modbus_tcplogger.Common.Float.{Floats}
use modbus_tcplogger.Hasher.Window.{
  next, wrap, add_u64-next, add_u64-next_full, drop_last, tail, last_or-snoc, drop_last-snoc,
  window, length-window, window-snoc, window-set,
}
use modbus_tcplogger.Hasher.Spec.{push, set_last, newest}
use modbus_tcplogger.Hasher.{
  HashedValue, ValueHasher, normal, default_value, slot, write, advance, go_ahead, roll_back,
  store_next, current_and_previous_val,
}

module _ {F : Type 0} where
  -- How many slots the newest sample lies after the oldest.
  abbrev pub dist : ValueHasher F → ℕ
  dist h = if leb h.tail h.head then h.head - h.tail else h.head + h.capacity - h.tail

  pub record IsRing (h : ValueHasher F) : Type 0 where
    pub length_buf : length h.hashed_values ≡ h.capacity
    pub cap_lo : 2 ≤ h.capacity
    pub cap_hi : h.capacity ≤ 2 ^ 62
    pub head_in : h.head < h.capacity
    pub tail_in : h.tail < h.capacity
    pub filling : h.ring_finished ≡ false → (h.tail ≡ 0) × (h.current ≡ h.head)
    pub wrapped :
        h.ring_finished ≡ true
        → (h.tail ≡ next h.capacity h.head) ⊎ (h.tail ≡ next h.capacity (next h.capacity h.head))

  -- The newest sample can be taken back: another one stands before it.
  pub record CanRollBack (h : ValueHasher F) : Type 0 where
    pub filling : h.ring_finished ≡ false → 0 < h.head
    pub wrapped : h.ring_finished ≡ true → h.tail ≡ next h.capacity h.head

  pub advance-go_ahead-IsRing :
      (h : ValueHasher F)
      → IsRing h
      → IsRing (go_ahead (advance h)) × CanRollBack (go_ahead (advance h))
  unfolding advance go_ahead
  advance-go_ahead-IsRing h r =
      ground (
        arith,
        add_u64-next h.capacity h.head,
        add_u64-next_full h.capacity (next h.capacity h.head),
      )

  -- `add_after_noice` before its `roll_back`.
  abbrev pub step_back : ValueHasher F → ValueHasher F
  step_back h = record h {
    state = normal;
    current = if h.ring_finished then h.current else sub_u64 h.current 1;
  }

  -- How the ends of the ring move: a full ring gives up its oldest slot.
  abbrev Moved : ValueHasher F → ValueHasher F → Type 0
  Moved h g =
      (ltb (suc (dist h)) h.capacity ≡ true → (dist g ≡ suc (dist h)) × (g.tail ≡ h.tail))
      × (ltb (suc (dist h)) h.capacity ≡ false
          → (dist g ≡ dist h) × (g.tail ≡ next h.capacity h.tail))

  advance-go_ahead-Moved : (h : ValueHasher F) → IsRing h → Moved h (go_ahead (advance h))
  unfolding advance go_ahead
  advance-go_ahead-Moved h r =
      ground (
        arith,
        add_u64-next h.capacity h.head,
        add_u64-next_full h.capacity (next h.capacity h.head),
      )

  advance-go_ahead-same :
      (h : ValueHasher F)
      → let g = go_ahead (advance h) in
        (g.hashed_values ≡ h.hashed_values) × (g.capacity ≡ h.capacity)
  unfolding advance go_ahead
  advance-go_ahead-same h = ground arith

module _ (fl : Floats) where
  open fl use {F}

  -- The slots from `tail` to `head`, and those before `head`.
  abbrev gap : ℕ → ℕ → ℕ → ℕ
  gap cap head tail = if leb tail head then head - tail else head + cap - tail

  unfoldable pub samples : List (HashedValue F) → ℕ → ℕ → ℕ → List (HashedValue F)
  samples buf cap head tail = window buf cap (default_value fl) tail (suc (gap cap head tail))

  unfoldable pub samples_before : List (HashedValue F) → ℕ → ℕ → ℕ → List (HashedValue F)
  samples_before buf cap head tail = window buf cap (default_value fl) tail (gap cap head tail)

  -- The samples in the ring, oldest first, and those before the newest.
  abbrev pub contents : ValueHasher F → List (HashedValue F)
  contents h = samples h.hashed_values h.capacity h.head h.tail

  abbrev pub older : ValueHasher F → List (HashedValue F)
  older h = samples_before h.hashed_values h.capacity h.head h.tail

  pub length-contents : (h : ValueHasher F) → length (contents h) ≡ suc (dist h)
  unfolding samples samples_before
  length-contents h =
      length-window h.hashed_values h.capacity (default_value fl) h.tail (suc (dist h))

  head-wrap : (h : ValueHasher F) → IsRing h → h.head ≡ wrap h.capacity (h.tail + dist h)
  head-wrap h r = ground arith

  dist-lt : (h : ValueHasher F) → IsRing h → dist h < h.capacity
  dist-lt h r = ground arith

  pub contents-snoc : (h : ValueHasher F) → IsRing h → contents h ≡ older h ++ (slot fl h ∷ [])
  unfolding samples samples_before
  contents-snoc h r =
      window-snoc h.hashed_values h.capacity (default_value fl) h.tail (dist h) r.tail_in
        (dist-lt h r)
      ∙ rw (← head-wrap h r)

  pub newest-contents : (h : ValueHasher F) → IsRing h → newest fl (contents h) ≡ slot fl h
  newest-contents h r = rw (contents-snoc h r) (last_or-snoc _ (older h) (slot fl h))

  pub drop_last-contents : (h : ValueHasher F) → IsRing h → drop_last (contents h) ≡ older h
  drop_last-contents h r = rw (contents-snoc h r) (drop_last-snoc (older h) (slot fl h))

  pub write-IsRing : (h : ValueHasher F) (x : HashedValue F) → IsRing h → IsRing (write fl h x)
  write-IsRing h x r = ground (arith, length-set h.hashed_values h.head x)

  -- Writing at the head replaces the newest sample.
  pub contents-write :
      (h : ValueHasher F) (x : HashedValue F)
      → IsRing h
      → contents (write fl h x) ≡ set_last (contents h) x
  unfolding samples samples_before
  contents-write h x r =
      window-set h.hashed_values h.capacity (default_value fl) x h.tail (dist h) h.head
        (omega arith) r.tail_in (dist-lt h r) (head-wrap h r)
      ∙ rw (drop_last-contents h r)

  pub slot-write : (h : ValueHasher F) (x : HashedValue F) → IsRing h → slot fl (write fl h x) ≡ x
  slot-write h x r = get_or-set_self h.hashed_values h.head x (default_value fl) (omega arith)

  older_at :
      (h g : ValueHasher F) {t n : ℕ}
      → g.hashed_values ≡ h.hashed_values
      → g.capacity ≡ h.capacity
      → g.tail ≡ t
      → dist g ≡ n
      → older g ≡ window h.hashed_values h.capacity (default_value fl) t n
  unfolding samples samples_before
  older_at h g b c p q = λ i. window (b i) (c i) (default_value fl) (p i) (q i)

  older_of_Moved :
      (h g : ValueHasher F)
      → g.hashed_values ≡ h.hashed_values
      → g.capacity ≡ h.capacity
      → Moved h g
      → older g ≡ (if ltb (suc (dist h)) h.capacity then contents h else tail (contents h))
  unfolding samples
  older_of_Moved h g b c m = elim (Bool-cases (ltb (suc (dist h)) h.capacity)) [
    | inl lt ↦ rw lt (older_at h g b c (m.0 lt).1 (m.0 lt).0)
    | inr ge ↦ rw ge (older_at h g b c (m.1 ge).1 (m.1 ge).0)
  ]

  pub store_next-IsRing :
      (h : ValueHasher F) (x : HashedValue F) → IsRing h → IsRing (store_next fl h x)
  unfolding store_next
  store_next-IsRing h x r = write-IsRing (go_ahead (advance h)) x (advance-go_ahead-IsRing h r).0

  -- Storing a sample pushes it to the log.
  pub contents-store_next :
      (h : ValueHasher F) (x : HashedValue F)
      → IsRing h
      → contents (store_next fl h x) ≡ push h.capacity (contents h) x
  unfolding store_next
  contents-store_next h x r =
      let g = go_ahead (advance h) in
      let s = advance-go_ahead-same h in
      contents-write g x (advance-go_ahead-IsRing h r).0
      ∙ ap (λ l. l ++ (x ∷ []))
          (drop_last-contents g (advance-go_ahead-IsRing h r).0
            ∙ older_of_Moved h g s.0 s.1 (advance-go_ahead-Moved h r)
            ∙ rw (length-contents h))

  pub store_next-CanRollBack :
      (h : ValueHasher F) (x : HashedValue F) → IsRing h → CanRollBack (store_next fl h x)
  unfolding store_next
  store_next-CanRollBack h x r = ground (arith, (advance-go_ahead-IsRing h r).1)

  pub slot-store_next :
      (h : ValueHasher F) (x : HashedValue F) → IsRing h → slot fl (store_next fl h x) ≡ x
  unfolding store_next
  slot-store_next h x r = slot-write (go_ahead (advance h)) x (advance-go_ahead-IsRing h r).0

  newest-older_at :
      (h : ValueHasher F) (m : ℕ)
      → IsRing h
      → dist h ≡ suc m
      → newest fl (older h)
        ≡ get_or h.hashed_values (wrap h.capacity (h.tail + m)) (default_value fl)
  newest-older_at h m r e =
      ap (newest fl) (
        older_at h h refl refl refl e
        ∙ window-snoc h.hashed_values h.capacity (default_value fl) h.tail m r.tail_in
            (ground arith))
      ∙ last_or-snoc (default_value fl)
          (window h.hashed_values h.capacity (default_value fl) h.tail m) _

  -- Taking the newest sample back leaves the older ones.
  pub roll_back-IsRing :
      (h : ValueHasher F) → IsRing h → CanRollBack h → IsRing (roll_back (step_back h))
  unfolding roll_back
  roll_back-IsRing h r b = ground arith

  roll_back-same :
      (h : ValueHasher F)
      → IsRing h
      → CanRollBack h
      → let g = roll_back (step_back h) in
        (g.hashed_values ≡ h.hashed_values)
        × (g.capacity ≡ h.capacity)
        × (g.tail ≡ h.tail)
        × (suc (dist g) ≡ dist h)
  unfolding roll_back
  roll_back-same h r b = ground arith

  pub contents-roll_back :
      (h : ValueHasher F) → IsRing h → CanRollBack h → contents (roll_back (step_back h)) ≡ older h
  unfolding samples samples_before
  contents-roll_back h r b =
      let (p, q, s, d) = roll_back-same h r b in
      λ i. window (p i) (q i) (default_value fl) (s i) (d i)

  -- What the program takes for the sample before the newest is that sample.
  pub current_and_previous_val_lem :
      (h : ValueHasher F)
      → IsRing h
      → CanRollBack h
      → current_and_previous_val fl h ≡ (some (slot fl h), some (newest fl (older h)))
  unfolding current_and_previous_val
  current_and_previous_val_lem h r b =
      let e : dist h ≡ suc (dist h - 1) = ground arith in
      rw (newest-older_at h (dist h - 1) r e) (ground arith)
