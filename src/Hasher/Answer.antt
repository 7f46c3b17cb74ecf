-- ===== src/Hasher/Answer.antt =====
-- What `get_hashed` answers, against the samples in the ring.
use modbus_tcplogger.Common.{
  ℕ, zero, suc, ◌+◌, ◌-◌, ◌%◌, ◌^◌, ◌≤◌, ◌<◌, ◌≡◌, refl, sym, ap, ap₂, ◌∙◌, Bool, true, false, not,
  ◌&&◌, ◌||◌, inl, inr, List, [], ◌∷◌, ◌++◌, Option, none, some, arith, ltb→lt, leb, ◌==◌,
  if◌then◌else◌, Bool-cases, length, keep, keep-append, append-nil, is_empty, get_or,
}
use modbus_tcplogger.Common.Int.{ℤ, pos, ltb_ℤ, eqb_ℤ, ◌<ℤ◌, add_u64}
use modbus_tcplogger.Common.Float.{Floats}
use modbus_tcplogger.Hasher.{HashedValue, ValueHasher, default_value}
use modbus_tcplogger.Hasher.Window.{next, wrap, mod-wrap, window}
use modbus_tcplogger.Hasher.Query.{probe, lower_bound_ring, collect, between, ring_len, get_hashed}
use modbus_tcplogger.Hasher.Search.{SortedTo, Splits, lower_bound_ring_total}
use modbus_tcplogger.Hasher.Ring.{IsRing, dist, contents, samples, length-contents}

-- Two searches behind one guard are equal if they are where the guard lets them run.
guard-cong {ℓ} :
    {A : Type ℓ} (open_interval late : Bool) (x y y' : A)
    → (open_interval ≡ true → y ≡ y')
    → (if not open_interval || late then x else y) ≡ (if not open_interval || late then x else y')
guard-cong true true x y y' h = refl
guard-cong true false x y y' h = h refl
guard-cong false late x y y' h = refl

module _ (fl : Floats) where
  open fl use {F}

  abbrev pub covered : ℤ → ℤ → HashedValue F → Bool
  covered from to x = not (ltb_ℤ x.timestamp from) && ltb_ℤ x.timestamp to

  abbrev pub has_time : HashedValue F → Bool
  has_time x = not (eqb_ℤ x.timestamp (pos 0))

  -- The answer to a query from the samples alone: nothing unless the samples reach back to `from`, and
  -- then those from `from` on and before `to`, without the entries of time 0.
  abbrev pub select : List (HashedValue F) → Option (List (HashedValue F))
  select found = if is_empty found then none else some (keep has_time found)

  abbrev pub answer : Bool → List (HashedValue F) → ℤ → ℤ → Option (List (HashedValue F))
  answer filling es from to =
      if not (ltb_ℤ from to)
        || (length es == 1 && filling || ltb_ℤ from (get_or es 0 (default_value fl)).timestamp)
      then none
      else select (keep (covered from to) es)

  -- `n` slots of the ring from the `i`-th oldest on, as the queries reach them.
  abbrev pub probes : ValueHasher F → ℕ → ℕ → List (HashedValue F)
  probes h i zero = []
  probes h i (suc n) = probe fl h.hashed_values h.tail i ∷ probes h (i + 1) n

  probes-append :
      (h : ValueHasher F) (i m n : ℕ) → probes h i (m + n) ≡ probes h i m ++ probes h (i + m) n
  probes-append h i zero n = ap₂ (λ a b. probes h a b) (omega arith) (omega arith)
  probes-append h i (suc m) n =
      ap (probes h i) {x = suc m + n} {y = suc (m + n)} (omega arith)
      ∙ ap (λ l. probe fl h.hashed_values h.tail i ∷ l)
          (probes-append h (i + 1) m n ∙ ap (λ k. probes h (i + 1) m ++ probes h k n) (omega arith))

  probes_in_three :
      (h : ValueHasher F) (l m n : ℕ)
      → probes h 0 (l + (m + n)) ≡ probes h 0 l ++ (probes h l m ++ probes h (l + m) n)
  probes_in_three h l m n =
      probes-append h 0 l (m + n)
      ∙ ap (λ k. probes h 0 l ++ probes h k (m + n)) {x = 0 + l} {y = l} (omega arith)
      ∙ ap (λ r. probes h 0 l ++ r) (probes-append h l m n)

  is_empty-probes : (h : ValueHasher F) (i n : ℕ) → is_empty (probes h i n) ≡ (n == 0)
  is_empty-probes h i zero = refl
  is_empty-probes h i (suc n) = ground arith

  collect-keep :
      (h : ValueHasher F) (i n : ℕ)
      → h.capacity ≡ length h.hashed_values
      → collect fl h h.tail i n ≡ keep has_time (probes h i n)
  unfolding collect
  collect-keep h i zero e = refl
  collect-keep h i (suc n) e = rw (e, collect-keep h (i + 1) n e) (ground arith)

  window-probes :
      (h : ValueHasher F) (t k n : ℕ)
      → IsRing h
      → t ≡ wrap h.capacity (h.tail + k)
      → k + n ≤ h.capacity
      → window h.hashed_values h.capacity (default_value fl) t n ≡ probes h k n
  window-probes h t k zero r e b = refl
  window-probes h t k (suc n) r e b =
      let e' : t ≡ add_u64 h.tail k % length h.hashed_values =
        rw r.length_buf (ground (arith, mod-wrap h.capacity (h.tail + k))) in
      ap₂ (λ i l. get_or h.hashed_values i (default_value fl) ∷ l) e'
        (window-probes h (next h.capacity t) (k + 1) n r (ground arith) (omega arith))

  pub contents-probes : (h : ValueHasher F) → IsRing h → contents fl h ≡ probes h 0 (suc (dist h))
  unfolding samples
  contents-probes h r = window-probes h h.tail 0 (suc (dist h)) r (ground arith) (ground arith)

  ring_len-dist : (h : ValueHasher F) → IsRing h → ring_len fl h ≡ suc (dist h)
  ring_len-dist h r = ground (arith, mod-wrap h.capacity (h.head + h.capacity - h.tail))

  module _ (h : ValueHasher F) (from to : ℤ) where
    keep_none :
        (i n : ℕ)
        → ((k : ℕ)
            → i ≤ k
            → k < i + n
            → covered from to (probe fl h.hashed_values h.tail k) ≡ false)
        → keep (covered from to) (probes h i n) ≡ []
    keep_none i zero p = refl
    keep_none i (suc n) p =
        rw (p i (omega arith) (omega arith))
          (keep_none (i + 1) n (λ k a b. p k (omega arith) (omega arith)))

    keep_all :
        (i n : ℕ)
        → ((k : ℕ) → i ≤ k → k < i + n → covered from to (probe fl h.hashed_values h.tail k) ≡ true)
        → keep (covered from to) (probes h i n) ≡ probes h i n
    keep_all i zero p = refl
    keep_all i (suc n) p = rw (p i (omega arith) (omega arith)) (
        ap (λ l. probe fl h.hashed_values h.tail i ∷ l)
          (keep_all (i + 1) n (λ k a b. p k (omega arith) (omega arith))))

    -- Between the two splits lie the slots that the query covers, and no others.
    keep-covered :
        (size start end : ℕ)
        → Splits fl h.hashed_values h.tail size from start
        → Splits fl h.hashed_values h.tail size to end
        → start ≤ end
        → keep (covered from to) (probes h 0 size) ≡ probes h start (end - start)
    keep-covered size start end s e o =
        ap (λ k. keep (covered from to) (probes h 0 k)) {x = size}
          {y = start + (end - start + (size - end))} (omega (arith, e.within))
        ∙ ap (keep (covered from to)) (probes_in_three h start (end - start) (size - end))
        ∙ keep-append (covered from to) (probes h 0 start) _
        ∙ ap₂ (λ a b. a ++ b) (keep_none 0 start (λ k a b. ground (arith, s.before k)))
            (keep-append (covered from to) (probes h start (end - start)) _
              ∙ ap₂ (λ a b. a ++ b)
                  (keep_all start (end - start)
                    (λ k a b. ground (arith, s.after k, e.before k, e.within)))
                  (keep_none (start + (end - start)) (size - end)
                    (λ k a b. ground (arith, e.after k, e.within)))
              ∙ append-nil _)

    between-select :
        (start end : ℕ)
        → h.capacity ≡ length h.hashed_values
        → start ≤ end
        → between fl h (some start) (some end) ≡ select (probes h start (end - start))
    between-select start end c o =
        let same : (start == end) ≡ (end - start == 0) = ground arith in
        rw (is_empty-probes h start (end - start), collect-keep h start (end - start) c, same) refl

  ordered-Splits :
      (h : ValueHasher F) (from to : ℤ) (size start end : ℕ)
      → Splits fl h.hashed_values h.tail size from start
      → Splits fl h.hashed_values h.tail size to end
      → from <ℤ to
      → start ≤ end
  ordered-Splits h from to size start end s e lt = elim (Bool-cases (leb start end)) [
    | inl le ↦ ground arith
    | inr gt ↦ absurd (ground (arith, s.before end, e.after end, s.within))
  ]

  -- The two searches and the copy, for an interval that is not empty.
  search-select :
      (h : ValueHasher F) (from to : ℤ)
      → IsRing h
      → SortedTo fl h.hashed_values h.tail (suc (dist h))
      → from <ℤ to
      → between fl h
          (lower_bound_ring fl h.hashed_values (ring_len fl h) h.tail from)
          (lower_bound_ring fl h.hashed_values (ring_len fl h) h.tail to)
        ≡ select (keep (covered from to) (contents fl h))
  search-select h from to r sorted lt =
      let size = suc (dist h) in
      let small : size ≤ 2 ^ 62 = ground arith in
      let (start, e₁, s) =
        lower_bound_ring_total fl h.hashed_values h.tail size from small sorted in
      let (end, e₂, e) = lower_bound_ring_total fl h.hashed_values h.tail size to small sorted in
      let ordered : start ≤ end = ordered-Splits h from to size start end s e lt in
      rw
        (
          ring_len-dist h r,
          e₁,
          e₂,
          contents-probes h r,
          keep-covered h from to size start end s e ordered,
        )
        (between-select h from to start end (sym r.length_buf) ordered)

  -- On a ring whose times are sorted `get_hashed` answers from the samples in the ring: it finds every
  -- sample of the interval and no other, and it never runs out of rounds.
  pub get_hashed-eq-answer :
      (h : ValueHasher F) (from to : ℤ)
      → IsRing h
      → SortedTo fl h.hashed_values h.tail (suc (dist h))
      → get_hashed fl h from to ≡ answer (not h.ring_finished) (contents fl h) from to
  unfolding get_hashed
  get_hashed-eq-answer h from to r sorted =
      ap₂
        (λ b l.
          if not (ltb_ℤ from to) || (b && not h.ring_finished || ltb_ℤ from l)
          then none
          else between fl h (lower_bound_ring fl h.hashed_values (ring_len fl h) h.tail from)
              (lower_bound_ring fl h.hashed_values (ring_len fl h) h.tail to))
        single oldest
      ∙ guard-cong (ltb_ℤ from to) _ none _ _ (λ g. search-select h from to r sorted (ltb→lt _ _ g))
    where
      single : (h.head == h.tail) ≡ (length (contents fl h) == 1)
      single = rw (length-contents fl h) (ground arith)

      oldest :
          (get_or h.hashed_values h.tail (default_value fl)).timestamp
          ≡ (get_or (contents fl h) 0 (default_value fl)).timestamp
      oldest = unfold samples in refl
