-- ===== src/Pool/Walk.antt =====
-- What the iterator over a pool visits.
use mathlib.Core.Path.{subst}
use modbus_tcplogger.Common.{
  ℕ, zero, suc, ◌≤◌, ◌≡◌, refl, sym, ap, ◌∙◌, Option, none, some, List, [], ◌∷◌, ◌++◌, append-nil,
  inl, inr, arith, Option-cases, length, length-append, get_elem?,
}
use modbus_tcplogger.Plugins.{RegType, coils, discrete, holding, input}
use modbus_tcplogger.Pool.{
  ReadStep, PollValueIterator, PoolIter, list_of, into_iter, next_type, next_loop, next,
  total_steps,
}

-- How many rounds of `next` a type still needs.
abbrev types_left : RegType → ℕ
types_left coils = 4
types_left discrete = 3
types_left holding = 2
types_left input = 1

most_types : (t : RegType) → types_left t ≤ 4
most_types coils = omega arith
most_types discrete = omega arith
most_types holding = omega arith
most_types input = omega arith

module _ {F : Type 0} where
  -- The steps that `for step in pool` visits, for at most so many rounds.
  unfoldable pub visited : ℕ → PollValueIterator F → PoolIter → List (ReadStep F)
  visited zero pool it = []
  visited (suc n) pool it =
      let (step, it') = next pool it in elim step [ none ↦ [] | some s ↦ s ∷ visited n pool it' ]

  -- The four lists, in the order of the protocol's tables.
  abbrev pub all_steps : PollValueIterator F → List (ReadStep F)
  all_steps pool = pool.coils ++ (pool.discrete ++ (pool.holding ++ pool.input))

  abbrev from : ℕ → List (ReadStep F) → List (ReadStep F)
  from zero xs = xs
  from (suc i) [] = []
  from (suc i) (x ∷ xs) = from i xs

  abbrev after : PollValueIterator F → RegType → List (ReadStep F)
  after pool coils = pool.discrete ++ (pool.holding ++ pool.input)
  after pool discrete = pool.holding ++ pool.input
  after pool holding = pool.input
  after pool input = []

  abbrev rest_of : PollValueIterator F → PoolIter → List (ReadStep F)
  rest_of pool it = from it.curr_index (list_of pool it.curr_type) ++ after pool it.curr_type

  from-some :
      (xs : List (ReadStep F)) (i : ℕ) (s : ReadStep F)
      → get_elem? xs i ≡ some s
      → from i xs ≡ s ∷ from (suc i) xs
  from-some [] i s e = cc
  from-some (x ∷ xs) zero s e = let same : x ≡ s = cc in ap (λ y. y ∷ xs) same
  from-some (x ∷ xs) (suc i) s e = from-some xs i s e

  from-none : (xs : List (ReadStep F)) (i : ℕ) → get_elem? xs i ≡ none → from i xs ≡ []
  from-none [] zero e = refl
  from-none [] (suc i) e = refl
  from-none (x ∷ xs) zero e = cc
  from-none (x ∷ xs) (suc i) e = from-none xs i e

  -- What `next` gives is the head of `l`, and the rest of `l` is left.
  abbrev pub Follows :
      List (ReadStep F) → PollValueIterator F → Option (ReadStep F) × PoolIter → Type 0
  Follows l pool (none, it') = l ≡ []
  Follows l pool (some s, it') = l ≡ s ∷ rest_of pool it'

  -- What `next` does at the end of a list.
  abbrev past : ℕ → PollValueIterator F → RegType → ℕ → Option (ReadStep F) × PoolIter
  past n pool t i = elim (next_type t) [
    | none ↦ (none, record { curr_type = t; curr_index = i })
    | some u ↦ next_loop n pool (record { curr_type = u; curr_index = 0 })
  ]

  ended-Follows :
      (n : ℕ) (pool : PollValueIterator F) (t : RegType) (i : ℕ)
      → types_left t ≤ suc n
      → ((u : RegType)
          → types_left u ≤ n
          → Follows
              (list_of pool u ++ after pool u)
              pool
              (next_loop n pool (record { curr_type = u; curr_index = 0 })))
      → Follows (after pool t) pool (past n pool t i)
  ended-Follows n pool coils i h ih = ih discrete (omega arith)
  ended-Follows n pool discrete i h ih = ih holding (omega arith)
  ended-Follows n pool holding i h ih =
      subst (λ l. Follows l pool (next_loop n pool (record { curr_type = input; curr_index = 0 })))
        (append-nil pool.input) (ih input (omega arith))
  ended-Follows n pool input i h ih = refl

  next_loop-Follows :
      (n : ℕ) (pool : PollValueIterator F) (t : RegType) (i : ℕ)
      → types_left t ≤ n
      → Follows
          (from i (list_of pool t) ++ after pool t)
          pool
          (next_loop n pool (record { curr_type = t; curr_index = i }))
  unfolding next_loop
  next_loop-Follows zero pool coils i h = absurd (omega arith)
  next_loop-Follows zero pool discrete i h = absurd (omega arith)
  next_loop-Follows zero pool holding i h = absurd (omega arith)
  next_loop-Follows zero pool input i h = absurd (omega arith)
  next_loop-Follows (suc n) pool t i h = elim (Option-cases (get_elem? (list_of pool t) i)) [
    | inl ended ↦
        let here : next_loop (suc n) pool (record { curr_type = t; curr_index = i })
            ≡ past n pool t i =
          simp (next_loop, list_of, ended) in
        subst (λ r. Follows (from i (list_of pool t) ++ after pool t) pool r) (sym here)
          (subst (λ l. Follows (l ++ after pool t) pool (past n pool t i))
            (sym (from-none (list_of pool t) i ended))
            (ended-Follows n pool t i h (λ u. next_loop-Follows n pool u 0)))
    | inr (s, found) ↦
        let here : next_loop (suc n) pool (record { curr_type = t; curr_index = i })
            ≡ (some s, record { curr_type = t; curr_index = suc i }) =
          simp (next_loop, list_of, found) in
        subst (λ r. Follows (from i (list_of pool t) ++ after pool t) pool r) (sym here)
          (ap (λ l. l ++ after pool t) (from-some (list_of pool t) i s found))
  ]

  visited-Follows :
      (n : ℕ) (pool : PollValueIterator F) (l : List (ReadStep F))
      (r : Option (ReadStep F) × PoolIter)
      → Follows l pool r
      → length l ≤ n
      → (elim r.0 [ none ↦ [] | some s ↦ s ∷ visited n pool r.1 ]) ≡ l
  unfolding visited next
  visited-Follows n pool l (none, it) f h = sym f
  visited-Follows zero pool l (some s, it) f h = absurd (let e = ap length f in omega arith)
  visited-Follows (suc n) pool l (some s, it) f h =
      let e = ap length f in
      let next_one =
        next_loop-Follows 4 pool it.curr_type it.curr_index (most_types it.curr_type) in
      ap (λ k. s ∷ k)
        (visited-Follows n pool (rest_of pool it) (next pool it) next_one (omega arith))
      ∙ sym f

  pub length-all_steps : (pool : PollValueIterator F) → length (all_steps pool) ≡ total_steps pool
  unfolding total_steps
  length-all_steps pool = omega (
    arith,
    length-append pool.coils (pool.discrete ++ (pool.holding ++ pool.input)),
    length-append pool.discrete (pool.holding ++ pool.input),
    length-append pool.holding pool.input,
  )

  -- A loop over the pool visits each step of the coils, the discrete inputs, the holding registers and
  -- the input registers once, in this order, and then ends.
  pub visited-all_steps :
      (pool : PollValueIterator F)
      → visited (suc (total_steps pool)) pool into_iter ≡ all_steps pool
  unfolding visited next
  visited-all_steps pool =
      visited-Follows (total_steps pool) pool (all_steps pool) (next pool into_iter)
        (next_loop-Follows 4 pool coils 0 (omega arith)) (omega (arith, length-all_steps pool))
