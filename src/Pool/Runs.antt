-- ===== src/Pool/Runs.antt =====
-- What `reg_sort` makes of the registers: runs of successive addresses, in order.
use mathlib.Core.Path.{subst}
use modbus_tcplogger.Common.{
  ℕ, suc, ◌≡◌, refl, sym, ap, ◌∙◌, true, false, inl, inr, List, [], ◌∷◌, ◌++◌, append_assoc, ◌⊎◌,
  arith, if◌then◌else◌, Bool-cases, All,
}
use modbus_tcplogger.Common.Int.{ℤ, pos, ◌≤ℤ◌, ◌+ℤ◌, wrap_i32, leb_ℤ, eqb_ℤ, eqb_ℤ_iff}
use modbus_tcplogger.Pool.{joins, runs, reg_sort, insert, sort}

-- A list that is not empty and whose elements follow one another.
abbrev pub IsRun : List ℤ → Type 0
IsRun [] = ⊥
IsRun (x ∷ []) = Unit
IsRun (x ∷ y ∷ ys) = (y ≡ wrap_i32 (x +ℤ pos 1)) × IsRun (y ∷ ys)

abbrev pub concat : List (List ℤ) → List ℤ
concat [] = []
concat (xs ∷ xss) = xs ++ concat xss

runs-concat : (group regs : List ℤ) → concat (runs group regs) ≡ group ++ regs
unfolding runs
runs-concat [] [] = refl
runs-concat (x ∷ xs) [] = refl
runs-concat group (reg ∷ regs) = elim (Bool-cases (joins group reg)) [
  | inl next ↦ rw next (runs-concat (group ++ (reg ∷ [])) regs ∙ append_assoc group (reg ∷ []) regs)
  | inr fresh ↦ rw fresh (ap (λ l. group ++ l) (runs-concat (reg ∷ []) regs))
]

IsRun-extend :
    (group : List ℤ) (reg : ℤ)
    → (group ≡ []) ⊎ IsRun group
    → joins group reg ≡ true
    → IsRun (group ++ (reg ∷ []))
IsRun-extend [] reg r next = tt
IsRun-extend (x ∷ []) reg r next = ((eqb_ℤ_iff reg (wrap_i32 (x +ℤ pos 1))).0 next, tt)
IsRun-extend (x ∷ y ∷ ys) reg (inl e) next = absurd cc
IsRun-extend (x ∷ y ∷ ys) reg (inr (first, more)) next =
    (first, IsRun-extend (y ∷ ys) reg (inr more) next)

joins-nonempty :
    (group : List ℤ) (reg : ℤ) → joins group reg ≡ false → (group ≡ []) ⊎ IsRun group → IsRun group
joins-nonempty [] reg no_join r = absurd cc
joins-nonempty (x ∷ xs) reg no_join (inl e) = absurd cc
joins-nonempty (x ∷ xs) reg no_join (inr r) = r

runs-IsRun : (group regs : List ℤ) → (group ≡ []) ⊎ IsRun group → All IsRun (runs group regs)
unfolding runs
runs-IsRun [] [] r = tt
runs-IsRun (x ∷ xs) [] (inl e) = absurd cc
runs-IsRun (x ∷ xs) [] (inr r) = (r, tt)
runs-IsRun group (reg ∷ regs) r = elim (Bool-cases (joins group reg)) [
  | inl next ↦ rw next (runs-IsRun (group ++ (reg ∷ [])) regs (inr (IsRun-extend group reg r next)))
  | inr fresh ↦ rw fresh (joins-nonempty group reg fresh r, runs-IsRun (reg ∷ []) regs (inr tt))
]

abbrev pub IsSorted : List ℤ → Type 0
IsSorted [] = Unit
IsSorted (x ∷ []) = Unit
IsSorted (x ∷ y ∷ ys) = (x ≤ℤ y) × IsSorted (y ∷ ys)

unfoldable pub occurrences : ℤ → List ℤ → ℕ
occurrences a [] = 0
occurrences a (x ∷ xs) = let rest = occurrences a xs in if eqb_ℤ a x then suc rest else rest

insert-IsSorted : (x : ℤ) (xs : List ℤ) → IsSorted xs → IsSorted (insert x xs)
unfolding insert
insert-IsSorted x [] s = tt
insert-IsSorted x (y ∷ []) s = elim (Bool-cases (leb_ℤ x y)) [
  | inl before ↦ let le : x ≤ℤ y = ground arith in rw before (le, tt)
  | inr after ↦ let le : y ≤ℤ x = ground arith in rw after (le, tt)
]
insert-IsSorted x (y ∷ z ∷ zs) s = elim (Bool-cases (leb_ℤ x y)) [
  | inl before ↦ let le : x ≤ℤ y = ground arith in rw before (le, s)
  | inr after ↦
      let le : y ≤ℤ x = ground arith in
      let rest = insert-IsSorted x (z ∷ zs) s.1 in
      elim (Bool-cases (leb_ℤ x z)) [
        | inl here ↦ rw (after, here) (le, (rw here at rest))
        | inr there ↦ rw (after, there) (s.0, (rw there at rest))
      ]
]

sort-IsSorted : (xs : List ℤ) → IsSorted (sort xs)
unfolding sort
sort-IsSorted [] = tt
sort-IsSorted (x ∷ xs) = insert-IsSorted x (sort xs) (sort-IsSorted xs)

occurrences-insert : (a x : ℤ) (xs : List ℤ) → occurrences a (insert x xs) ≡ occurrences a (x ∷ xs)
unfolding insert occurrences
occurrences-insert a x [] = refl
occurrences-insert a x (y ∷ ys) = ground (arith, occurrences-insert a x ys)

occurrences-sort : (a : ℤ) (xs : List ℤ) → occurrences a (sort xs) ≡ occurrences a xs
unfolding sort occurrences
occurrences-sort a [] = refl
occurrences-sort a (x ∷ xs) =
    ground (arith, occurrences-insert a x (sort xs), occurrences-sort a xs)

-- Grouping the registers of a device keeps each register as often as it is asked for, puts them in
-- order, and cuts them only into runs of successive addresses, none of which is empty.
pub reg_sort-IsRun :
    (registers : List ℤ)
    → All IsRun (reg_sort registers)
      × IsSorted (concat (reg_sort registers))
      × ((a : ℤ) → occurrences a (concat (reg_sort registers)) ≡ occurrences a registers)
unfolding reg_sort
reg_sort-IsRun registers =
    let whole = runs-concat [] (sort registers) in
    (
      runs-IsRun [] (sort registers) (inl refl),
      subst IsSorted (sym whole) (sort-IsSorted registers),
      λ a. ap (occurrences a) whole ∙ occurrences-sort a registers,
    )
