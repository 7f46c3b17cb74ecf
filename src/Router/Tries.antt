-- ===== src/Router/Tries.antt =====
-- How create_new_node of read_loop.rs ends.
use mathlib.Core.Path.{subst}
use modbus_tcplogger.Common.{
  Bool, sym, ap, ◌∙◌, ℕ, zero, suc, ◌+◌, ◌≤◌, ◌<◌, ◌≡◌, ◌⊎◌, ◌≢◌, ◌==◌, ==_iff, true, false,
  if◌then◌else◌, inl, inr, refl, Option, none, some, Option-cases, arith,
}
use modbus_tcplogger.Router.{after_answer, create_new_node}

==-cases : (a b : ℕ) → (a ≡ b) ⊎ (a ≢ b)
==-cases a b = ground arith

-- The first `n` requests have found nothing.
abbrev pub NothingBefore : {R : Type 0} → (ℕ → Option R) → ℕ → Type 0
NothingBefore answer n = (m : ℕ) → m < n → answer m ≡ none

-- The first row that is found, with as many requests as it took.
abbrev pub FirstFound : {R : Type 0} → (ℕ → Option R) → Option R × ℕ → Type 0
FirstFound {R = R} answer r =
    (n : ℕ) × (node : R) × (n < 5)
    × (answer n ≡ some node)
    × NothingBefore answer n
    × (r ≡ (some node, n + 1))

abbrev pub Ends : {R : Type 0} → (ℕ → Option R) → Option R × ℕ → Type 0
Ends answer r = FirstFound answer r ⊎ (NothingBefore answer 5 × (r ≡ (none, 5)))

one_more :
    {R : Type 0} (answer : ℕ → Option R) (c : ℕ)
    → NothingBefore answer c
    → answer c ≡ none
    → NothingBefore answer (c + 1)
one_more answer c before here m lt = elim (==-cases m c) [
  | inl same ↦ rw same here
  | inr other ↦ before m (omega arith)
]

after_none :
    {R : Type 0} (answer : ℕ → Option R) (c : ℕ) (again : Option R × ℕ)
    → NothingBefore answer (c + 1)
    → (c + 1 ≢ 5 → Ends answer again)
    → Ends answer (after_answer none c again)
after_none answer c again before k = go (c + 1 == 5) refl
  where
    go : (b : Bool) → (c + 1 == 5) ≡ b → Ends answer (if b then (none, c + 1) else again)
    go true e =
        let last : c + 1 ≡ 5 = (==_iff (c + 1) 5).0 e in
        inr (subst (NothingBefore answer) last before, ap (λ n. (none, n)) last)
    go false e = k (λ last. cc (sym e ∙ (==_iff (c + 1) 5).1 last))

from_try :
    {R : Type 0} (rounds c : ℕ) (answer : ℕ → Option R)
    → c < 5
    → 5 ≤ rounds + c
    → NothingBefore answer c
    → Ends answer (create_new_node rounds answer c)
unfolding create_new_node
from_try zero c answer small enough before = absurd (omega arith)
from_try (suc rounds) c answer small enough before =
    let again = create_new_node rounds answer (c + 1) in
    elim (Option-cases (answer c)) [
      | inr (node, e) ↦
          subst (λ o. Ends answer (after_answer o c again)) (sym e)
            (inl (c, node, small, e, before, refl))
      | inl e ↦
          subst (λ o. Ends answer (after_answer o c again)) (sym e)
            (after_none answer c again (one_more answer c before e) (λ more.
              from_try rounds (c + 1) answer (omega arith) (omega arith)
                (one_more answer c before e)))
    ]

-- Five rounds are enough, and at most five requests are made: the result is the first row that is
-- found, with as many requests as it took, or nothing after five that found none.
pub create_new_node-Ends :
    {R : Type 0} (rounds : ℕ) (answer : ℕ → Option R)
    → 5 ≤ rounds
    → Ends answer (create_new_node rounds answer 0)
create_new_node-Ends rounds answer h =
    from_try rounds 0 answer (omega arith) (omega arith) (λ m lt. absurd (omega arith))
