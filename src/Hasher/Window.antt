-- ===== src/Hasher/Window.antt =====
-- A window of a circular buffer as a list, and what writing at its end does to it.
use native.Mathlib.Nat.{mod-eq_of_lt, mod-eq-sub-mod}
use modbus_tcplogger.Common.{
  ℕ, zero, suc, ◌+◌, ◌-◌, ◌%◌, ◌^◌, ◌≤◌, ◌<◌, ◌≡◌, refl, ap, ap₂, ◌∙◌, ◌≢◌, inl, inr, List, [], ◌∷◌,
  ◌++◌, arith, ltb, if◌then◌else◌, Bool-cases, get_or, set, length, get_or-set_self, get_or-set_ne,
}
use modbus_tcplogger.Common.Int.{add_u64}

-- The index after `i`, going round at `cap`.
abbrev pub next : ℕ → ℕ → ℕ
next cap i = if ltb (i + 1) cap then i + 1 else 0

-- An index below `2 * cap`, going round once.
abbrev pub wrap : ℕ → ℕ → ℕ
wrap cap k = if ltb k cap then k else k - cap

pub mod-wrap : (cap k : ℕ) → k < cap + cap → k % cap ≡ wrap cap k
mod-wrap cap k h = elim (Bool-cases (ltb k cap)) [
  | inl lt ↦ rw lt (mod-eq_of_lt (ground arith))
  | inr ge ↦ rw ge (
      mod-eq-sub-mod {n = k} {m = cap} (ground arith)
      ∙ mod-eq_of_lt {n = k - cap} {m = cap} (ground arith))
]

pub add_u64-next : (cap i : ℕ) → i < cap → cap ≤ 2 ^ 62 → add_u64 i 1 % cap ≡ next cap i
add_u64-next cap i h b = ground (arith, mod-wrap cap (i + 1))

pub add_u64-next_full :
    (cap i : ℕ) → i < cap → cap ≤ 2 ^ 62 → add_u64 (add_u64 cap i) 1 % cap ≡ next cap i
add_u64-next_full cap i h b = elim (Bool-cases (ltb (i + 1) cap)) [
  | inl lt ↦ ground (arith, mod-wrap cap (cap + i + 1))
  | inr ge ↦ ground (arith, mod-eq-sub-mod {n = cap + i + 1} {m = cap}, mod-wrap cap (i + 1))
]

wrap-next : (cap t n : ℕ) → t < cap → suc n < cap → wrap cap (t + suc n) ≡ wrap cap (next cap t + n)
wrap-next cap t n ht hn = ground arith

wrap_ne : (cap t n : ℕ) → t < cap → suc n < cap → wrap cap (t + suc n) ≢ t
wrap_ne cap t n ht hn = ground arith

module _ {ℓ} {A : Type ℓ} where
  abbrev pub last_or : A → List A → A
  last_or d [] = d
  last_or d (x ∷ []) = x
  last_or d (x ∷ y ∷ r) = last_or d (y ∷ r)

  abbrev pub drop_last : List A → List A
  drop_last [] = []
  drop_last (x ∷ []) = []
  drop_last (x ∷ y ∷ r) = x ∷ drop_last (y ∷ r)

  abbrev pub tail : List A → List A
  tail [] = []
  tail (x ∷ r) = r

  pub last_or-snoc : (d : A) (xs : List A) (x : A) → last_or d (xs ++ (x ∷ [])) ≡ x
  last_or-snoc d [] x = refl
  last_or-snoc d (y ∷ []) x = refl
  last_or-snoc d (y ∷ z ∷ r) x = last_or-snoc d (z ∷ r) x

  pub drop_last-snoc : (xs : List A) (x : A) → drop_last (xs ++ (x ∷ [])) ≡ xs
  drop_last-snoc [] x = refl
  drop_last-snoc (y ∷ []) x = refl
  drop_last-snoc (y ∷ z ∷ r) x = ap (λ l. y ∷ l) (drop_last-snoc (z ∷ r) x)

  -- the `n` slots from `t` on
  abbrev pub window : List A → ℕ → A → ℕ → ℕ → List A
  window buf cap d t zero = []
  window buf cap d t (suc n) = get_or buf t d ∷ window buf cap d (next cap t) n

  pub length-window : (buf : List A) (cap : ℕ) (d : A) (t n : ℕ) → length (window buf cap d t n) ≡ n
  length-window buf cap d t zero = refl
  length-window buf cap d t (suc n) = ap suc (length-window buf cap d (next cap t) n)

  -- A window with its last slot split off.
  pub window-snoc :
      (buf : List A) (cap : ℕ) (d : A) (t n : ℕ)
      → t < cap
      → n < cap
      → window buf cap d t (suc n) ≡ window buf cap d t n ++ (get_or buf (wrap cap (t + n)) d ∷ [])
  window-snoc buf cap d t zero ht hn = let e : wrap cap (t + 0) ≡ t = ground arith in rw e refl
  window-snoc buf cap d t (suc n) ht hn =
      ap (λ l. get_or buf t d ∷ l)
        (window-snoc buf cap d (next cap t) n (ground arith) (omega arith)
          ∙ rw (wrap-next cap t n ht hn))

  -- Writing just past a window extends it.
  pub window-set :
      (buf : List A) (cap : ℕ) (d x : A) (t n i : ℕ)
      → cap ≤ length buf
      → t < cap
      → n < cap
      → i ≡ wrap cap (t + n)
      → window (set buf i x) cap d t (suc n) ≡ window buf cap d t n ++ (x ∷ [])
  window-set buf cap d x t zero i hb ht hn e =
      let e' : i ≡ t = ground arith in rw e' (rw (get_or-set_self buf t x d (omega arith)))
  window-set buf cap d x t (suc n) i hb ht hn e =
      ap₂ ◌∷◌ (get_or-set_ne buf i t x d (rw e (wrap_ne cap t n ht hn))) (
        window-set buf cap d x (next cap t) n i hb (ground arith) (omega arith)
          (e ∙ wrap-next cap t n ht hn))
