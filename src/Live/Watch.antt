-- ===== src/Live/Watch.antt =====
-- A map of last states and the changes that a subscriber is told, for any type of keys: `check_change`
-- and the three `..._events` methods.
use modbus_tcplogger.Common.{
  Bool, true, false, ◌&&◌, ◌||◌, Option, none, some, List, [], ◌∷◌, ◌++◌, ◌≡◌, ◌↔◌, sym, ap, ◌∙◌,
  append_assoc, inl, inr, arith, if◌then◌else◌, Bool-cases,
}

module _ {K : Type 0} (eqk : K → K → Bool) where
  -- `HashSet::contains`
  abbrev pub contains : List K → K → Bool
  contains [] key = false
  contains (k ∷ ks) key = eqk k key || contains ks key

  not_asked :
      ((a b : K) → (eqk a b ≡ true) ↔ (a ≡ b))
      → (t key : K) (keys : List K) → contains keys t ≡ true
      → contains keys key ≡ false
      → eqk key t ≡ false
  not_asked law t key keys asked untold = elim (Bool-cases (eqk key t)) [
    | inr differ ↦ differ
    | inl same ↦ let clash = ap (contains keys) ((law key t).0 same) in cc
  ]

module _ {K V : Type 0} (eqk : K → K → Bool) where
  -- `HashMap::get`
  unfoldable pub lookup : K → List (K × V) → Option V
  lookup t [] = none
  lookup t ((k, v) ∷ m) = if eqk k t then some v else lookup t m

  -- The map after `check_change`, and whether the state is new.
  unfoldable pub check_change : (V → V → Bool) → List (K × V) → K → V → List (K × V) × Bool
  check_change eqv [] key value = ((key, value) ∷ [], true)
  check_change eqv ((k, v) ∷ m) key value =
      let (m', changed) = check_change eqv m key value in
      if eqk k key
      then if eqv v value then ((k, v) ∷ m, false) else ((k, value) ∷ m, true)
      else ((k, v) ∷ m', changed)

  -- A change is noted for a key that the subscriber asked for.
  unfoldable pub note_change : List K → K → V → List (K × V) → List (K × V)
  note_change keys key value changes =
      if contains eqk keys key then changes ++ ((key, value) ∷ []) else changes

  -- What a client that is told `changes` takes for the state of `t`: the last of them.
  unfoldable pub latest : K → List (K × V) → Option V
  latest t [] = none
  latest t ((k, v) ∷ l) = elim (latest t l) [
    | some w ↦ some w
    | none ↦ if eqk k t then some v else none
  ]

  module _ (eqk_iff : (a b : K) → (eqk a b ≡ true) ↔ (a ≡ b)) where
    latest-snoc :
        (t k : K) (v : V) (l : List (K × V))
        → latest t (l ++ ((k, v) ∷ [])) ≡ (if eqk k t then some v else latest t l)
    unfolding latest
    latest-snoc t k v [] = ground arith
    latest-snoc t k v ((j, w) ∷ l) = ground (arith, latest-snoc t k v l)

    lookup-check_change :
        (eqv : V → V → Bool) (m : List (K × V)) (key : K) (value : V) (t : K)
        → lookup t (check_change eqv m key value).0
          ≡ (if (check_change eqv m key value).1 && eqk key t then some value else lookup t m)
    unfolding lookup check_change
    lookup-check_change eqv [] key value t = ground arith
    lookup-check_change eqv ((k, v) ∷ m) key value t =
        ground
          (arith, lookup-check_change eqv m key value t, eqk_iff k key, eqk_iff key t, eqk_iff k t)

    -- For each key that a subscriber asked for, what it was told is what the map holds.
    abbrev pub Shown : List K → List (K × V) → List (K × V) → Type 0
    Shown keys told m = (t : K) → contains eqk keys t ≡ true → latest t told ≡ lookup t m

    pub changed-Shown :
        (eqv : V → V → Bool) (m : List (K × V)) (key : K) (value : V) (keys : List K)
        (sent pending : List (K × V))
        → (check_change eqv m key value).1 ≡ true
        → Shown keys (sent ++ pending) m
        → Shown keys (sent ++ note_change keys key value pending) (check_change eqv m key value).0
    unfolding note_change
    changed-Shown eqv m key value keys sent pending c s t asked =
        elim (Bool-cases (contains eqk keys key)) [
          | inl told ↦
              ap (λ b. latest t (sent ++ (if b then pending ++ ((key, value) ∷ []) else pending)))
                told
              ∙ ap (latest t) (sym (append_assoc sent pending ((key, value) ∷ [])))
              ∙ latest-snoc t key value (sent ++ pending)
              ∙ ap (λ o. if eqk key t then some value else o) (s t asked)
              ∙ sym (
                  lookup-check_change eqv m key value t
                  ∙ ap (λ b. if b && eqk key t then some value else lookup t m) c)
          | inr untold ↦
              ap (λ b. latest t (sent ++ (if b then pending ++ ((key, value) ∷ []) else pending)))
                untold
              ∙ s t asked
              ∙ sym (
                  lookup-check_change eqv m key value t
                  ∙ ap
                      (λ b.
                        if (check_change eqv m key value).1 && b then some value else lookup t m)
                      (not_asked eqk eqk_iff t key keys asked untold)
                  ∙ ground arith)
        ]

    pub same-Shown :
        (eqv : V → V → Bool) (m : List (K × V)) (key : K) (value : V) (keys : List K)
        (told : List (K × V))
        → (check_change eqv m key value).1 ≡ false
        → Shown keys told m
        → Shown keys told (check_change eqv m key value).0
    same-Shown eqv m key value keys told c s t asked =
        s t asked
        ∙ sym (
            lookup-check_change eqv m key value t
            ∙ ap (λ b. if b && eqk key t then some value else lookup t m) c)
