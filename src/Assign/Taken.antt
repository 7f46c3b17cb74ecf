-- ===== src/Assign/Taken.antt =====
-- Which assignments are taken.
use modbus_tcplogger.Common.{
  ◌≡◌, ◌≢◌, ◌∙◌, inl, inr, refl, sym, ap, Bool, true, false, not, ◌&&◌, ◌||◌, none, some, List, [],
  ◌∷◌, ◌++◌, Bool-cases, arith,
}
use modbus_tcplogger.Common.Int.{ℤ, eqb_ℤ, eqb_ℤ_iff}
use modbus_tcplogger.Store.Sql.{any}
use modbus_tcplogger.Assign.{Link, is_id, is_link, clear, insert_link, insert_links}

-- Both keys of each pair are there, and no pair comes twice.
unfoldable pub is_acceptable : List ℤ → List ℤ → ℤ → List ℤ → Bool
is_acceptable owners items owner [] = true
is_acceptable owners items owner (i ∷ ids) =
    any (is_id owner) owners
    && any (is_id i) items
    && not (any (is_id i) ids)
    && is_acceptable owners items owner ids

-- No pair of the command is in the table.
abbrev AreNew : ℤ → List ℤ → List Link → Type 0
AreNew owner ids rows = (j : ℤ) → any (is_id j) ids ≡ true → any (is_link owner j) rows ≡ false

pub any_snoc :
    {A : Type 0} (p : A → Bool) (xs : List A) (y : A) → any p (xs ++ (y ∷ [])) ≡ (p y || any p xs)
unfolding any
any_snoc p [] y = refl
any_snoc p (x ∷ xs) y = ground (arith, any_snoc p xs y)

cleared-AreNew :
    (owner : ℤ) (rows : List Link) (j : ℤ) → any (is_link owner j) (clear owner rows) ≡ false
unfolding any clear
cleared-AreNew owner [] j = refl
cleared-AreNew owner (r ∷ rows) j = ground (arith, cleared-AreNew owner rows j)

and_false : (b : Bool) → ((b && false) || false) ≡ false
and_false true = refl
and_false false = refl

true≢false : true ≢ false
true≢false e = cc

others-AreNew :
    (owner i : ℤ) (ids : List ℤ) (rows : List Link)
    → any (is_id i) ids ≡ false
    → AreNew owner (i ∷ ids) rows
    → AreNew owner ids (rows ++ (record { owner = owner; item = i } ∷ []))
unfolding any
others-AreNew owner i ids rows unseen new j h =
    any_snoc (is_link owner j) rows _ ∙ (elim (Bool-cases (eqb_ℤ i j)) [
      | inl e ↦
          absurd
            (true≢false (sym h ∙ ap (λ k. any (is_id k) ids) (sym ((eqb_ℤ_iff i j).0 e)) ∙ unseen))
      | inr e ↦ rw (e, new j (rw (e, h) refl)) (and_false (eqb_ℤ owner owner))
    ])

insert_link_done :
    (owners items : List ℤ) (owner i : ℤ) (rows : List Link)
    → any (is_id owner) owners ≡ true
    → any (is_id i) items ≡ true
    → any (is_link owner i) rows ≡ false
    → insert_link owners items owner i rows
      ≡ some (rows ++ (record { owner = owner; item = i } ∷ []))
unfolding insert_link
insert_link_done owners items owner i rows a b c = rw (a, b, c) refl

listed : (i : ℤ) (ids : List ℤ) → any (is_id i) (i ∷ ids) ≡ true
unfolding any
listed i ids = rw ((eqb_ℤ_iff i i).1 refl) refl

-- An acceptable command on a cleared table is never refused.
insert_links-none :
    (owners items : List ℤ) (owner : ℤ) (ids : List ℤ) (rows : List Link)
    → AreNew owner ids rows
    → insert_links owners items owner ids (some rows) ≡ none
    → is_acceptable owners items owner ids ≡ false
unfolding insert_links is_acceptable insert_link
insert_links-none owners items owner [] rows new h = cc
insert_links-none owners items owner (i ∷ ids) rows new h =
    elim (Bool-cases (any (is_id owner) owners)) [
      | inr no_owner ↦ rw no_owner refl
      | inl has_owner ↦ elim (Bool-cases (any (is_id i) items)) [
        | inr no_item ↦ rw (has_owner, no_item) refl
        | inl has_item ↦ elim (Bool-cases (any (is_id i) ids)) [
          | inl twice ↦ rw (has_owner, has_item, twice) refl
          | inr unseen ↦
              let rest =
                insert_links-none owners items owner ids
                  (rows ++ (record { owner = owner; item = i } ∷ []))
                  (others-AreNew owner i ids rows unseen new)
                  (ap (insert_links owners items owner ids) (
                      sym (
                        insert_link_done owners items owner i rows has_owner has_item
                          (new i (listed i ids))))
                    ∙ h) in
              rw (has_owner, has_item, unseen) rest
        ]
      ]
    ]

pub cleared-is_acceptable :
    (owners items : List ℤ) (owner : ℤ) (ids : List ℤ) (rows : List Link)
    → insert_links owners items owner ids (some (clear owner rows)) ≡ none
    → is_acceptable owners items owner ids ≡ false
cleared-is_acceptable owners items owner ids rows h =
    insert_links-none owners items owner ids (clear owner rows) (λ j _. cleared-AreNew owner rows j)
      h
