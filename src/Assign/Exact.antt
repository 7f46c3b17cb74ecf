-- ===== src/Assign/Exact.antt =====
-- What an assignment leaves in its table.
use mathlib.Core.Path.{subst}
use modbus_tcplogger.Common.{
  ℕ, ◌≡◌, ◌≢◌, ◌∙◌, ◌⊎◌, inl, inr, refl, sym, ap, Bool, true, false, not, ◌&&◌, ◌||◌, Option, none,
  some, List, [], ◌∷◌, if◌then◌else◌, arith,
}
use modbus_tcplogger.Common.Int.{ℤ, eqb_ℤ}
use modbus_tcplogger.Store.Sql.{Reply, works, fails, hangs, ok, any}
use modbus_tcplogger.Assign.Taken.{any_snoc, is_acceptable, cleared-is_acceptable}
use modbus_tcplogger.Assign.{
  Link, AssignDb, AssignGroupsAndValuesCommand, is_id, is_link, clear, insert_link, insert_links,
  Ending, statement, commit_links, add_links, assign_groups_to_user, assign_values_to_subgroup,
  command_assign,
}

cleared :
    (owner u i : ℤ) (rows : List Link)
    → any (is_link u i) (clear owner rows) ≡ (not (eqb_ℤ owner u) && any (is_link u i) rows)
unfolding any clear
cleared owner u i [] = ground arith
cleared owner u i (r ∷ rows) = ground (arith, cleared owner u i rows)

if_some : {A : Type 0} (b : Bool) (x y : A) → (if b then some x else none) ≡ some y → x ≡ y
if_some true x y h = cc
if_some false x y h = cc

insert_link-any :
    (owners items : List ℤ) (owner item u i : ℤ) (rows new : List Link)
    → insert_link owners items owner item rows ≡ some new
    → any (is_link u i) new ≡ ((eqb_ℤ owner u && eqb_ℤ item i) || any (is_link u i) rows)
unfolding insert_link
insert_link-any owners items owner item u i rows new h =
    ap (any (is_link u i)) (sym (if_some _ _ new h)) ∙ any_snoc (is_link u i) rows _

no_rows :
    (owners items : List ℤ) (owner : ℤ) (ids : List ℤ)
    → insert_links owners items owner ids none ≡ none
unfolding insert_links
no_rows owners items owner ids = refl

or_and : (a b c d : Bool) → ((a && c) || ((a && b) || d)) ≡ ((a && (b || c)) || d)
or_and true true true d = refl
or_and true true false d = refl
or_and true false true d = refl
or_and true false false d = refl
or_and false b c d = refl

no_ids : (a b : Bool) → b ≡ ((a && false) || b)
no_ids true b = refl
no_ids false b = refl

insert_links-any :
    (owners items : List ℤ) (owner u i : ℤ) (ids : List ℤ) (rows new : List Link)
    → insert_links owners items owner ids (some rows) ≡ some new
    → any (is_link u i) new ≡ ((eqb_ℤ owner u && any (is_id i) ids) || any (is_link u i) rows)
unfolding insert_links any
insert_links-any owners items owner u i [] rows new h =
    let same : rows ≡ new = cc in
    ap (any (is_link u i)) (sym same) ∙ no_ids (eqb_ℤ owner u) (any (is_link u i) rows)
insert_links-any owners items owner u i (d ∷ ids) rows new h =
    go (insert_link owners items owner d rows) refl h
      (λ mid. insert_links-any owners items owner u i ids mid new)
  where
    go :
        (o : Option (List Link))
        → insert_link owners items owner d rows ≡ o
        → insert_links owners items owner ids o ≡ some new
        → ((mid : List Link)
            → insert_links owners items owner ids (some mid) ≡ some new
            → any (is_link u i) new
              ≡ ((eqb_ℤ owner u && any (is_id i) ids) || any (is_link u i) mid))
        → any (is_link u i) new
          ≡ ((eqb_ℤ owner u && any (is_id i) (d ∷ ids)) || any (is_link u i) rows)
    go none e k rest = cc
    go (some mid) e k rest =
        rest mid k
        ∙ ap (λ b. (eqb_ℤ owner u && any (is_id i) ids) || b)
            (insert_link-any owners items owner d u i rows mid e)
        ∙ or_and (eqb_ℤ owner u) (eqb_ℤ d i) (any (is_id i) ids) (any (is_link u i) rows)

replaced : (a b c : Bool) → ((a && b) || (not a && c)) ≡ (if a then b else c)
replaced true true c = refl
replaced true false c = refl
replaced false b c = refl

-- The pair in a table where the rows of `owner` are replaced by those for `ids`.
abbrev pub IsReplaced : ℤ → List ℤ → ℤ → ℤ → List Link → List Link → Type 0
IsReplaced owner ids u i rows new =
    any (is_link u i) new ≡ (if eqb_ℤ owner u then any (is_id i) ids else any (is_link u i) rows)

insert_links-IsReplaced :
    (owners items : List ℤ) (owner u i : ℤ) (ids : List ℤ) (rows new : List Link)
    → insert_links owners items owner ids (some (clear owner rows)) ≡ some new
    → IsReplaced owner ids u i rows new
insert_links-IsReplaced owners items owner u i ids rows new h =
    insert_links-any owners items owner u i ids (clear owner rows) new h
    ∙ ap (λ b. (eqb_ℤ owner u && any (is_id i) ids) || b) (cleared owner u i rows)
    ∙ replaced (eqb_ℤ owner u) (any (is_id i) ids) (any (is_link u i) rows)

-- How an assignment can end: without `ok`, with the tables as they were and for a reason, or well.
abbrev pub Ended : Type 0 → (AssignDb → Type 0) → AssignDb → Ending → Type 0
Ended Excuse Goal db r = ((r.0 ≢ ok tt) × (r.1 ≡ db) × Excuse) ⊎ ((r.0 ≡ ok tt) × Goal r.1)

-- A statement did not work.
abbrev pub IsDown : (ℕ → Reply) → Type 0
IsDown net = (n : ℕ) × (net n ≢ works)

module _ (Goal : AssignDb → Type 0) (Refused : Type 0) (net : ℕ → Reply) {db : AssignDb} where
  statement-Ended :
      (n : ℕ) (o : Option (List Link)) (rest : List Link → Ending)
      → (o ≡ none → Refused)
      → ((rows : List Link) → o ≡ some rows → Ended (IsDown net ⊎ Refused) Goal db (rest rows))
      → Ended (IsDown net ⊎ Refused) Goal db (statement (net n) o db rest)
  statement-Ended n o rest lost kept = go (net n) o refl refl
    where
      go :
          (r : Reply) (p : Option (List Link))
          → net n ≡ r
          → o ≡ p
          → Ended (IsDown net ⊎ Refused) Goal db (statement r p db rest)
      go works none e h = inl (λ e. cc, refl, inr (lost h))
      go works (some rows) e h = kept rows h
      go fails p e h = inl (λ e. cc, refl, inl (n, λ w. cc))
      go hangs p e h = inl (λ e. cc, refl, inl (n, λ w. cc))

  commit-Ended :
      (n : ℕ) (save : List Link → AssignDb) (work : List Link)
      → Goal (save work)
      → Ended (IsDown net ⊎ Refused) Goal db (commit_links (net n) db save work)
  commit-Ended n save work g =
      statement-Ended n (some work) (λ rows. (ok tt, save rows)) (λ e. cc)
        (λ rows e. let same : work ≡ rows = cc in inr (refl, subst (λ w. Goal (save w)) same g))

  add_links-Ended :
      (owners items : List ℤ) (owner : ℤ) (ids : List ℤ) (save : List Link → AssignDb)
      (work : List Link)
      → (insert_links owners items owner ids (some work) ≡ none → Refused)
      → ((rows : List Link)
          → insert_links owners items owner ids (some work) ≡ some rows
          → Goal (save rows))
      → Ended (IsDown net ⊎ Refused) Goal db (add_links net owners items owner ids db save work)
  unfolding insert_links
  add_links-Ended owners items owner [] save work lost kept =
      commit-Ended 2 save work (kept work refl)
  add_links-Ended owners items owner (i ∷ ids) save work lost kept =
      statement-Ended 2 _ _ lost (λ rows e. commit-Ended 3 save rows (kept rows e))

-- Each of the commands, on the table that it is about.
assign-Ended :
    (net : ℕ → Reply) (db : AssignDb) (owners items : List ℤ) (owner u i : ℤ) (ids : List ℤ)
    (table : List Link) (save : List Link → AssignDb) (Goal : AssignDb → Type 0)
    → ((rows : List Link) → IsReplaced owner ids u i table rows → Goal (save rows))
    → Ended (IsDown net ⊎ (is_acceptable owners items owner ids ≡ false)) Goal db (
        statement (net 0) (some table) db (λ start.
          statement
            (net 1)
            (some (clear owner start))
            db
            (λ work. add_links net owners items owner ids db save work)))
assign-Ended net db owners items owner u i ids table save Goal good =
    statement-Ended Goal _ net 0 _ _ (λ e. cc)
      λ start begun.
        statement-Ended Goal _ net 1 _ _ (λ e. cc)
          λ work emptied.
            add_links-Ended Goal _ net owners items owner ids save work
              (λ h. cleared-is_acceptable owners items owner ids table cc)
              (λ rows h.
                good rows (insert_links-IsReplaced owners items owner u i ids table rows cc))

-- What a command claims of the tables before and after, for one pair of keys.
abbrev pub IsAssigned : AssignGroupsAndValuesCommand → ℤ → ℤ → AssignDb → AssignDb → Type 0
IsAssigned (AssignGroupsAndValuesCommand.groups c) u i db new =
    IsReplaced c.user_id c.group_ids u i db.user_group_access new.user_group_access
    × (new.subgroup_values ≡ db.subgroup_values)
IsAssigned (AssignGroupsAndValuesCommand.values c) u i db new =
    IsReplaced c.subgroup_id c.value_unit_ids u i db.subgroup_values new.subgroup_values
    × (new.user_group_access ≡ db.user_group_access)

abbrev pub are_acceptable : AssignGroupsAndValuesCommand → AssignDb → Bool
are_acceptable (AssignGroupsAndValuesCommand.groups c) db =
    is_acceptable db.users db.groups c.user_id c.group_ids
are_acceptable (AssignGroupsAndValuesCommand.values c) db =
    is_acceptable db.subgroups db.value_units c.subgroup_id c.value_unit_ids

-- An assignment either ends well: the pairs of its user or subgroup are then exactly those of the
-- command, every other pair of keys is in the table as before, and the other table is the same. Or it
-- does not: then the tables are the same, and a statement did not work or the command names a key
-- that is not there, or one key twice.
pub command_assign-Ended :
    (net : ℕ → Reply) (c : AssignGroupsAndValuesCommand) (db : AssignDb) (u i : ℤ)
    → Ended
        (IsDown net ⊎ (are_acceptable c db ≡ false))
        (IsAssigned c u i db)
        db
        (command_assign net c db)
unfolding command_assign assign_groups_to_user assign_values_to_subgroup
command_assign-Ended net (AssignGroupsAndValuesCommand.groups c) db u i =
    assign-Ended net db db.users db.groups c.user_id u i c.group_ids db.user_group_access
      (λ rows. record db { user_group_access = rows })
      (IsAssigned (AssignGroupsAndValuesCommand.groups c) u i db) (λ rows done. (done, refl))
command_assign-Ended net (AssignGroupsAndValuesCommand.values c) db u i =
    assign-Ended net db db.subgroups db.value_units c.subgroup_id u i c.value_unit_ids
      db.subgroup_values (λ rows. record db { subgroup_values = rows })
      (IsAssigned (AssignGroupsAndValuesCommand.values c) u i db) (λ rows done. (done, refl))
