-- ===== src/Assign.antt =====
-- db/worker/assign_worker.rs: the groups that a user may see and the values of a subgroup, each
-- replaced in one transaction; with the keys of `user_group_access` and `subgroup_values` from
-- db/db_init/init_database.rs. A statement that fails or hangs does nothing.
pub mod Taken
pub mod Exact
mod Tests
use modbus_tcplogger.Common.{
  ℕ, Bool, not, ◌&&◌, Option, none, some, List, [], ◌∷◌, ◌++◌, keep, if◌then◌else◌,
}
use modbus_tcplogger.Common.Int.{ℤ, eqb_ℤ}
use modbus_tcplogger.Store.{db_failed}
use modbus_tcplogger.Store.Sql.{Reply, works, fails, hangs, Answer, ok, err, timed_out, any}

-- A row of either table: `user_id` and `group_id`, or `subgroup_id` and `value_unit_id`.
pub record Link : Type 0 where
  pub owner : ℤ
  pub item : ℤ

-- The two tables, and the keys that theirs refer to.
pub record AssignDb : Type 0 where
  pub users : List ℤ
  pub groups : List ℤ
  pub subgroups : List ℤ
  pub value_units : List ℤ
  pub user_group_access : List Link
  pub subgroup_values : List Link

pub record AssignGroupsCommand : Type 0 where
  pub user_id : ℤ
  pub group_ids : List ℤ

pub record AssignValuesCommand : Type 0 where
  pub subgroup_id : ℤ
  pub value_unit_ids : List ℤ

pub data AssignGroupsAndValuesCommand : Type 0 where
  groups : AssignGroupsCommand → AssignGroupsAndValuesCommand
  values : AssignValuesCommand → AssignGroupsAndValuesCommand

abbrev pub is_id : ℤ → ℤ → Bool
is_id a b = eqb_ℤ b a

abbrev pub is_link : ℤ → ℤ → Link → Bool
is_link owner item r = eqb_ℤ r.owner owner && eqb_ℤ r.item item

-- DELETE by the first column.
unfoldable pub clear : ℤ → List Link → List Link
clear owner rows = keep (λ r. not (eqb_ℤ r.owner owner)) rows

-- One row of an INSERT: both foreign keys must be there, the pair must be new.
unfoldable pub insert_link : List ℤ → List ℤ → ℤ → ℤ → List Link → Option (List Link)
insert_link owners items owner item rows =
    if any (is_id owner) owners && any (is_id item) items && not (any (is_link owner item) rows)
    then some (rows ++ (record { owner = owner; item = item } ∷ []))
    else none

-- INSERT of all rows, or of none.
unfoldable pub insert_links : List ℤ → List ℤ → ℤ → List ℤ → Option (List Link) → Option (List Link)
insert_links owners items owner ids none = none
insert_links owners items owner [] (some rows) = some rows
insert_links owners items owner (i ∷ ids) (some rows) =
    insert_links owners items owner ids (insert_link owners items owner i rows)

abbrev pub Ending : Type 0
Ending = Answer (Unit {0}) × AssignDb

-- One statement and `?`; where the worker stops, the transaction is rolled back to `db`.
abbrev pub statement : Reply → Option (List Link) → AssignDb → (List Link → Ending) → Ending
statement works (some rows) db rest = rest rows
statement works none db rest = (err db_failed, db)
statement fails o db rest = (err db_failed, db)
statement hangs o db rest = (timed_out, db)

-- `tx.commit()` as the statement of that number; `save` writes the rows of the transaction.
abbrev pub commit_links : Reply → AssignDb → (List Link → AssignDb) → List Link → Ending
commit_links r db save work = statement r (some work) db (λ rows. (ok tt, save rows))

-- The bulk INSERT, when there is something to insert, and the commit.
abbrev pub add_links :
    (ℕ → Reply)
    → List ℤ
    → List ℤ
    → ℤ
    → List ℤ
    → AssignDb
    → (List Link → AssignDb)
    → List Link
    → Ending
add_links net owners items owner [] db save work = commit_links (net 2) db save work
add_links net owners items owner (i ∷ ids) db save work =
    statement (net 2) (insert_links owners items owner (i ∷ ids) (some work)) db
      (commit_links (net 3) db save)

-- Statement 0 is `pool.begin()`.
unfoldable pub assign_groups_to_user : (ℕ → Reply) → AssignGroupsCommand → AssignDb → Ending
assign_groups_to_user net c db = statement (net 0) (some db.user_group_access) db λ start.
    statement (net 1) (some (clear c.user_id start)) db λ work.
      add_links net db.users db.groups c.user_id c.group_ids db
        (λ rows. record db { user_group_access = rows }) work

unfoldable pub assign_values_to_subgroup : (ℕ → Reply) → AssignValuesCommand → AssignDb → Ending
assign_values_to_subgroup net c db = statement (net 0) (some db.subgroup_values) db λ start.
    statement (net 1) (some (clear c.subgroup_id start)) db λ work.
      add_links net db.subgroups db.value_units c.subgroup_id c.value_unit_ids db
        (λ rows. record db { subgroup_values = rows }) work

unfoldable pub command_assign : (ℕ → Reply) → AssignGroupsAndValuesCommand → AssignDb → Ending
command_assign net (AssignGroupsAndValuesCommand.groups c) db = assign_groups_to_user net c db
command_assign net (AssignGroupsAndValuesCommand.values c) db = assign_values_to_subgroup net c db
