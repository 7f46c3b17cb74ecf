-- ===== src/Assign/Tests.antt =====
-- A user whose groups are replaced, and commands that are refused.
use modbus_tcplogger.Common.{ℕ, ◌≡◌, ◌⊎◌, refl, false, List, [], ◌∷◌}
use modbus_tcplogger.Common.Int.{ℤ, pos}
use modbus_tcplogger.Store.{db_failed}
use modbus_tcplogger.Store.Sql.{Reply, works, ok, err, any}
use modbus_tcplogger.Assign.{
  Link, AssignDb, AssignGroupsAndValuesCommand, clear, insert_link, insert_links,
  assign_groups_to_user, assign_values_to_subgroup, command_assign,
}
use modbus_tcplogger.Assign.Exact.{Ended, IsDown, IsAssigned, are_acceptable, command_assign-Ended}

abbrev link : ℕ → ℕ → Link
link u i = record { owner = pos u; item = pos i }

abbrev plant : AssignDb
plant = record {
  users = pos 1 ∷ pos 2 ∷ [];
  groups = pos 10 ∷ pos 11 ∷ pos 12 ∷ [];
  subgroups = pos 7 ∷ [];
  value_units = pos 30 ∷ [];
  user_group_access = link 1 10 ∷ link 2 10 ∷ link 1 11 ∷ [];
  subgroup_values = link 7 30 ∷ [];
}

abbrev up : ℕ → Reply
up n = works

abbrev replace : List ℕ → AssignGroupsAndValuesCommand
replace ids =
    AssignGroupsAndValuesCommand.groups (record { user_id = pos 1; group_ids = numbers ids })
  where
    numbers : List ℕ → List ℤ
    numbers [] = []
    numbers (i ∷ is) = pos i ∷ numbers is

replaced_run :
    command_assign up (replace (11 ∷ 12 ∷ [])) plant
    ≡ (ok tt, record plant { user_group_access = link 2 10 ∷ link 1 11 ∷ link 1 12 ∷ [] })
unfolding command_assign assign_groups_to_user clear insert_link insert_links any
replaced_run = refl

-- An empty list takes every group away.
emptied_run :
    command_assign up (replace []) plant
    ≡ (ok tt, record plant { user_group_access = link 2 10 ∷ [] })
unfolding command_assign assign_groups_to_user clear
emptied_run = refl

-- A group that is named twice violates the key, one that is not there the reference.
twice_run : command_assign up (replace (11 ∷ 11 ∷ [])) plant ≡ (err db_failed, plant)
unfolding command_assign assign_groups_to_user clear insert_link insert_links any
twice_run = refl

unknown_run : command_assign up (replace (11 ∷ 99 ∷ [])) plant ≡ (err db_failed, plant)
unfolding command_assign assign_groups_to_user clear insert_link insert_links any
unknown_run = refl

values_run :
    command_assign up
      (AssignGroupsAndValuesCommand.values
        (record { subgroup_id = pos 7; value_unit_ids = pos 30 ∷ [] }))
      plant
    ≡ (ok tt, plant)
unfolding command_assign assign_values_to_subgroup clear insert_link insert_links any
values_run = refl

command_assign-Ended_example :
    Ended
      (IsDown up ⊎ (are_acceptable (replace (11 ∷ 12 ∷ [])) plant ≡ false))
      (IsAssigned (replace (11 ∷ 12 ∷ [])) (pos 1) (pos 12) plant)
      plant
      (command_assign up (replace (11 ∷ 12 ∷ [])) plant)
command_assign-Ended_example =
    command_assign-Ended up (replace (11 ∷ 12 ∷ [])) plant (pos 1) (pos 12)
