-- ===== src/Store/Kept.antt =====
-- The commands of db/worker keep every live device housed, so the queries for live devices do not fail
-- on a row.
use mathlib.Core.Path.{subst}
use modbus_tcplogger.Common.{
  ◌≡◌, ◌≢◌, inl, inr, refl, sym, Bool, true, false, not, ◌&&◌, ◌||◌, Option, none, some, List, [],
  ◌∷◌, keep, All, arith, Bool-cases,
}
use modbus_tcplogger.Common.Int.{ℤ, eqb_ℤ}
use modbus_tcplogger.Store.{Db, Device, ValueUnit, Node}
use modbus_tcplogger.Store.Sql.{Env, Store}
use modbus_tcplogger.Store.Nodes.{
  soft_delete, delete_values_of, remove_values, remove_devices, is_live_of, delete_node_row,
}
use modbus_tcplogger.Store.Devices.{remove_measures, read_row, read_rows, read_parent, prepend}
use modbus_tcplogger.Store.Commands.{
  NodeCommand, DeviceCommand, ValueCommand, CommandType, node_command, device_command,
  value_command, run_command, run_commands,
}
use modbus_tcplogger.Store.Triple.{and_also}
use modbus_tcplogger.Store.Whole.{value_deleted, values_deleted, device_deleted}
use modbus_tcplogger.Store.Contract.{Effect, run_command-Either}
use modbus_tcplogger.Store.Housed.{
  IsHoused, parent_in, AllHoused, Sound, and_also-Sound, insert_node-Sound, update_node_row-Sound,
  insert_device-Sound, update_device_row-Sound, soft_delete-Sound, remove_values-Sound,
  remove_devices-Sound, remove_measures-Sound, insert_value-Sound, update_value_row-Sound,
}
use modbus_tcplogger.Store.HousedDeletes.{delete_rows-Sound}

and_both-Sound :
    (o : Option Db) (f g : Db → Option Db)
    → Sound o
    → ((db : Db) → AllHoused db → Sound (and_also (f db) g))
    → Sound (and_also (and_also o f) g)
and_both-Sound none f g h k = tt
and_both-Sound (some db) f g h k = k db h

delete_values_of-Sound : (id : ℤ) (db : Db) → AllHoused db → Sound (delete_values_of id db)
unfolding delete_values_of
delete_values_of-Sound id db h = remove_values-Sound _ db h

value_deleted-Sound : (id : ℤ) (o : Option Db) → Sound o → Sound (value_deleted id o)
value_deleted-Sound id o h =
    and_also-Sound (and_also o (remove_measures id)) (remove_values (λ v. eqb_ℤ v.id id))
      (and_also-Sound o (remove_measures id) h (remove_measures-Sound id))
      (remove_values-Sound (λ v. eqb_ℤ v.id id))

values_deleted-Sound : (vs : List ValueUnit) (o : Option Db) → Sound o → Sound (values_deleted vs o)
values_deleted-Sound [] o h = h
values_deleted-Sound (v ∷ vs) o h =
    values_deleted-Sound vs (value_deleted v.id o) (value_deleted-Sound v.id o h)

device_deleted-Sound : (id : ℤ) (db : Db) → AllHoused db → Sound (device_deleted id db)
unfolding device_deleted
device_deleted-Sound id db h =
    and_also-Sound (values_deleted (keep (λ v. eqb_ℤ v.parent_device_id id) db.values) (some db))
      (remove_devices (λ d. eqb_ℤ d.id id))
      (values_deleted-Sound (keep (λ v. eqb_ℤ v.parent_device_id id) db.values) (some db) h)
      (remove_devices-Sound (λ d. eqb_ℤ d.id id))

Effect-Sound :
    (env : Env) (c : CommandType) (db : Db) (o : Option Db)
    → AllHoused db
    → Effect env c db o
    → Sound o
Effect-Sound env (node_command (NodeCommand.create c)) db o h (v, free, e) =
    subst Sound e (insert_node-Sound c db h)
Effect-Sound env (node_command (NodeCommand.update c)) db o h (there, free, e) =
    subst Sound e (update_node_row-Sound c db h)
Effect-Sound env (node_command (NodeCommand.delete id)) db o h (ts, e) = subst Sound e (
    and_both-Sound (and_also (soft_delete ts id db) (delete_values_of id))
      (remove_devices (is_live_of id)) (delete_node_row id)
      (and_also-Sound (soft_delete ts id db) (delete_values_of id) (soft_delete-Sound ts id db h)
        (delete_values_of-Sound id))
      (delete_rows-Sound id))
Effect-Sound env (device_command (DeviceCommand.create c)) db o h (range, there, free, e) =
    subst Sound e (insert_device-Sound c db h)
Effect-Sound env (device_command (DeviceCommand.update c)) db o h (range, there, free, old, e) =
    subst Sound e (update_device_row-Sound c db h)
Effect-Sound env (device_command (DeviceCommand.delete id)) db o h (there, e) =
    subst Sound e (device_deleted-Sound id db h)
Effect-Sound env (value_command (ValueCommand.create c)) db o h (valid, there, e) =
    subst Sound e (insert_value-Sound env.same_text c db h)
Effect-Sound env (value_command (ValueCommand.update c)) db o h (valid, there, e) =
    subst Sound e (update_value_row-Sound env.same_text c db h)
Effect-Sound env (value_command (ValueCommand.delete id)) db o h (there, e) =
    subst Sound e (value_deleted-Sound id (some db) h)

run_command-AllHoused :
    (c : CommandType) (env : Env) (s : Store)
    → AllHoused s.db
    → AllHoused (run_command c env s).1.db
run_command-AllHoused c env s h = elim (run_command-Either c env s) [
  | inl same ↦ subst AllHoused (sym same) h
  | inr done ↦ Effect-Sound env c s.db (some (run_command c env s).1.db) h done
]

run_commands-AllHoused :
    (env : Env) (cs : List CommandType) (s : Store)
    → AllHoused s.db
    → AllHoused (run_commands env cs s).db
unfolding run_commands
run_commands-AllHoused env [] s h = h
run_commands-AllHoused env (c ∷ cs) s h =
    run_commands-AllHoused env cs (run_command c env s).1 (run_command-AllHoused c env s h)

readable :
    (d : Device) (nodes : List Node) → IsHoused nodes d → not d.deleted ≡ true → read_row d ≢ none
unfolding read_row
readable d nodes h live = go d.parent_node_id d.deleted h live
  where
    go :
        (p : Option ℤ) (b : Bool)
        → (b || parent_in nodes p) ≡ true
        → not b ≡ true
        → read_parent d p ≢ none
    go none true h live e = cc
    go none false h live e = cc
    go (some p) b h live e = cc

prepend-none :
    {A : Type 0} (x : Option A) (rest : Option (List A))
    → x ≢ none
    → rest ≢ none
    → prepend x rest ≢ none
prepend-none none rest h k e = h refl
prepend-none (some a) none h k e = k refl
prepend-none (some a) (some xs) h k e = cc

read_live :
    (nodes : List Node) (p : Device → Bool) (ds : List Device)
    → ((d : Device) → p d ≡ true → not d.deleted ≡ true)
    → All (IsHoused nodes) ds
    → read_rows (keep p ds) ≢ none
unfolding read_rows
read_live nodes p [] live h = λ e. cc
read_live nodes p (d ∷ ds) live h = elim (Bool-cases (p d)) [
  | inl e ↦ rw e (
      prepend-none (read_row d) (read_rows (keep p ds)) (readable d nodes h.0 (live d e))
        (read_live nodes p ds live h.1))
  | inr e ↦ rw e (read_live nodes p ds live h.1)
]

-- After any commands, in any order and however each of them ends, from tables in which every live
-- device has a node, every live device still has one, and a query for live devices, by any further
-- test, finds no row that it cannot read.
pub live_devices_readable :
    (env : Env) (cs : List CommandType) (s : Store) (p : Device → Bool)
    → AllHoused s.db
    → AllHoused (run_commands env cs s).db
      × (read_rows (keep (λ d. p d && not d.deleted) (run_commands env cs s).db.devices) ≢ none)
live_devices_readable env cs s p h =
    let kept = run_commands-AllHoused env cs s h in
    let db = (run_commands env cs s).db in
    (kept, read_live db.nodes (λ d. p d && not d.deleted) db.devices (λ d e. ground arith) kept)
