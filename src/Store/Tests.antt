-- ===== src/Store/Tests.antt =====
-- A small database with one node, one device and two values, and the commands of db/worker on it.
use Prim.Native.String.{String}
use text.Mathlib.Text.{◌==◌ as str_eq}
use modbus_tcplogger.Common.{
  ◌≡◌, ◌≢◌, refl, ap, Bool, true, false, not, ◌&&◌, none, some, List, [], ◌∷◌, keep, length, ltb,
  arith,
}
use modbus_tcplogger.Common.Int.{ℤ, pos}
use modbus_tcplogger.Plugins.{Serde}
use modbus_tcplogger.Store.{
  Node, Device, ValueUnit, Db, NodeUpdate, DeviceCreate, DeviceUpdate, address_taken, db_failed,
}
use modbus_tcplogger.Store.Sql.{
  works, fails, Env, Store, ok, err, any, first, fetch, execute, execute_in, begin, commit, send,
  ◌>>=◌,
}
use modbus_tcplogger.Store.Nodes.{
  find_node, get_node_by_id, has_logging, soft_delete, remove_values, remove_devices,
  delete_values_of, delete_node_row, delete_node, update_node, check_new_ip, changed_node,
  update_node_row, is_of_node,
}
use modbus_tcplogger.Store.Devices.{read_row, read_rows, get_deleted_devices}
use modbus_tcplogger.Store.DeviceWrites.{
  find_address, check_new_parent, check_address, update_device,
}
use modbus_tcplogger.Store.Commands.{
  NodeCommand, DeviceCommand, CommandType, node_command, device_command, command_node, run_command,
  run_commands,
}
use modbus_tcplogger.Store.Atomic.{IsSame}
use modbus_tcplogger.Store.Effects.{Either}
use modbus_tcplogger.Store.Contract.{Effect, refused_changes_nothing, run_command-Either}
use modbus_tcplogger.Store.Housed.{AllHoused}
use modbus_tcplogger.Store.Kept.{live_devices_readable}
use modbus_tcplogger.Store.Orphans.{deleted_devices_unreadable}
use modbus_tcplogger.Store.History.{IsHistoryKept, history_kept}

abbrev no_json : Serde
no_json = record { coma_shift = λ s. none; bit_in_word = λ s. none; satec = λ s. none }

-- Every statement works.
abbrev good : Env
good = record {
  net = λ n. works;
  clock = λ n. 1000;
  is_ipv4 = λ ip. not (str_eq ip "");
  same_text = str_eq;
  serde = no_json;
}

abbrev node : Node
node = record { id = pos 1; ip = "10.0.0.1"; port = some (pos 502); description = some "boiler" }

abbrev device : Device
device = record {
  id = pos 7;
  parent_node_id = some (pos 1);
  device_name = some "meter";
  address = pos 3;
  time_for_recall = pos 5;
  timeout = pos 500;
  retry_count = pos 2;
  is_active = true;
  read_by_group = true;
  description = none;
  deleted = false;
  deleted_at = none;
}

abbrev value : ℤ → String → Bool → ValueUnit
value id tag logging = record {
  id = id;
  parent_device_id = pos 7;
  value_name = "";
  value_tag = tag;
  description = none;
  decoding_type = pos 1;
  settings = "";
  is_logging = logging;
}

abbrev db : Db
db = record {
  nodes = node ∷ [];
  devices = device ∷ [];
  values = value (pos 20) "t" true ∷ value (pos 21) "p" false ∷ [];
  measures = record { value_id = pos 20; measure_time = pos 900 } ∷ [];
  decoding_types = pos 1 ∷ pos 2 ∷ pos 3 ∷ [];
  next_node = 2;
  next_device = 8;
  next_value = 22;
}

abbrev start : Store
start = record { db = db; work = db; ops = 0; sent = [] }

abbrev delete_first : CommandType
delete_first = node_command (NodeCommand.delete (pos 1))

abbrev after : Store
after = (delete_node (pos 1) good start).1

-- The deletion works: the node goes, the logged device stays as deleted and without a node.
deletion :
    ((delete_node (pos 1) good start).0 ≡ ok tt)
    × (after.db.nodes ≡ [])
    × (length after.db.devices ≡ 1)
    × (length after.sent ≡ 1)
unfolding delete_node ◌>>=◌ begin execute_in soft_delete has_logging any delete_values_of
    remove_values remove_devices get_node_by_id fetch find_node first delete_node_row commit send
deletion = (refl, refl, refl, refl)

changed_db : after.db ≢ db
unfolding delete_node ◌>>=◌ begin execute_in soft_delete has_logging any delete_values_of
    remove_values remove_devices get_node_by_id fetch find_node first delete_node_row commit send
changed_db e = omega (arith, ap (λ d. length d.nodes) e)

has_logged : any (λ d. is_of_node (pos 1) d && has_logging db.values d) db.devices ≡ true
unfolding any has_logging
has_logged = refl

deleted_devices_unreadable_example : read_rows (keep (λ d. d.deleted) after.db.devices) ≡ none
deleted_devices_unreadable_example =
    deleted_devices_unreadable (pos 1) good start has_logged changed_db

-- `GetDeleted` then answers with an error, though every statement works.
get_deleted_fails : (get_deleted_devices good after).0 ≡ ok none
unfolding get_deleted_devices fetch read_rows read_row delete_node ◌>>=◌ begin execute_in
    soft_delete has_logging any delete_values_of remove_values remove_devices get_node_by_id
    find_node first delete_node_row commit send
get_deleted_fails = refl

history_kept_example : IsHistoryKept db after.db
history_kept_example = history_kept (pos 1) good start

-- The connection is lost at the fourth statement of the transaction.
abbrev lossy : Env
lossy = record good { net = λ n. elim (ltb n 3) [ true ↦ works | false ↦ fails ] }

lost : (run_command delete_first lossy start).0 ≡ err db_failed
unfolding run_command command_node delete_node ◌>>=◌ begin execute_in soft_delete has_logging any
    delete_values_of remove_values remove_devices get_node_by_id fetch find_node first
    delete_node_row commit send
lost = refl

refused_changes_nothing_example : IsSame start (run_command delete_first lossy start).1
refused_changes_nothing_example = refused_changes_nothing delete_first lossy start db_failed lost

run_command-Either_example :
    Either (Effect good delete_first) db (run_command delete_first good start).1.db
run_command-Either_example = run_command-Either delete_first good start

-- A second device on the same node.
abbrev second : DeviceCreate
second = record {
  device_name = "pump";
  address = pos 4;
  parent_node_id = pos 1;
  time_for_recall = pos 5;
  timeout = pos 500;
  retry_count = pos 1;
  is_active = true;
  read_by_group = false;
  description = none;
}

abbrev commands : List CommandType
commands = device_command (DeviceCommand.create second) ∷ delete_first ∷ []

db-AllHoused : AllHoused db
unfolding any
db-AllHoused = (refl, tt)

live_devices_readable_example :
    AllHoused (run_commands good commands start).db
    × (read_rows (keep (λ d. true && not d.deleted) (run_commands good commands start).db.devices)
        ≢ none)
live_devices_readable_example = live_devices_readable good commands start (λ d. true) db-AllHoused

-- A node keeps its description only if the update repeats it.
abbrev new_port : NodeUpdate
new_port = record { id = pos 1; ip = none; port = some (pos 503); description = none }

description_erased :
    (update_node new_port good start).1.db.nodes
    ≡ record node { port = some (pos 503); description = some "" } ∷ []
unfolding update_node ◌>>=◌ get_node_by_id fetch find_node first check_new_ip execute
    update_node_row changed_node send
description_erased = refl

-- The same address on another node is refused, if the update names the address only.
abbrev other_node : Db
other_node = record db {
  nodes = node ∷ record node { id = pos 2; ip = "10.0.0.2" } ∷ [];
  devices =
      device ∷ record device { id = pos 8; parent_node_id = some (pos 2); address = pos 9 } ∷ [];
}

abbrev new_address : DeviceUpdate
new_address = record {
  id = pos 8;
  device_name = none;
  address = some (pos 3);
  parent_node_id = none;
  time_for_recall = none;
  timeout = none;
  retry_count = none;
  is_active = none;
  read_by_group = none;
  description = none;
}

free_address_refused :
    (update_device new_address good (record start { db = other_node })).0 ≡ err address_taken
unfolding update_device ◌>>=◌ check_new_parent check_address fetch find_address first read_row
free_address_refused = refl

-- A measure of a value that is logged no more keeps its node from being deleted.
abbrev once_logged : Db
once_logged = record db { values = value (pos 20) "t" false ∷ [] }

deletion_blocked : (delete_node (pos 1) good (record start { db = once_logged })).0 ≡ err db_failed
unfolding delete_node ◌>>=◌ begin execute_in soft_delete has_logging any delete_values_of
    remove_values
deletion_blocked = refl
