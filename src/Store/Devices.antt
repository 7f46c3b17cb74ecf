-- ===== src/Store/Devices.antt =====
-- db/worker/device_worker.rs: the commands and the queries on `devices`.
use modbus_tcplogger.Common.{not, ◌&&◌, Option, none, some, List, [], ◌∷◌, keep}
use modbus_tcplogger.Common.Int.{ℤ, eqb_ℤ}
use modbus_tcplogger.ReadMaster.{ConfigEventType}
use modbus_tcplogger.Store.{Device, ValueUnit, Db, DeviceRead, db_failed, device_missing}
use modbus_tcplogger.Store.Sql.{
  Action, ◌>>=◌, ◌>>◌, pure, or_err, fetch, execute_in, begin, commit, first,
}
use modbus_tcplogger.Store.Nodes.{get_node_by_id, is_of_node, remove_values, remove_devices, tell}

abbrev read_with : Device → ℤ → DeviceRead
read_with d parent = record {
  id = d.id;
  device_name = d.device_name;
  address = d.address;
  parent_node_id = parent;
  time_for_recall = d.time_for_recall;
  timeout = d.timeout;
  retry_count = d.retry_count;
  is_active = d.is_active;
  read_by_group = d.read_by_group;
  description = d.description;
  deleted = some d.deleted;
  deleted_at = d.deleted_at;
}

abbrev pub read_parent : Device → Option ℤ → Option DeviceRead
read_parent d none = none
read_parent d (some parent) = some (read_with d parent)

-- A row as `DeviceRead`; a NULL parent does not fit an `i32`.
unfoldable pub read_row : Device → Option DeviceRead
read_row d = read_parent d d.parent_node_id

abbrev pub prepend : {A : Type 0} → Option A → Option (List A) → Option (List A)
prepend none rest = none
prepend (some a) none = none
prepend (some a) (some rest) = some (a ∷ rest)

-- `fetch_all`: one row that does not fit fails the query.
unfoldable pub read_rows : List Device → Option (List DeviceRead)
read_rows [] = some []
read_rows (d ∷ ds) = prepend (read_row d) (read_rows ds)

abbrev pub found_row : {A : Type 0} → Option A → Option (Option A)
found_row none = none
found_row (some r) = some (some r)

-- `fetch_optional`
abbrev pub read_optional : Option Device → Option (Option DeviceRead)
read_optional none = some none
read_optional (some d) = found_row (read_row d)

unfoldable pub find_device : ℤ → Db → Option Device
find_device id db = first (λ d. eqb_ℤ d.id id && not d.deleted) db.devices

unfoldable pub get_device_by_id : ℤ → Action (Option (Option DeviceRead))
get_device_by_id id = fetch (λ db. read_optional (find_device id db))

unfoldable pub get_device_by_node_id : ℤ → Action (Option (List DeviceRead))
get_device_by_node_id parent_id =
    fetch (λ db. read_rows (keep (λ d. is_of_node parent_id d && not d.deleted) db.devices))

unfoldable pub get_all_devices : Action (Option (List DeviceRead))
get_all_devices = fetch (λ db. read_rows (keep (λ d. not d.deleted) db.devices))

unfoldable pub get_deleted_devices : Action (Option (List DeviceRead))
get_deleted_devices = fetch (λ db. read_rows (keep (λ d. d.deleted) db.devices))

unfoldable pub get_value_by_device_id : ℤ → Action (Option (List ValueUnit))
get_value_by_device_id id = fetch (λ db. some (keep (λ v. eqb_ℤ v.parent_device_id id) db.values))

unfoldable pub remove_measures : ℤ → Db → Option Db
remove_measures id db =
    some (record db { measures = keep (λ m. not (eqb_ℤ m.value_id id)) db.measures })

unfoldable pub delete_value_with_transaction : ℤ → Action (Unit {0})
delete_value_with_transaction id = do
  measures_gone ← execute_in (remove_measures id)
  or_err measures_gone db_failed
  value_gone ← execute_in (remove_values (λ v. eqb_ℤ v.id id))
  or_err value_gone db_failed

-- The loop over the values of a device.
unfoldable pub delete_values : List ValueUnit → Action (Unit {0})
delete_values [] = pure tt
delete_values (v ∷ vs) = delete_value_with_transaction v.id >> delete_values vs

abbrev pub join : {A : Type 0} → Option (Option A) → Option A
join none = none
join (some o) = o

unfoldable pub delete_device : ℤ → Action (Unit {0})
delete_device id = do
  read ← get_device_by_id id
  deleted_device ← or_err (join read) device_missing
  listed ← get_value_by_device_id id
  devices_values ← or_err listed db_failed
  started ← begin
  or_err started db_failed
  delete_values devices_values
  device_gone ← execute_in (remove_devices (λ d. eqb_ℤ d.id id))
  or_err device_gone db_failed
  committed ← commit
  or_err committed db_failed
  node ← get_node_by_id deleted_device.parent_node_id
  tell ConfigEventType.update_node node
