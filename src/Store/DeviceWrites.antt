-- ===== src/Store/DeviceWrites.antt =====
-- db/worker/device_worker.rs: a device is created and updated.
use modbus_tcplogger.Common.{
  ℕ, suc, Bool, true, false, not, ◌&&◌, ◌||◌, Option, none, some, List, [], ◌∷◌, ◌++◌, map,
  if◌then◌else◌,
}
use modbus_tcplogger.Common.Int.{ℤ, pos, eqb_ℤ, ltb_ℤ, leb_ℤ}
use modbus_tcplogger.ReadMaster.{ConfigEventType}
use modbus_tcplogger.Store.{
  Node, Device, Db, DeviceRead, DeviceCreate, DeviceUpdate, db_failed, bad_address, bad_recall,
  bad_retry, bad_timeout, bad_parent, address_taken, device_missing, node_missing,
}
use modbus_tcplogger.Store.Sql.{
  Action, ◌>>=◌, ◌>>◌, pure, refuse, or_err, fetch, guard_not, execute, send, first, any, coalesce,
  coalesce_null,
}
use modbus_tcplogger.Store.Nodes.{get_node_by_id, tell}
use modbus_tcplogger.Store.Devices.{read_optional, get_device_by_id, join}

-- column = COALESCE(?, column): a row with NULL in the column is not selected without a value.
abbrev pub matches : Option ℤ → Option ℤ → Bool
matches none none = false
matches (some a) none = false
matches none (some c) = true
matches (some a) (some c) = eqb_ℤ c a

-- The query for a device with the address on the node.
unfoldable pub find_address : Option ℤ → Option ℤ → Db → Option Device
find_address address parent db =
    first
      (λ d. matches address (some d.address) && matches parent d.parent_node_id && not d.deleted)
      db.devices

abbrev pub refuse_device : Option DeviceRead → Action (Unit {0})
refuse_device none = pure tt
refuse_device (some d) = refuse address_taken

abbrev pub new_row : ℕ → DeviceCreate → Device
new_row id c = record {
  id = pos id;
  parent_node_id = some c.parent_node_id;
  device_name = some c.device_name;
  address = c.address;
  time_for_recall = c.time_for_recall;
  timeout = c.timeout;
  retry_count = c.retry_count;
  is_active = c.is_active;
  read_by_group = c.read_by_group;
  description = some (coalesce c.description "");
  deleted = false;
  deleted_at = none;
}

-- INSERT INTO devices, refused where the foreign key finds no node.
unfoldable pub insert_device : DeviceCreate → Db → Option Db
insert_device c db =
    if any (λ n. eqb_ℤ n.id c.parent_node_id) db.nodes
    then some (record db {
      devices = db.devices ++ (new_row db.next_device c ∷ []);
      next_device = suc db.next_device;
    })
    else none

unfoldable pub create_device : DeviceCreate → Action (Unit {0})
create_device c = do
  guard_not (ltb_ℤ c.address (pos 0) || ltb_ℤ (pos 255) c.address) bad_address
  guard_not (leb_ℤ c.time_for_recall (pos 0)) bad_recall
  guard_not (leb_ℤ c.retry_count (pos 0)) bad_retry
  guard_not (leb_ℤ c.timeout (pos 0)) bad_timeout
  guard_not (leb_ℤ c.parent_node_id (pos 0)) bad_parent
  read ← get_node_by_id c.parent_node_id
  node_read ← or_err read db_failed
  or_err node_read node_missing
  found ← fetch (λ db. read_optional (find_address (some c.address) (some c.parent_node_id) db))
  device_read ← or_err found db_failed
  refuse_device device_read
  inserted ← execute (insert_device c)
  or_err inserted db_failed
  node ← get_node_by_id c.parent_node_id
  tell ConfigEventType.update_node node

-- A test on a field that may be left out.
abbrev pub holds : Option ℤ → (ℤ → Bool) → Bool
holds none p = false
holds (some z) p = p z

-- The checks of a new parent.
unfoldable pub check_new_parent : Option ℤ → Action (Unit {0})
check_new_parent none = pure tt
check_new_parent (some p_node_id) = do
  guard_not (leb_ℤ p_node_id (pos 0)) bad_parent
  read ← get_node_by_id p_node_id
  node ← or_err read db_failed
  found ← or_err node node_missing
  pure tt

abbrev pub refuse_other_device : ℤ → Option DeviceRead → Action (Unit {0})
refuse_other_device id none = pure tt
refuse_other_device id (some d) = guard_not (not (eqb_ℤ d.id id)) address_taken

abbrev pub is_some : {A : Type 0} → Option A → Bool
is_some none = false
is_some (some a) = true

abbrev pub ask_address : Bool → DeviceUpdate → Action (Unit {0})
ask_address false c = pure tt
ask_address true c = do
  found ← fetch (λ db. read_optional (find_address c.address c.parent_node_id db))
  device_read ← or_err found db_failed
  refuse_other_device c.id device_read

-- The query for a taken address, if the address or the parent is given.
unfoldable pub check_address : DeviceUpdate → Action (Unit {0})
check_address c = ask_address (is_some c.address || is_some c.parent_node_id) c

unfoldable pub changed_device : DeviceUpdate → Device → Device
changed_device c d = record d {
  device_name = coalesce_null c.device_name d.device_name;
  address = coalesce c.address d.address;
  parent_node_id = coalesce_null c.parent_node_id d.parent_node_id;
  time_for_recall = coalesce c.time_for_recall d.time_for_recall;
  timeout = coalesce c.timeout d.timeout;
  retry_count = coalesce c.retry_count d.retry_count;
  is_active = coalesce c.is_active d.is_active;
  read_by_group = coalesce c.read_by_group d.read_by_group;
  description = coalesce_null c.description d.description;
}

abbrev pub has_node : Option ℤ → List Node → Bool
has_node none nodes = true
has_node (some p) nodes = any (λ n. eqb_ℤ n.id p) nodes

-- UPDATE devices SET …, refused where the foreign key finds no node.
unfoldable pub update_device_row : DeviceUpdate → Db → Option Db
update_device_row c db =
    if has_node c.parent_node_id db.nodes
    then some (record db {
      devices = map (λ d. if eqb_ℤ d.id c.id then changed_device c d else d) db.devices;
    })
    else none

-- The event for the node of the changed device; the result is `new_node`.
abbrev pub tell_node : Option Node → Action ℤ
tell_node none = pure (pos 0)
tell_node (some node) =
    send (record { event_type = ConfigEventType.update_node; node = node }) >> pure node.id

unfoldable pub tell_new_node : Option DeviceRead → Action ℤ
tell_new_node none = pure (pos 0)
tell_new_node (some d) = do node ← get_node_by_id d.parent_node_id; tell_node (join node)

-- The event for the node that the device has left.
unfoldable pub tell_old_node : Bool → ℤ → Action (Unit {0})
tell_old_node true old = pure tt
tell_old_node false old = do node ← get_node_by_id old; tell ConfigEventType.update_node node

unfoldable pub update_device : DeviceUpdate → Action (Unit {0})
update_device c = do
  guard_not (holds c.address (λ a. not (leb_ℤ (pos 0) a && leb_ℤ a (pos 255)))) bad_address
  guard_not (holds c.time_for_recall (λ r. ltb_ℤ r (pos 0))) bad_recall
  guard_not (holds c.timeout (λ t. ltb_ℤ t (pos 0))) bad_timeout
  guard_not (holds c.retry_count (λ r. ltb_ℤ r (pos 0))) bad_retry
  check_new_parent c.parent_node_id
  check_address c
  read ← get_device_by_id c.id
  old_device ← or_err (join read) device_missing
  written ← execute (update_device_row c)
  or_err written db_failed
  device_update ← get_device_by_id c.id
  new_node ← tell_new_node (join device_update)
  tell_old_node (eqb_ℤ new_node old_device.parent_node_id) old_device.parent_node_id
