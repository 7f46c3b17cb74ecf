-- ===== src/Store/Nodes.antt =====
-- db/worker/node_worker.rs: the commands and the queries on `nodes`. The SQL texts are the functions
-- on `Db`, with the foreign keys of the schema.
use Prim.Native.String.{String}
use modbus_tcplogger.Common.{
  ℕ, suc, Bool, true, false, not, ◌&&◌, Option, none, some, List, [], ◌∷◌, ◌++◌, map, keep,
  if◌then◌else◌,
}
use modbus_tcplogger.Common.Int.{ℤ, pos, eqb_ℤ}
use modbus_tcplogger.ReadMaster.{ConfigEventType}
use modbus_tcplogger.Store.{
  Node, Device, ValueUnit, Db, NodeCreate, NodeUpdate, db_failed, bad_ip, ip_taken, node_missing,
}
use modbus_tcplogger.Store.Sql.{
  Action, ◌>>=◌, ◌>>◌, pure, refuse, or_err, unwrap, fetch, asks, now, guard_not, execute,
  execute_in, begin, commit, send, first, any, coalesce, coalesce_null,
}

unfoldable pub get_all_node : Action (Option (List Node))
get_all_node = fetch (λ db. some db.nodes)

unfoldable pub find_node : ℤ → Db → Option Node
find_node id db = first (λ n. eqb_ℤ n.id id) db.nodes

unfoldable pub get_node_by_id : ℤ → Action (Option (Option Node))
get_node_by_id id = fetch (λ db. some (find_node id db))

unfoldable pub find_ip : (String → String → Bool) → String → Db → Option Node
find_ip same_text ip db = first (λ n. same_text n.ip ip) db.nodes

unfoldable pub get_by_ip : String → Action (Option (Option Node))
get_by_ip ip env = fetch (λ db. some (find_ip env.same_text ip db)) env

abbrev pub is_parent : ℤ → Option ℤ → Bool
is_parent id none = false
is_parent id (some p) = eqb_ℤ p id

abbrev pub is_of_node : ℤ → Device → Bool
is_of_node id d = is_parent id d.parent_node_id

-- Whether some value of the device is logged.
unfoldable pub has_logging : List ValueUnit → Device → Bool
has_logging values d = any (λ v. eqb_ℤ v.parent_device_id d.id && v.is_logging) values

abbrev pub mark_deleted : ℕ → Device → Device
mark_deleted ts d = record d { deleted = true; deleted_at = some (pos ts) }

-- UPDATE devices d SET d.deleted = 1, d.deleted_at = ? WHERE d.parent_node_id = ? AND EXISTS (…)
unfoldable pub soft_delete : ℕ → ℤ → Db → Option Db
soft_delete ts id db = some (record db {
  devices =
      map (λ d. if is_of_node id d && has_logging db.values d then mark_deleted ts d else d)
        db.devices;
})

-- A DELETE FROM value_units, refused while a measure refers to a row that it would remove.
unfoldable pub remove_values : (ValueUnit → Bool) → Db → Option Db
remove_values p db =
    if any (λ m. any (λ v. p v && eqb_ℤ v.id m.value_id) db.values) db.measures
    then none
    else some (record db { values = keep (λ v. not (p v)) db.values })

-- A DELETE FROM devices, refused while a value refers to a row that it would remove.
unfoldable pub remove_devices : (Device → Bool) → Db → Option Db
remove_devices p db =
    if any (λ v. any (λ d. p d && eqb_ℤ d.id v.parent_device_id) db.devices) db.values
    then none
    else some (record db { devices = keep (λ d. not (p d)) db.devices })

abbrev pub is_live_of : ℤ → Device → Bool
is_live_of id d = is_of_node id d && not d.deleted

unfoldable pub delete_values_of : ℤ → Db → Option Db
delete_values_of id db =
    remove_values (λ v. any (λ d. eqb_ℤ d.id v.parent_device_id && is_live_of id d) db.devices) db

-- ON DELETE SET NULL
abbrev pub orphan : ℤ → Device → Device
orphan id d = if is_of_node id d then record d { parent_node_id = none } else d

unfoldable pub delete_node_row : ℤ → Db → Option Db
delete_node_row id db = some (record db {
  nodes = keep (λ n. not (eqb_ℤ n.id id)) db.nodes;
  devices = map (orphan id) db.devices;
})

unfoldable pub delete_node : ℤ → Action (Unit {0})
delete_node id = do
  started ← begin
  or_err started db_failed
  ts ← now
  marked ← execute_in (soft_delete ts id)
  or_err marked db_failed
  values_gone ← execute_in (delete_values_of id)
  or_err values_gone db_failed
  devices_gone ← execute_in (remove_devices (is_live_of id))
  or_err devices_gone db_failed
  read ← get_node_by_id id
  found ← or_err read db_failed
  node_gone ← execute_in (delete_node_row id)
  or_err node_gone db_failed
  committed ← commit
  or_err committed db_failed
  node ← unwrap found
  send (record { event_type = ConfigEventType.delete_node; node = node })

unfoldable pub insert_node : NodeCreate → Db → Option Db
insert_node c db = some (record db {
  nodes =
      db.nodes
      ++ (record {
        id = pos db.next_node;
        ip = c.ip;
        port = some (coalesce c.port (pos 502));
        description = some (coalesce c.description "");
      }
          ∷ []);
  next_node = suc db.next_node;
})

-- `if let Ok(Some(node))`: the event, or only a line in the log.
abbrev pub tell : ConfigEventType → Option (Option Node) → Action (Unit {0})
tell t none = pure tt
tell t (some none) = pure tt
tell t (some (some node)) = send (record { event_type = t; node = node })

abbrev pub refuse_known : Option Node → Action (Unit {0})
refuse_known (some node) = refuse ip_taken
refuse_known none = pure tt

unfoldable pub create_node : NodeCreate → Action (Unit {0})
create_node c = do
  valid ← asks (λ env. env.is_ipv4 c.ip)
  guard_not (not valid) bad_ip
  read ← get_by_ip c.ip
  known ← or_err read db_failed
  refuse_known known
  inserted ← execute (insert_node c)
  or_err inserted db_failed
  created ← get_by_ip c.ip
  tell ConfigEventType.create_node created

abbrev pub refuse_other : ℤ → Option Node → Action (Unit {0})
refuse_other id none = pure tt
refuse_other id (some node) = guard_not (not (eqb_ℤ node.id id)) ip_taken

-- The checks of a new address.
unfoldable pub check_new_ip : ℤ → Option String → Action (Unit {0})
check_new_ip id none = pure tt
check_new_ip id (some ip) = do
  valid ← asks (λ env. env.is_ipv4 ip)
  guard_not (not valid) bad_ip
  read ← get_by_ip ip
  known ← or_err read db_failed
  refuse_other id known

-- UPDATE nodes SET ip = COALESCE(?, ip), …; a description that is left out is bound as "".
unfoldable pub changed_node : NodeUpdate → Node → Node
changed_node c n = record n {
  ip = coalesce c.ip n.ip;
  port = coalesce_null c.port n.port;
  description = coalesce_null (some (coalesce c.description "")) n.description;
}

unfoldable pub update_node_row : NodeUpdate → Db → Option Db
update_node_row c db =
    some (record db { nodes = map (λ n. if eqb_ℤ n.id c.id then changed_node c n else n) db.nodes })

unfoldable pub update_node : NodeUpdate → Action (Unit {0})
update_node c = do
  read ← get_node_by_id c.id
  old ← or_err read db_failed
  or_err old node_missing
  check_new_ip c.id c.ip
  written ← execute (update_node_row c)
  or_err written db_failed
  new ← get_node_by_id c.id
  tell ConfigEventType.update_node new
