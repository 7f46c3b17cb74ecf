-- ===== src/Store/Values.antt =====
-- db/worker/value_worker.rs: the commands and the queries on `value_units`.
use Prim.Native.String.{String}
use modbus_tcplogger.Common.{
  ℕ, suc, Bool, true, false, not, ◌&&◌, Option, none, some, List, [], ◌∷◌, ◌++◌, map, keep,
  if◌then◌else◌,
}
use modbus_tcplogger.Common.Int.{ℤ, pos, eqb_ℤ}
use modbus_tcplogger.ReadMaster.{ConfigEventType}
use modbus_tcplogger.Plugins.Decode.{check_json}
use modbus_tcplogger.Store.{
  Node, ValueUnit, Db, ValueCreate, ValueUpdate, db_failed, device_missing, bad_settings,
  value_missing,
}
use modbus_tcplogger.Store.Sql.{
  Action, ◌>>=◌, ◌>>◌, pure, or_err, fetch, asks, guard_not, execute, begin, commit, send, first,
  any, coalesce, coalesce_null,
}
use modbus_tcplogger.Store.Nodes.{is_of_node}
use modbus_tcplogger.Store.Devices.{find_device, delete_value_with_transaction, join}

unfoldable pub get_value_by_id : ℤ → Action (Option (Option ValueUnit))
get_value_by_id id = fetch (λ db. some (first (λ v. eqb_ℤ v.id id) db.values))

unfoldable pub get_all_values : Action (Option (List ValueUnit))
get_all_values = fetch (λ db. some db.values)

unfoldable pub get_logging_only : Action (Option (List ValueUnit))
get_logging_only = fetch (λ db. some (keep (λ v. v.is_logging) db.values))

-- The node that a device belongs to, also of a deleted one.
unfoldable pub node_of_device : ℤ → Db → Option Node
node_of_device device_id db =
    first (λ n. any (λ d. eqb_ℤ d.id device_id && is_of_node n.id d) db.devices) db.nodes

-- Its two errors are one here: both callers only ask whether there is a node.
unfoldable pub get_node_directly_by_device_id : ℤ → Action (Option Node)
get_node_directly_by_device_id device_id = fetch (λ db. node_of_device device_id db)

abbrev pub tell_update : Option Node → Action (Unit {0})
tell_update none = pure tt
tell_update (some node) = send (record { event_type = ConfigEventType.update_node; node = node })

unfoldable pub delete_value : ℤ → Action (Unit {0})
delete_value id = do
  read ← get_value_by_id id
  deleted_value_old ← or_err (join read) value_missing
  started ← begin
  or_err started db_failed
  delete_value_with_transaction id
  committed ← commit
  or_err committed db_failed
  node ← get_node_directly_by_device_id deleted_value_old.parent_device_id
  tell_update node

abbrev pub new_value : ℕ → ValueCreate → ValueUnit
new_value id c = record {
  id = pos id;
  parent_device_id = c.parent_device_id;
  value_name = c.value_name;
  value_tag = c.value_tag;
  description = c.description;
  decoding_type = c.decoding_type;
  settings = c.settings;
  is_logging = c.is_logging;
}

abbrev pub has_id : ℤ → List ℤ → Bool
has_id id ids = any (λ i. eqb_ℤ i id) ids

-- INSERT INTO value_units, refused by the unique key of the tag and the two foreign keys.
unfoldable pub insert_value : (String → String → Bool) → ValueCreate → Db → Option Db
insert_value same_text c db =
    if any (λ v. same_text v.value_tag c.value_tag) db.values
    then none
    else if any (λ d. eqb_ℤ d.id c.parent_device_id) db.devices
        && has_id c.decoding_type db.decoding_types
    then some (record db {
      values = db.values ++ (new_value db.next_value c ∷ []);
      next_value = suc db.next_value;
    })
    else none

-- SELECT id FROM devices WHERE id = ? AND deleted = 0
unfoldable pub check_device : ℤ → Action (Unit {0})
check_device id = do
  read ← fetch (λ db. some (find_device id db))
  dev ← or_err read db_failed
  found ← or_err dev device_missing
  pure tt

unfoldable pub create_value : ValueCreate → Action (Unit {0})
create_value c = do
  valid ← asks (λ env. check_json env.serde c.decoding_type c.settings)
  guard_not (not valid) bad_settings
  check_device c.parent_device_id
  same_text ← asks (λ env. env.same_text)
  inserted ← execute (insert_value same_text c)
  or_err inserted db_failed
  node ← get_node_directly_by_device_id c.parent_device_id
  tell_update node

abbrev pub check_settings : ℤ → Option String → Action (Unit {0})
check_settings decoding_type none = pure tt
check_settings decoding_type (some setting) = do
  valid ← asks (λ env. check_json env.serde decoding_type setting)
  guard_not (not valid) bad_settings

abbrev pub check_new_device : Option ℤ → Action (Unit {0})
check_new_device none = pure tt
check_new_device (some parent_id) = check_device parent_id

unfoldable pub changed_value : ValueUpdate → ValueUnit → ValueUnit
changed_value c v = record v {
  parent_device_id = coalesce c.parent_device_id v.parent_device_id;
  value_name = coalesce c.value_name v.value_name;
  value_tag = coalesce c.value_tag v.value_tag;
  description = coalesce_null c.description v.description;
  decoding_type = coalesce c.decoding_type v.decoding_type;
  settings = coalesce c.settings v.settings;
  is_logging = coalesce c.is_logging v.is_logging;
}

abbrev pub takes_tag : (String → String → Bool) → ℤ → Option String → List ValueUnit → Bool
takes_tag same_text id none values = false
takes_tag same_text id (some tag) values =
    any (λ v. same_text v.value_tag tag && not (eqb_ℤ v.id id)) values

abbrev pub known_or_absent : Option ℤ → List ℤ → Bool
known_or_absent none ids = true
known_or_absent (some id) ids = has_id id ids

-- UPDATE value_units SET …, refused by the unique key of the tag and the two foreign keys.
unfoldable pub update_value_row : (String → String → Bool) → ValueUpdate → Db → Option Db
update_value_row same_text c db =
    if takes_tag same_text c.id c.value_tag db.values
    then none
    else if known_or_absent c.parent_device_id (map (λ d. d.id) db.devices)
        && known_or_absent c.decoding_type db.decoding_types
    then some (record db {
      values = map (λ v. if eqb_ℤ v.id c.id then changed_value c v else v) db.values;
    })
    else none

-- The event for the node of the old device; the result is `new_node_id`.
abbrev pub tell_first : Option Node → Action ℤ
tell_first none = pure (pos 0)
tell_first (some node) =
    send (record { event_type = ConfigEventType.update_node; node = node }) >> pure node.id

-- The event for the node of the new device, unless it is the same.
abbrev pub tell_if_other : ℤ → Option Node → Action (Unit {0})
tell_if_other told none = pure tt
tell_if_other told (some node) = tell_update (if eqb_ℤ told node.id then none else some node)

abbrev pub tell_second : ℤ → Option ℤ → Action (Unit {0})
tell_second told none = pure tt
tell_second told (some dev_id) = do
  node ← get_node_directly_by_device_id dev_id
  tell_if_other told node

unfoldable pub value_update : ValueUpdate → Action (Unit {0})
value_update c = do
  read ← get_value_by_id c.id
  value_old ← or_err (join read) value_missing
  again ← get_value_by_id c.id
  row ← or_err again db_failed
  val ← or_err row value_missing
  check_settings (coalesce c.decoding_type val.decoding_type) c.settings
  check_new_device c.parent_device_id
  same_text ← asks (λ env. env.same_text)
  written ← execute (update_value_row same_text c)
  or_err written db_failed
  node ← get_node_directly_by_device_id value_old.parent_device_id
  new_node_id ← tell_first node
  tell_second new_node_id c.parent_device_id
