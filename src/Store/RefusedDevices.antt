-- ===== src/Store/RefusedDevices.antt =====
-- A refused command on devices or values leaves the tables and the readers as they were.
use Prim.Native.String.{String}
use modbus_tcplogger.Common.{Bool, true, false, Option, none, some, List, [], ◌∷◌}
use modbus_tcplogger.Common.Int.{ℤ}
use modbus_tcplogger.Store.{
  Node, ValueUnit, DeviceRead, DeviceCreate, DeviceUpdate, ValueCreate, ValueUpdate,
}
use modbus_tcplogger.Store.Devices.{
  get_device_by_id, get_value_by_device_id, delete_value_with_transaction, delete_values,
  delete_device,
}
use modbus_tcplogger.Store.DeviceWrites.{
  create_device, update_device, refuse_device, check_new_parent, refuse_other_device, ask_address,
  check_address, tell_node, tell_new_node, tell_old_node,
}
use modbus_tcplogger.Store.Values.{
  get_value_by_id, get_node_directly_by_device_id, tell_update, delete_value, check_device,
  create_value, check_settings, check_new_device, tell_first, tell_if_other, tell_second,
  value_update,
}
use modbus_tcplogger.Store.Atomic.{
  bind-IsQuiet, IsQuiet, IsAtomic, IsSure, fetch-IsQuiet, fetch-IsSure, worker_rules,
}
use modbus_tcplogger.Store.Refused.{node_rules}

get_device_by_id-IsQuiet : (id : ℤ) → IsQuiet (get_device_by_id id)
unfolding get_device_by_id
get_device_by_id-IsQuiet id = fetch-IsQuiet _

get_device_by_id-IsSure : (id : ℤ) → IsSure (get_device_by_id id)
unfolding get_device_by_id
get_device_by_id-IsSure id = fetch-IsSure _

get_value_by_device_id-IsQuiet : (id : ℤ) → IsQuiet (get_value_by_device_id id)
unfolding get_value_by_device_id
get_value_by_device_id-IsQuiet id = fetch-IsQuiet _

delete_value_with_transaction-IsQuiet : (id : ℤ) → IsQuiet (delete_value_with_transaction id)
unfolding delete_value_with_transaction
delete_value_with_transaction-IsQuiet id = search worker_rules depth 20

delete_values-IsQuiet : (vs : List ValueUnit) → IsQuiet (delete_values vs)
unfolding delete_values
delete_values-IsQuiet [] = search worker_rules
delete_values-IsQuiet (v ∷ vs) =
    bind-IsQuiet (delete_value_with_transaction-IsQuiet v.id) (λ _. delete_values-IsQuiet vs)

refuse_device-IsQuiet : (x : Option DeviceRead) → IsQuiet (refuse_device x)
refuse_device-IsQuiet none = search worker_rules
refuse_device-IsQuiet (some d) = search worker_rules

refuse_other_device-IsQuiet : (id : ℤ) (x : Option DeviceRead) → IsQuiet (refuse_other_device id x)
refuse_other_device-IsQuiet id none = search worker_rules
refuse_other_device-IsQuiet id (some d) = search worker_rules

check_new_parent-IsQuiet : (x : Option ℤ) → IsQuiet (check_new_parent x)
unfolding check_new_parent
check_new_parent-IsQuiet none = search worker_rules
check_new_parent-IsQuiet (some p) = search node_rules depth 20

check_address-IsQuiet : (b : Bool) (c : DeviceUpdate) → IsQuiet (ask_address b c)
check_address-IsQuiet false c = search worker_rules
check_address-IsQuiet true c = search (worker_rules, refuse_other_device-IsQuiet) depth 20

tell_node-IsSure : (x : Option Node) → IsSure (tell_node x)
tell_node-IsSure none = search worker_rules
tell_node-IsSure (some node) = search worker_rules

tell_new_node-IsSure : (x : Option DeviceRead) → IsSure (tell_new_node x)
unfolding tell_new_node
tell_new_node-IsSure none = search worker_rules
tell_new_node-IsSure (some d) = search (node_rules, tell_node-IsSure)

tell_old_node-IsSure : (b : Bool) (old : ℤ) → IsSure (tell_old_node b old)
unfolding tell_old_node
tell_old_node-IsSure true old = search worker_rules
tell_old_node-IsSure false old = search node_rules

ruleset device_rules = (
  node_rules, get_device_by_id-IsQuiet, get_device_by_id-IsSure, get_value_by_device_id-IsQuiet,
  delete_value_with_transaction-IsQuiet, delete_values-IsQuiet, refuse_device-IsQuiet,
  check_new_parent-IsQuiet, check_address-IsQuiet, tell_new_node-IsSure, tell_old_node-IsSure,
)

pub delete_device-IsAtomic : (id : ℤ) → IsAtomic (delete_device id)
unfolding delete_device
delete_device-IsAtomic id = search device_rules depth 40

pub create_device-IsAtomic : (c : DeviceCreate) → IsAtomic (create_device c)
unfolding create_device
create_device-IsAtomic c = search device_rules depth 40

pub update_device-IsAtomic : (c : DeviceUpdate) → IsAtomic (update_device c)
unfolding update_device check_address
update_device-IsAtomic c = search device_rules depth 40

get_value_by_id-IsQuiet : (id : ℤ) → IsQuiet (get_value_by_id id)
unfolding get_value_by_id
get_value_by_id-IsQuiet id = fetch-IsQuiet _

node_of-IsSure : (id : ℤ) → IsSure (get_node_directly_by_device_id id)
unfolding get_node_directly_by_device_id
node_of-IsSure id = fetch-IsSure _

tell_update-IsSure : (x : Option Node) → IsSure (tell_update x)
tell_update-IsSure none = search worker_rules
tell_update-IsSure (some node) = search worker_rules

tell_first-IsSure : (x : Option Node) → IsSure (tell_first x)
tell_first-IsSure none = search worker_rules
tell_first-IsSure (some node) = search worker_rules

tell_if_other-IsSure : (told : ℤ) (x : Option Node) → IsSure (tell_if_other told x)
tell_if_other-IsSure told none = search worker_rules
tell_if_other-IsSure told (some node) = search tell_update-IsSure

tell_second-IsSure : (told : ℤ) (x : Option ℤ) → IsSure (tell_second told x)
tell_second-IsSure told none = search worker_rules
tell_second-IsSure told (some id) = search (worker_rules, node_of-IsSure, tell_if_other-IsSure)

check_device-IsQuiet : (id : ℤ) → IsQuiet (check_device id)
unfolding check_device
check_device-IsQuiet id = search worker_rules depth 20

check_new_device-IsQuiet : (x : Option ℤ) → IsQuiet (check_new_device x)
check_new_device-IsQuiet none = search worker_rules
check_new_device-IsQuiet (some id) = search check_device-IsQuiet

check_settings-IsQuiet : (t : ℤ) (x : Option String) → IsQuiet (check_settings t x)
check_settings-IsQuiet t none = search worker_rules
check_settings-IsQuiet t (some setting) = search worker_rules depth 20

ruleset value_rules = (
  device_rules, get_value_by_id-IsQuiet, node_of-IsSure, tell_update-IsSure, tell_first-IsSure,
  tell_second-IsSure, check_device-IsQuiet, check_new_device-IsQuiet, check_settings-IsQuiet,
)

pub delete_value-IsAtomic : (id : ℤ) → IsAtomic (delete_value id)
unfolding delete_value
delete_value-IsAtomic id = search value_rules depth 40

pub create_value-IsAtomic : (c : ValueCreate) → IsAtomic (create_value c)
unfolding create_value
create_value-IsAtomic c = search value_rules depth 40

pub value_update-IsAtomic : (c : ValueUpdate) → IsAtomic (value_update c)
unfolding value_update
value_update-IsAtomic c = search value_rules depth 40
