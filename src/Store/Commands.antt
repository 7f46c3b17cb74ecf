-- ===== src/Store/Commands.antt =====
-- db/worker/db_master.rs: the commands on nodes, devices and values, and the workers they start.
use modbus_tcplogger.Common.{List, [], ◌∷◌}
use modbus_tcplogger.Common.Int.{ℤ}
use modbus_tcplogger.Store.{
  NodeCreate, NodeUpdate, DeviceCreate, DeviceUpdate, ValueCreate, ValueUpdate,
}
use modbus_tcplogger.Store.Sql.{Action, Env, Store}
use modbus_tcplogger.Store.Nodes.{create_node, update_node, delete_node}
use modbus_tcplogger.Store.Devices.{delete_device}
use modbus_tcplogger.Store.DeviceWrites.{create_device, update_device}
use modbus_tcplogger.Store.Values.{create_value, value_update, delete_value}

pub data NodeCommand : Type 0 where
  create : NodeCreate → NodeCommand
  update : NodeUpdate → NodeCommand
  delete : ℤ → NodeCommand

pub data DeviceCommand : Type 0 where
  create : DeviceCreate → DeviceCommand
  update : DeviceUpdate → DeviceCommand
  delete : ℤ → DeviceCommand

pub data ValueCommand : Type 0 where
  create : ValueCreate → ValueCommand
  update : ValueUpdate → ValueCommand
  delete : ℤ → ValueCommand

pub data CommandType : Type 0 where
  node_command : NodeCommand → CommandType
  device_command : DeviceCommand → CommandType
  value_command : ValueCommand → CommandType

unfoldable pub command_node : NodeCommand → Action (Unit {0})
command_node (NodeCommand.create c) = create_node c
command_node (NodeCommand.update c) = update_node c
command_node (NodeCommand.delete id) = delete_node id

unfoldable pub command_device : DeviceCommand → Action (Unit {0})
command_device (DeviceCommand.create c) = create_device c
command_device (DeviceCommand.update c) = update_device c
command_device (DeviceCommand.delete id) = delete_device id

unfoldable pub command_value : ValueCommand → Action (Unit {0})
command_value (ValueCommand.create c) = create_value c
command_value (ValueCommand.update c) = value_update c
command_value (ValueCommand.delete id) = delete_value id

unfoldable pub run_command : CommandType → Action (Unit {0})
run_command (node_command c) = command_node c
run_command (device_command c) = command_device c
run_command (value_command c) = command_value c

-- One command after the other, whatever becomes of each.
unfoldable pub run_commands : Env → List CommandType → Store → Store
run_commands env [] s = s
run_commands env (c ∷ cs) s = run_commands env cs (run_command c env s).1
