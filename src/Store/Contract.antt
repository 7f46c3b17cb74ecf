-- ===== src/Store/Contract.antt =====
-- What db_master promises of a command, however its worker ends.
use modbus_tcplogger.Common.{◌≡◌, refl, Option}
use modbus_tcplogger.Store.{Db, Refusal}
use modbus_tcplogger.Store.Sql.{Env, Store, err}
use modbus_tcplogger.Store.Commands.{
  NodeCommand, DeviceCommand, ValueCommand, CommandType, node_command, device_command,
  value_command, command_node, command_device, command_value, run_command,
}
use modbus_tcplogger.Store.Atomic.{IsSame, IsAtomic}
use modbus_tcplogger.Store.Triple.{Triple}
use modbus_tcplogger.Store.Reads.{Knows, Ends-Goal}
use modbus_tcplogger.Store.Refused.{
  delete_node-IsAtomic, create_node-IsAtomic, update_node-IsAtomic,
}
use modbus_tcplogger.Store.RefusedDevices.{
  delete_device-IsAtomic, create_device-IsAtomic, update_device-IsAtomic, delete_value-IsAtomic,
  create_value-IsAtomic, value_update-IsAtomic,
}
use modbus_tcplogger.Store.Effects.{
  Either, IsNodeCreated, IsNodeUpdated, create_node-Triple, update_node-Triple,
}
use modbus_tcplogger.Store.DeviceEffects.{IsDeviceCreated, create_device-Triple}
use modbus_tcplogger.Store.DeviceUpdates.{IsDeviceUpdated, update_device-Triple}
use modbus_tcplogger.Store.ValueEffects.{
  IsValueDeleted, IsValueCreated, IsValueUpdated, delete_value-Triple, create_value-Triple,
  value_update-Triple,
}
use modbus_tcplogger.Store.Whole.{
  IsNodeDeleted, IsDeviceDeleted, delete_node-Triple, delete_device-Triple,
}

run_command-IsAtomic : (c : CommandType) → IsAtomic (run_command c)
unfolding run_command command_node command_device command_value
run_command-IsAtomic (node_command (NodeCommand.create c)) = create_node-IsAtomic c
run_command-IsAtomic (node_command (NodeCommand.update c)) = update_node-IsAtomic c
run_command-IsAtomic (node_command (NodeCommand.delete id)) = delete_node-IsAtomic id
run_command-IsAtomic (device_command (DeviceCommand.create c)) = create_device-IsAtomic c
run_command-IsAtomic (device_command (DeviceCommand.update c)) = update_device-IsAtomic c
run_command-IsAtomic (device_command (DeviceCommand.delete id)) = delete_device-IsAtomic id
run_command-IsAtomic (value_command (ValueCommand.create c)) = create_value-IsAtomic c
run_command-IsAtomic (value_command (ValueCommand.update c)) = value_update-IsAtomic c
run_command-IsAtomic (value_command (ValueCommand.delete id)) = delete_value-IsAtomic id

-- A command that is answered with an error, whatever the reason and wherever a statement failed, has
-- changed no row of the tables and sent no event to the readers.
pub refused_changes_nothing :
    (c : CommandType) (env : Env) (s : Store) (e : Refusal)
    → (run_command c env s).0 ≡ err e
    → IsSame s (run_command c env s).1
refused_changes_nothing c env s e h = (run_command-IsAtomic c).unchanged env s e h

-- What the command may do to the tables, and under which conditions.
abbrev pub Effect : Env → CommandType → Db → Option Db → Type 0
Effect env (node_command (NodeCommand.create c)) = IsNodeCreated env c
Effect env (node_command (NodeCommand.update c)) = IsNodeUpdated env c
Effect env (node_command (NodeCommand.delete id)) = IsNodeDeleted id
Effect env (device_command (DeviceCommand.create c)) = IsDeviceCreated c
Effect env (device_command (DeviceCommand.update c)) = IsDeviceUpdated c
Effect env (device_command (DeviceCommand.delete id)) = IsDeviceDeleted id
Effect env (value_command (ValueCommand.create c)) = IsValueCreated env c
Effect env (value_command (ValueCommand.update c)) = IsValueUpdated env c
Effect env (value_command (ValueCommand.delete id)) = IsValueDeleted id

run_command-Triple :
    (c : CommandType) (env : Env) (start : Db)
    → Triple
        (Either (Effect env c) start)
        env
        (Knows start (Unit {0}))
        (run_command c)
        (λ _ s. Either (Effect env c) start s.db)
unfolding run_command command_node command_device command_value
run_command-Triple (node_command (NodeCommand.create c)) = create_node-Triple c
run_command-Triple (node_command (NodeCommand.update c)) = update_node-Triple c
run_command-Triple (node_command (NodeCommand.delete id)) = delete_node-Triple id
run_command-Triple (device_command (DeviceCommand.create c)) = create_device-Triple c
run_command-Triple (device_command (DeviceCommand.update c)) = update_device-Triple c
run_command-Triple (device_command (DeviceCommand.delete id)) = delete_device-Triple id
run_command-Triple (value_command (ValueCommand.create c)) = create_value-Triple c
run_command-Triple (value_command (ValueCommand.update c)) = value_update-Triple c
run_command-Triple (value_command (ValueCommand.delete id)) = delete_value-Triple id

-- However a command ends, by an answer, an error, a panic or the time-out between any two of its
-- statements, the tables are as they were, or its conditions held and the whole effect is there.
pub run_command-Either :
    (c : CommandType) (env : Env) (s : Store)
    → Either (Effect env c) s.db (run_command c env s).1.db
run_command-Either c env s =
    Ends-Goal (Either (Effect env c) s.db) (run_command c env s)
      ((run_command-Triple c env s.db).run s (refl, tt))
