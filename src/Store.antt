-- ===== src/Store.antt =====
-- db/schemas and the tables of db/db_init/init_database.rs: the rows of the database, the requests
-- that change them, and the events that tell the readers of a change. The tables of the groups and of
-- their members are not part of this.
pub mod Sql
pub mod Nodes
pub mod Atomic
pub mod Devices
pub mod DeviceWrites
pub mod Values
pub mod Refused
pub mod RefusedDevices
pub mod Triple
pub mod Reads
pub mod Whole
pub mod Effects
pub mod DeviceEffects
pub mod DeviceUpdates
pub mod ValueEffects
pub mod Commands
pub mod Contract
pub mod Housed
pub mod HousedDeletes
pub mod Kept
pub mod Orphans
pub mod History
mod Tests
use Prim.Native.String.{String}
use modbus_tcplogger.Common.{ℕ, Bool, Option, List}
use modbus_tcplogger.Common.Int.{ℤ}
use modbus_tcplogger.ReadMaster.{ConfigEventType}

-- A row of `nodes`, and `NodeRead`.
pub record Node : Type 0 where
  pub id : ℤ
  pub ip : String
  pub port : Option ℤ
  pub description : Option String

-- A row of `devices`; no parent is NULL.
pub record Device : Type 0 where
  pub id : ℤ
  pub parent_node_id : Option ℤ
  pub device_name : Option String
  pub address : ℤ
  pub time_for_recall : ℤ
  pub timeout : ℤ
  pub retry_count : ℤ
  pub is_active : Bool
  pub read_by_group : Bool
  pub description : Option String
  pub deleted : Bool
  pub deleted_at : Option ℤ

-- A row of `value_units`, and `ValueRead`; the settings are the text of their JSON.
pub record ValueUnit : Type 0 where
  pub id : ℤ
  pub parent_device_id : ℤ
  pub value_name : String
  pub value_tag : String
  pub description : Option String
  pub decoding_type : ℤ
  pub settings : String
  pub is_logging : Bool

-- A row of `measures`, without the measured number.
pub record Measure : Type 0 where
  pub value_id : ℤ
  pub measure_time : ℤ

-- The tables, with the next number of each AUTO_INCREMENT and the ids of `decoding_type`.
pub record Db : Type 0 where
  pub nodes : List Node
  pub devices : List Device
  pub values : List ValueUnit
  pub measures : List Measure
  pub decoding_types : List ℤ
  pub next_node : ℕ
  pub next_device : ℕ
  pub next_value : ℕ

pub record ConfigEvent : Type 0 where
  pub event_type : ConfigEventType
  pub node : Node

pub record NodeCreate : Type 0 where
  pub ip : String
  pub port : Option ℤ
  pub description : Option String

pub record NodeUpdate : Type 0 where
  pub id : ℤ
  pub ip : Option String
  pub port : Option ℤ
  pub description : Option String

-- `DeviceRead`, in which the parent is no option.
pub record DeviceRead : Type 0 where
  pub id : ℤ
  pub device_name : Option String
  pub address : ℤ
  pub parent_node_id : ℤ
  pub time_for_recall : ℤ
  pub timeout : ℤ
  pub retry_count : ℤ
  pub is_active : Bool
  pub read_by_group : Bool
  pub description : Option String
  pub deleted : Option Bool
  pub deleted_at : Option ℤ

pub record DeviceCreate : Type 0 where
  pub device_name : String
  pub address : ℤ
  pub parent_node_id : ℤ
  pub time_for_recall : ℤ
  pub timeout : ℤ
  pub retry_count : ℤ
  pub is_active : Bool
  pub read_by_group : Bool
  pub description : Option String

pub record DeviceUpdate : Type 0 where
  pub id : ℤ
  pub device_name : Option String
  pub address : Option ℤ
  pub parent_node_id : Option ℤ
  pub time_for_recall : Option ℤ
  pub timeout : Option ℤ
  pub retry_count : Option ℤ
  pub is_active : Option Bool
  pub read_by_group : Option Bool
  pub description : Option String

pub record ValueCreate : Type 0 where
  pub parent_device_id : ℤ
  pub value_name : String
  pub value_tag : String
  pub description : Option String
  pub decoding_type : ℤ
  pub settings : String
  pub is_logging : Bool

pub record ValueUpdate : Type 0 where
  pub id : ℤ
  pub parent_device_id : Option ℤ
  pub value_name : Option String
  pub value_tag : Option String
  pub description : Option String
  pub decoding_type : Option ℤ
  pub settings : Option String
  pub is_logging : Option Bool

-- Why a command is refused; the code answers with a text for each.
pub data Refusal : Type 0 where
  db_failed bad_ip ip_taken node_missing : Refusal
  bad_address bad_recall bad_retry bad_timeout bad_parent address_taken device_missing : Refusal
  bad_settings value_missing : Refusal
