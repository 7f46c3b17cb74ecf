-- ===== src/Pool/Unit.antt =====
-- modbus_device_unit.rs: the device that holds the steps, with the creation of the steps from its
-- values (pool_iterator.rs) and the measures of one answer (read_steps.rs). The clock is not the
-- program's: it gives milliseconds since the epoch, or `none` where `duration_since` fails.
use modbus_tcplogger.Common.{
  ℕ, ◌/◌, ◌^◌, Bool, Option, none, some, List, [], ◌∷◌, map, if◌then◌else◌,
}
use modbus_tcplogger.Common.Int.{ℤ, residue, signed, add_u64}
use modbus_tcplogger.Common.Float.{Floats}
use modbus_tcplogger.Measures.{ModbusMeasure}
use modbus_tcplogger.Plugins.{Serde, RegisterDecodingPlugin, get_type}
use modbus_tcplogger.Plugins.Decode.{get_plugin, init, get_value, fail}
use modbus_tcplogger.Pool.{
  ValueRead, ReadStep, Units, PollValueIterator, both_some, single_sort, group_sort, sort_in,
  no_units, empty_pool,
}

pub record DeviceRead : Type 0 where
  pub id : ℤ
  pub address : ℤ
  pub time_for_recall : ℤ
  pub timeout : ℤ
  pub retry_count : ℤ
  pub is_active : Bool
  pub read_by_group : Bool

pub record ModbusDeviceUnit (F : Type 0) : Type 0 where
  pub id : ℤ
  pub address : ℤ
  pub time_for_recall : ℤ
  pub timeout : ℕ  -- u64
  pub retry_count : ℤ
  pub is_active : Bool
  pub read_by_group : Bool
  pub next_read_at : ℕ  -- u64
  pub value_pool : PollValueIterator F

module _ {F : Type 0} where
  -- `now` is the clock in milliseconds; the code panics where it has none.
  unfoldable pub new_device : ℕ → DeviceRead → ModbusDeviceUnit F
  new_device now setting = record {
    id = setting.id;
    address = setting.address;
    time_for_recall = setting.time_for_recall;
    timeout = residue (2 ^ 64) setting.timeout;
    retry_count = setting.retry_count;
    is_active = setting.is_active;
    read_by_group = setting.read_by_group;
    next_read_at = now;
    value_pool = empty_pool;
  }

  abbrev pub increase_timeout : ModbusDeviceUnit F → ModbusDeviceUnit F
  increase_timeout d = record d { timeout = add_u64 d.timeout 50 }

  abbrev pub finished : ℕ → ModbusDeviceUnit F → ModbusDeviceUnit F
  finished now d = record d { next_read_at = add_u64 now (residue (2 ^ 64) d.time_for_recall) }

module _ (fl : Floats) where
  open fl use {F}

  unfoldable pub init_plugins : Serde → List ValueRead → Units F → Units F
  init_plugins serde [] u = u
  init_plugins serde (value ∷ values) u = elim (get_plugin fl value.decoding_type) [
    | none ↦ init_plugins serde values u
    | some plugin ↦
        let (p, addrs) = init fl serde plugin value.settings value.id value.is_logging in
        init_plugins serde values (sort_in p addrs (get_type p) u)
  ]

  unfoldable pub create_units : Serde → List ValueRead → Bool → PollValueIterator F
  create_units serde values by_group =
      let u = init_plugins serde values no_units in
      if by_group
      then record {
        coils = group_sort u.coil;
        discrete = group_sort u.discrete;
        holding = group_sort u.holding;
        input = group_sort u.input;
      }
      else record {
        coils = single_sort u.coil;
        discrete = single_sort u.discrete;
        holding = single_sort u.holding;
        input = single_sort u.input;
      }

  unfoldable pub set_values : Serde → List ValueRead → ModbusDeviceUnit F → ModbusDeviceUnit F
  set_values serde values d = record d { value_pool = create_units serde values d.read_by_group }

  -- `as_secs() as i64`
  abbrev pub seconds : ℕ → ℤ
  seconds millis = signed (2 ^ 63) (millis / 1000)

  -- The measures of a reply, in order; `none` where a plugin reads out of range.
  unfoldable pub decode_each :
      List (RegisterDecodingPlugin F) → List ℕ → ℤ → Option (List (ModbusMeasure F))
  decode_each [] reg_list ts = some []
  decode_each (v ∷ vs) reg_list ts =
      both_some (get_value fl v reg_list ts) (decode_each vs reg_list ts)

  abbrev pub step_value : ReadStep F → List ℕ → Option ℕ → Option (List (ModbusMeasure F))
  step_value step reg_list none = some []
  step_value step reg_list (some now) = decode_each step.values reg_list (seconds now)

  abbrev pub step_fail : ReadStep F → Option ℕ → List (ModbusMeasure F)
  step_fail step none = []
  step_fail step (some now) = map (λ v. fail fl v (seconds now)) step.values
