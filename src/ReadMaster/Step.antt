-- ===== src/ReadMaster/Step.antt =====
-- One step of a device: `read_process`, which sorts the replies, and the loop that tries a step again.
use modbus_tcplogger.Common.{ℕ, zero, suc, Bool, Option, none, some, List, ltb, leb, if◌then◌else◌}
use modbus_tcplogger.Common.Float.{Floats}
use modbus_tcplogger.Measures.{ModbusMeasure}
use modbus_tcplogger.Plugins.{RegType}
use modbus_tcplogger.Pool.{ReadStep}
use modbus_tcplogger.Pool.Unit.{step_value}

-- `tokio_modbus::ExceptionCode`
pub data ExceptionCode : Type 0 where
  illegal_function illegal_data_address illegal_data_value server_device_failure acknowledge
        server_device_busy memory_parity_error gateway_path_unavailable gateway_target_device :
      ExceptionCode
  custom : ℕ → ExceptionCode

-- The `io::ErrorKind`s that the code names, and the others.
pub data ErrorKind : Type 0 where
  connection_refused connection_reset host_unreachable network_unreachable connection_aborted
        not_connected broken_pipe timed_out network_down other_kind :
      ErrorKind

pub data ProtocolError : Type 0 where
  function_code_mismatch header_mismatch : ProtocolError

-- What comes of a request within its time: words, an exception of the device, an error of the
-- transport or of the protocol, or nothing at all.
pub data Reply : Type 0 where
  words : List ℕ → Reply
  exception : ExceptionCode → Reply
  transport : ErrorKind → Reply
  protocol : ProtocolError → Reply
  elapsed : Reply

pub data ModbusReadError : Type 0 where
  timeout device_protocol_error socket_fail remove_step header_mis_match : ModbusReadError

pub data ModbusReadResult : Type 0 where
  ok : List ℕ → ModbusReadResult
  err : ModbusReadError → ModbusReadResult

unfoldable pub exception_error : ExceptionCode → ModbusReadError
exception_error illegal_function = remove_step
exception_error illegal_data_address = remove_step
exception_error illegal_data_value = timeout
exception_error memory_parity_error = timeout
exception_error server_device_busy = timeout
exception_error acknowledge = timeout
exception_error server_device_failure = socket_fail
exception_error gateway_path_unavailable = socket_fail
exception_error gateway_target_device = socket_fail
exception_error (custom n) = timeout

unfoldable pub transport_error : ErrorKind → ModbusReadError
transport_error connection_refused = socket_fail
transport_error connection_reset = socket_fail
transport_error host_unreachable = socket_fail
transport_error network_unreachable = socket_fail
transport_error connection_aborted = socket_fail
transport_error not_connected = socket_fail
transport_error broken_pipe = socket_fail
transport_error timed_out = socket_fail
transport_error network_down = socket_fail
transport_error other_kind = timeout

unfoldable pub read_process : Reply → ModbusReadResult
unfolding exception_error transport_error
read_process (words raw_values) = ok raw_values
read_process (exception e) = err (exception_error e)
read_process (transport kind) = err (transport_error kind)
read_process (protocol function_code_mismatch) = err device_protocol_error
read_process (protocol header_mismatch) = err header_mis_match
read_process elapsed = err timeout

-- A request: the slave, the table, the registers and the time that it may take, in milliseconds.
pub record Request : Type 0 where
  pub slave : ℕ
  pub reg_type : RegType
  pub start : ℕ
  pub length : ℕ
  pub timeout_duration : ℕ

abbrev pub request_of : {F : Type 0} → ℕ → ℕ → ReadStep F → Request
request_of slave timeout_duration step = record {
  slave = slave;
  reg_type = step.reg_type;
  start = step.start;
  length = step.length;
  timeout_duration = timeout_duration;
}

-- How the loop over the tries of a step ends. `panic` is an index out of range in a plugin, and
-- `endless` a loop that was cut off.
pub data StepEnd (F : Type 0) : Type 0 where
  read_ok : List (ModbusMeasure F) → StepEnd F
  gave_up removed socket_failed panic endless : StepEnd F
  mismatched : Bool → StepEnd F

module _ (fl : Floats) (reply : ℕ → Request → Reply) (clock : ℕ → Option ℕ) where
  open fl use {F}

  abbrev pub accept : Option (List (ModbusMeasure F)) → StepEnd F
  accept none = panic
  accept (some measures) = read_ok measures

  -- The `match read_result`, with what the next round of the loop would give. `after` is the number of
  -- operations after the reply.
  abbrev pub judge : ℕ → ReadStep F → ℕ → ℕ → StepEnd F × ℕ → ModbusReadResult → StepEnd F × ℕ
  judge retry_count step curr_try after again (ok read_result) =
      (accept (step_value fl step read_result (clock after)), after)
  judge retry_count step curr_try after again (err timeout) =
      if leb retry_count (suc curr_try) then (gave_up, after) else again
  judge retry_count step curr_try after again (err device_protocol_error) =
      if leb retry_count (suc curr_try) then (gave_up, after) else again
  judge retry_count step curr_try after again (err socket_fail) = (socket_failed, after)
  judge retry_count step curr_try after again (err remove_step) = (removed, after)
  judge retry_count step curr_try after again (err header_mis_match) =
      (mismatched (ltb 0 curr_try), after)

  -- The `loop` over the tries of one step, with a bound on its rounds. `ops` counts the operations.
  unfoldable pub try_step : ℕ → Request → ℕ → ReadStep F → ℕ → ℕ → StepEnd F × ℕ
  try_step zero request retry_count step curr_try ops = (endless, ops)
  try_step (suc n) request retry_count step curr_try ops =
      judge retry_count step curr_try (suc ops)
        (try_step n request retry_count step (suc curr_try) (suc ops))
        (read_process (reply ops request))
