-- ===== src/ReadMaster/Tests.antt =====
-- Examples of reading: a node with two devices, one of whose steps is broken.
use modbus_tcplogger.Common.{◌+◌, arith}
use modbus_tcplogger.Common.{
  ℕ, zero, suc, ◌+◌, ◌≡◌, ◌≢◌, refl, Bool, true, false, Option, none, some, [], ◌∷◌, ◌++◌, All,
  get_elem?,
}
use modbus_tcplogger.Common.Int.{ℤ, pos}
use modbus_tcplogger.Common.Sample.{whole}
use modbus_tcplogger.Plugins.{holding, RegisterDecodingPlugin, shift, Serde}
use modbus_tcplogger.Plugins.Decode.{get_value}
use modbus_tcplogger.Pool.{ReadStep, PollValueIterator, new_step, mark_broken}
use modbus_tcplogger.Pool.Unit.{ModbusDeviceUnit, decode_each}
use modbus_tcplogger.ReadMaster.Step.{Reply, Request, words, elapsed, try_step, read_process}
use modbus_tcplogger.ReadMaster.Sweep.{Pass, sweep, visit}
use modbus_tcplogger.ReadMaster.Tries.{pool_tries}
use modbus_tcplogger.ReadMaster.Choice.{
  NotBefore, when_next_device-least, when_next_device-inactive,
}
use modbus_tcplogger.ReadMaster.Read.{is_waiting, read-ends}
use modbus_tcplogger.ReadMaster.Reports.{ids, live_ids, sweep-Reported}
use modbus_tcplogger.ReadMaster.{World, ReadMaster, done, read, when_next_device, un_connected}

abbrev plugin : ℤ → RegisterDecodingPlugin ℤ
plugin id = shift (record {
  id = id;
  tag = "volts";
  addr = pos 4;
  multiplier = pos 10;
  m_type = holding;
  is_logging = true;
  is_init = true;
  pos_in_list = 0;
})

abbrev step : ℤ → ReadStep ℤ
step id = record (new_step (pos 4) (pos 1) holding) { values = plugin id ∷ [] }

abbrev pool : PollValueIterator ℤ
pool = record {
  coils = [];
  discrete = [];
  holding = step (pos 1) ∷ mark_broken (step (pos 2)) ∷ step (pos 3) ∷ [];
  input = [];
}

abbrev device : ℕ → Bool → ModbusDeviceUnit ℤ
device next_read_at is_active = record {
  id = pos 1;
  address = pos 1;
  time_for_recall = pos 1000;
  timeout = 500;
  retry_count = pos 2;
  is_active = is_active;
  read_by_group = true;
  next_read_at = next_read_at;
  value_pool = pool;
}

-- The first request gets no reply.
abbrev answers : ℕ → Request → Reply
answers zero request = elapsed
answers (suc n) request = words (40 ∷ [])

abbrev ticking : ℕ → Option ℕ
ticking n = some (5000 + n)

told : (n : ℕ) → ticking n ≢ none
told n e = cc

abbrev world : World
world = record {
  reply = answers;
  clock = ticking;
  parses = λ ip port. true;
  dial = λ n ip port. true;
  devices = λ n id. some [];
  values = λ n id. some [];
}

abbrev no_parser : Serde
no_parser = record { coma_shift = λ s. none; bit_in_word = λ s. none; satec = λ s. none }

abbrev master : ReadMaster ℤ
master = record {
  id = pos 1;
  ip = "10.0.0.1";
  port = pos 502;
  devices = device 900 true ∷ device 700 true ∷ device 100 false ∷ [];
  ctx = true;
  current_devise_index = some 1;
  lastest_device_index = none;
  sent = [];
  ctx_state = un_connected;
  last_connecting_time = 0;
  ops = 0;
}

abbrev start : Pass ℤ
start = record { total_result = []; failed_steps = 0; ops = 0; stop = none }

reaches_end : (sweep whole answers ticking 1 500 2 pool.holding start).1.stop ≡ none
unfolding sweep visit try_step read_process decode_each get_value
reaches_end = refl

sweep-Reported_example :
    (start.stop ≡ none)
    × (ids (sweep whole answers ticking 1 500 2 pool.holding start).1.total_result
        ≡ ids start.total_result ++ live_ids pool.holding)
sweep-Reported_example =
    sweep-Reported whole answers ticking 1 500 2 pool.holding start told reaches_end

-- The first step is asked twice, the broken one not at all.
asked_run : pool_tries whole answers ticking 1 500 2 pool 0 ≡ 2 ∷ 0 ∷ 1 ∷ []
unfolding visit try_step read_process decode_each get_value
asked_run = refl

read-ends_example : is_waiting (read whole no_parser world master) ≡ false
read-ends_example = read-ends whole no_parser world master

when_next_device-least_example :
    (j : ℕ) × (e : ModbusDeviceUnit ℤ) × (when_next_device master
      ≡ done (record master { current_devise_index = some j }, e.next_read_at))
    × (get_elem? master.devices j ≡ some e)
    × (e.is_active ≡ true)
    × All (NotBefore e.next_read_at) master.devices
when_next_device-least_example =
    when_next_device-least master (device 900 true) (device 700 true ∷ device 100 false ∷ []) refl
      refl

abbrev starved : ReadMaster ℤ
starved = record master { devices = device 100 false ∷ device 700 true ∷ [] }

when_next_device-inactive_example :
    when_next_device starved ≡ done (record starved { current_devise_index = some 0 }, 1000)
when_next_device-inactive_example =
    when_next_device-inactive starved (device 100 false) (device 700 true ∷ []) refl refl
      (omega arith, tt)
