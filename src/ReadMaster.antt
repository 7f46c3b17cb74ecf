-- ===== src/ReadMaster.antt =====
-- reader/reader_loop/reading_loop/read_master_struct.rs and read_master.rs: the loop that reads the
-- devices of one node. The network, the clock and the controller are not the program's: they are the
-- record `World`, asked by the number of operations done so far, which stands for the time.
pub mod Step
pub mod Sweep
pub mod Retry
pub mod Tries
pub mod Choice
pub mod Read
pub mod Reports
mod Tests
use Prim.Native.String.{String}
use text.Mathlib.Text.{◌==◌ as str_eq}
use modbus_tcplogger.Common.{
  ℕ, zero, suc, ◌+◌, ◌-◌, ◌^◌, Bool, true, false, not, ◌&&◌, ◌||◌, Option, none, some, List, [],
  ◌∷◌, ◌++◌, ltb, leb, if◌then◌else◌, ◌==◌, length, get_elem?, set, is_empty,
}
use modbus_tcplogger.Common.Int.{ℤ, pos, eqb_ℤ, add_u64, residue}
use modbus_tcplogger.Common.Float.{Floats}
use modbus_tcplogger.Measures.{ModbusMeasure}
use modbus_tcplogger.Plugins.{Serde}
use modbus_tcplogger.Pool.{ValueRead, ReadStep, PollValueIterator, total_steps}
use modbus_tcplogger.Pool.Unit.{DeviceRead, ModbusDeviceUnit, new_device, set_values, finished}
use modbus_tcplogger.Pool.Unit as unit
use modbus_tcplogger.ReadMaster.Step.{Reply, Request}
use modbus_tcplogger.ReadMaster.Sweep.{
  Pass, SweepEnd, socket_lost, mismatch, overrun, cut_off, sweep_pool,
}

pub data NodeEventType : Type 0 where
  connected un_connected connecting : NodeEventType

pub data DeviceEventType : Type 0 where
  full some_part failed : DeviceEventType

pub data ConfigEventType : Type 0 where
  update_node delete_node create_node : ConfigEventType

-- The messages to the controller.
pub data MainMsg (F : Type 0) : Type 0 where
  node_event : ℤ → String → NodeEventType → MainMsg F
  device_event : ℤ → DeviceEventType → List (ModbusMeasure F) → MainMsg F

pub record NodeRead : Type 0 where
  pub id : ℤ
  pub ip : String
  pub port : Option ℤ

-- What surrounds the loop: each function takes the number of operations done so far. `devices` and
-- `values` are the controller's answers to the two requests, with `none` for an error of any kind;
-- `dial` tells whether the address parses, and whether the connection is made.
pub record World : Type 0 where
  pub reply : ℕ → Request → Reply
  pub clock : ℕ → Option ℕ
  pub parses : String → ℤ → Bool
  pub dial : ℕ → String → ℤ → Bool
  pub devices : ℕ → ℤ → Option (List DeviceRead)
  pub values : ℕ → ℤ → Option (List ValueRead)

pub record ReadMaster (F : Type 0) : Type 0 where
  pub id : ℤ
  pub ip : String
  pub port : ℤ
  pub devices : List (ModbusDeviceUnit F)
  pub ctx : Bool
  pub current_devise_index : Option ℕ
  pub lastest_device_index : Option ℕ
  pub sent : List (MainMsg F)
  pub ctx_state : NodeEventType
  pub last_connecting_time : ℕ  -- u64
  pub ops : ℕ

-- A run ends with a result, or panics, or is still waiting when it is cut off.
pub data Run (A : Type 0) : Type 0 where
  done : A → Run A
  panicked waiting : Run A

abbrev pub and_then : {A B : Type 0} → Run A → (A → Run B) → Run B
and_then (done a) f = f a
and_then panicked f = panicked
and_then waiting f = waiting

abbrev pub port_of : NodeRead → ℤ
port_of config = elim config.port [ none ↦ pos 502 | some p ↦ p ]

-- `get_time`
abbrev pub get_time : World → ℕ → ℕ
get_time w ops = elim (w.clock ops) [ none ↦ 0 | some t ↦ t ]

unfoldable pub read_report : ℕ → ℕ → DeviceEventType
read_report failed_steps total =
    if failed_steps == 0 then full else if failed_steps == total then failed else some_part

module _ {F : Type 0} where
  abbrev pub new_master : NodeRead → ReadMaster F
  new_master config = record {
    id = config.id;
    ip = config.ip;
    port = port_of config;
    devices = [];
    ctx = false;
    current_devise_index = none;
    lastest_device_index = none;
    sent = [];
    ctx_state = un_connected;
    last_connecting_time = 0;
    ops = 0;
  }

  abbrev pub send : MainMsg F → ReadMaster F → ReadMaster F
  send msg m = record m { sent = m.sent ++ (msg ∷ []) }

  abbrev pub send_connecting_msg : NodeEventType → ReadMaster F → ReadMaster F
  send_connecting_msg msg m = send (node_event m.id m.ip msg) (record m { ctx_state = msg })

  unfoldable pub disconnecting : World → ReadMaster F → ReadMaster F
  disconnecting w m =
      record (send_connecting_msg un_connected
        (record m { last_connecting_time = add_u64 (get_time w m.ops) 60000 })) { ctx = false }

  unfoldable pub create_context : World → ReadMaster F → ReadMaster F × Bool
  unfolding disconnecting
  create_context w m =
      let m1 = send_connecting_msg connecting (record m { ctx = false }) in
      let m2 = record m1 { ops = suc m1.ops } in
      if w.parses m.ip m.port
      then if w.dial m1.ops m.ip m.port
        then (send_connecting_msg connected (record m2 { ctx = true }), true)
        else (disconnecting w m2, false)
      else (m1, false)

  -- The loop of `when_next_device`, from device `i` on.
  unfoldable pub choose : ℕ → ℕ → ℕ → List (ModbusDeviceUnit F) → ℕ × ℕ
  choose i when_next current [] = (when_next, current)
  choose i when_next current (d ∷ ds) =
      let sooner = ltb d.next_read_at when_next && d.is_active in
      choose (suc i) (if sooner then d.next_read_at else when_next) (if sooner then i else current)
        ds

  -- The time of the next reading and the device, where there is one; the code panics on none.
  abbrev pub choice : List (ModbusDeviceUnit F) → Option (ℕ × ℕ)
  choice [] = none
  choice (d ∷ ds) = some (choose 0 d.next_read_at 0 (d ∷ ds))

  abbrev pub is_active : Option (ModbusDeviceUnit F) → Bool
  is_active none = false
  is_active (some d) = d.is_active

  unfoldable pub when_next_device : ReadMaster F → Run (ReadMaster F × ℕ)
  when_next_device m = elim (choice m.devices) [
    | none ↦ panicked
    | some c ↦
        let m' = record m { current_devise_index = some c.1 } in
        if is_active (get_elem? m.devices c.1) then done (m', c.0) else done (m', 1000)
  ]

  -- `saturating_sub` of the clock.
  unfoldable pub when_next : World → ReadMaster F → Run (ReadMaster F × ℕ)
  unfolding when_next_device
  when_next w m =
      if is_empty m.devices
      then done (m, 60000)
      else if not m.ctx
      then done (m, m.last_connecting_time - get_time w m.ops)
      else and_then (when_next_device m) (λ r. done (r.0, r.1 - get_time w m.ops))

  abbrev pub bump : ℕ → List (ModbusDeviceUnit F) → Option (List (ModbusDeviceUnit F))
  bump i ds = elim (get_elem? ds i) [
    | none ↦ none
    | some d ↦ some (set ds i (unit.increase_timeout d))
  ]

  abbrev reconnect : World → ReadMaster F → ReadMaster F
  unfolding create_context disconnecting
  reconnect w m =
      let m1 = disconnecting w m in
      let (m2, made) = create_context w (record m1 { ops = suc m1.ops }) in
      if made then m2 else disconnecting w m2

  -- `increase_timeout`, the pause being one operation; an index out of range panics.
  unfoldable pub increase_timeout : World → Option ℕ → ReadMaster F → Run (ReadMaster F)
  unfolding reconnect
  increase_timeout w none m = done (reconnect w m)
  increase_timeout w (some i) m = elim (bump i m.devices) [
    | none ↦ panicked
    | some ds ↦ done (reconnect w (record m { devices = ds }))
  ]

  -- The event for the controller, and the time of the next reading. The sending and the pause after
  -- it are one operation.
  abbrev pub report :
      ReadMaster F → ℕ → ModbusDeviceUnit F → ℕ → Pass F → Option ℕ → Run (ReadMaster F)
  unfolding read_report
  report m idx device total s none = panicked
  report m idx device total s (some now) = done (
      send (device_event device.id (read_report s.failed_steps total) s.total_result)
        (record m { devices = set m.devices idx (finished now device); ops = suc m.ops }))

  -- What follows the pass over device `idx`, by the way the pass ended.
  unfoldable pub end_pass :
      World
      → ReadMaster F
      → ℕ
      → ModbusDeviceUnit F
      → ℕ
      → Pass F
      → Option SweepEnd
      → Run (ReadMaster F)
  unfolding disconnecting increase_timeout report
  end_pass w m idx device total s (some socket_lost) = done (disconnecting w m)
  end_pass w m idx device total s (some overrun) = panicked
  end_pass w m idx device total s (some cut_off) = waiting
  end_pass w m idx device total s (some (mismatch true)) =
      increase_timeout w m.current_devise_index
        (record m { lastest_device_index = m.current_devise_index })
  end_pass w m idx device total s (some (mismatch false)) =
      increase_timeout w m.lastest_device_index
        (record m { lastest_device_index = m.current_devise_index })
  end_pass w m idx device total s none =
      report (record m { lastest_device_index = m.current_devise_index }) idx device total s
        (w.clock s.ops)

module _ (fl : Floats) (serde : Serde) (w : World) where
  open fl use {F}

  -- The pass over a device that is active, with a context, and what follows it.
  unfoldable pub read_device : ReadMaster F → ℕ → ModbusDeviceUnit F → Run (ReadMaster F)
  unfolding end_pass
  read_device m idx device =
      let (pool, s) =
        sweep_pool fl w.reply w.clock (residue (2 ^ 8) device.address) device.timeout
          (residue (2 ^ 64) device.retry_count) device.value_pool m.ops in
      let swept = record device { value_pool = pool } in
      end_pass w (record m { devices = set m.devices idx swept; ops = s.ops }) idx swept
        (total_steps device.value_pool) s s.stop

  -- `self.devices[idx]` panics out of range; a device that is not active is not read.
  unfoldable pub read_found : ReadMaster F → ℕ → Option (ModbusDeviceUnit F) → Run (ReadMaster F)
  unfolding read_device
  read_found m idx none = panicked
  read_found m idx (some device) =
      if not device.is_active || not m.ctx then done m else read_device m idx device

  unfoldable pub read_at : ReadMaster F → Option ℕ → Run (ReadMaster F)
  unfolding read_found
  read_at m none = done m
  read_at m (some idx) = read_found m idx (get_elem? m.devices idx)

  unfoldable pub read : ReadMaster F → Run (ReadMaster F)
  unfolding read_at
  read m = read_at m m.current_devise_index

  -- `get_devises` asks until it is answered; here for at most so many times.
  unfoldable pub get_devises : ℕ → ℤ → ℕ → Option (List DeviceRead) × ℕ
  get_devises zero id ops = (none, ops)
  get_devises (suc n) id ops = elim (w.devices ops id) [
    | none ↦ get_devises n id (suc ops)
    | some devices ↦ (some devices, suc ops)
  ]

  -- The units of the devices whose values can be had.
  unfoldable pub get_units : List DeviceRead → ℕ → Run (List (ModbusDeviceUnit F) × ℕ)
  get_units [] ops = done ([], ops)
  get_units (d ∷ ds) ops =
      let rest = get_units ds (suc ops) in
      elim (w.clock ops) [
        | none ↦ panicked
        | some now ↦ and_then rest (λ r. elim (w.values ops d.id) [
          | none ↦ done r
          | some values ↦ done (set_values fl serde values (new_device now d) ∷ r.0, r.1)
        ])
      ]

  unfoldable pub create_devices : ℕ → ReadMaster F → Run (ReadMaster F × Bool)
  unfolding when_next_device
  create_devices patience m =
      let (answer, ops) = get_devises patience m.id m.ops in
      elim answer [
        | none ↦ waiting
        | some devices ↦
            if is_empty devices
            then done (record m { devices = []; ops = ops }, false)
            else and_then (get_units devices ops) (λ r.
              and_then (when_next_device (record m { devices = r.0; ops = r.1 }))
                (λ c. done (c.0, true)))
      ]

  unfoldable pub tick : ℕ → ReadMaster F → Run (ReadMaster F)
  unfolding read create_devices create_context
  tick patience m =
      and_then (if is_empty m.devices then create_devices patience m else done (m, true)) (λ r.
        if r.1
        then (let (m', made) = if r.0.ctx then (r.0, true) else create_context w r.0 in
            if made then read m' else done m')
        else done r.0)

  unfoldable pub update : ℕ → NodeRead → ReadMaster F → Run (ReadMaster F)
  unfolding create_devices create_context
  update patience conf m =
      let moved = not (str_eq m.ip conf.ip) || not (eqb_ℤ m.port (port_of conf)) in
      let m' =
        if moved
        then (create_context w (record m { ip = conf.ip; port = port_of conf })).0
        else m in
      and_then (create_devices patience m') (λ r. done r.0)

  -- What a round of `node_loop` waits for.
  pub data Input : Type 0 where
    config_event : ConfigEventType → NodeRead → Input
    channel_error slept : Input

  -- A round of `node_loop`: the master and the next pause, or `none` where the loop returns.
  unfoldable pub handle : ℕ → ReadMaster F → Input → Run (Option (ReadMaster F))
  unfolding tick update
  handle patience m (config_event update_node conf) =
      if eqb_ℤ conf.id m.id
      then and_then (update patience conf m) (λ m'. done (some m'))
      else done (some m)
  handle patience m (config_event delete_node conf) =
      if eqb_ℤ conf.id m.id then done none else done (some m)
  handle patience m (config_event create_node conf) = done (some m)
  handle patience m channel_error = done (some m)
  handle patience m slept = and_then (tick patience m) (λ m'. done (some m'))

  unfoldable pub node_round : ℕ → ReadMaster F → Input → Run (Option (ReadMaster F × ℕ))
  unfolding handle when_next
  node_round patience m event = and_then (handle patience m event) (λ o. elim o [
    | none ↦ done none
    | some m' ↦ and_then (when_next w m') (λ r. done (some (r.0, if ltb r.1 20 then 20 else r.1)))
  ])
