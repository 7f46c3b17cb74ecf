-- ===== src/Live.antt =====
-- src/api/web_sockets: web_sock_coord.rs and live_socket_unit.rs. The coordinator keeps the last state of
-- each node, device and value and tells each subscriber what changes. The client's channel and
-- serde_json are not the program's: they are the functions `serializes` and `accepts`.
pub mod Watch
pub mod View
mod Tests
use Prim.Native.String.{String}
use text.Mathlib.Text.{◌==◌ as str_eq}
use modbus_tcplogger.Common.{
  ℕ, Bool, true, false, ◌&&◌, ◌==◌, List, [], ◌∷◌, ◌++◌, map, if◌then◌else◌, is_empty,
}
use modbus_tcplogger.Common.Int.{ℤ, eqb_ℤ}
use modbus_tcplogger.Common.Float.{Floats}
use modbus_tcplogger.Measures.{ModbusMeasure}
use modbus_tcplogger.ReadMaster.{
  NodeEventType, connected, un_connected, connecting, DeviceEventType, full, some_part, failed,
}
use modbus_tcplogger.Live.Watch.{check_change, contains, note_change}

-- `==` of the two enums
abbrev pub node_rank : NodeEventType → ℕ
node_rank connected = 0
node_rank un_connected = 1
node_rank connecting = 2

abbrev pub device_rank : DeviceEventType → ℕ
device_rank full = 0
device_rank some_part = 1
device_rank failed = 2

abbrev pub node_eq : NodeEventType → NodeEventType → Bool
node_eq a b = node_rank a == node_rank b

abbrev pub device_eq : DeviceEventType → DeviceEventType → Bool
device_eq a b = device_rank a == device_rank b

-- What one message to a client holds.
pub record FlushPayload (F : Type 0) : Type 0 where
  pub nodes : List (ℤ × NodeEventType)
  pub devices : List (ℤ × DeviceEventType)
  pub values : List (String × F)

-- A subscriber, with all that its client has been sent.
pub record CoordUnitWebSocketData (F : Type 0) : Type 0 where
  pub tags : List String
  pub devises : List ℤ
  pub nodes : List ℤ
  pub nodes_change : List (ℤ × NodeEventType)
  pub devise_change : List (ℤ × DeviceEventType)
  pub value_change : List (String × F)
  pub got : FlushPayload F

-- The state of `web_sock_coord`.
pub record Coord (F : Type 0) : Type 0 where
  pub nodes : List (ℤ × NodeEventType)
  pub devises : List (ℤ × DeviceEventType)
  pub values : List (String × F)
  pub subscribers : List (ℕ × CoordUnitWebSocketData F)

module _ {F : Type 0} where
  unfoldable pub node_events :
      ℤ → NodeEventType → CoordUnitWebSocketData F → CoordUnitWebSocketData F
  node_events id state u = record u {
    nodes_change = note_change eqb_ℤ u.nodes id state u.nodes_change;
  }

  unfoldable pub device_events :
      ℤ → DeviceEventType → CoordUnitWebSocketData F → CoordUnitWebSocketData F
  device_events id state u = record u {
    devise_change = note_change eqb_ℤ u.devises id state u.devise_change;
  }

  unfoldable pub value_events : String → F → CoordUnitWebSocketData F → CoordUnitWebSocketData F
  value_events tag value u = record u {
    value_change = note_change str_eq u.tags tag value u.value_change;
  }

  -- `for unit in subscribers.values_mut()`
  unfoldable pub each_unit :
      (CoordUnitWebSocketData F → CoordUnitWebSocketData F)
      → List (ℕ × CoordUnitWebSocketData F)
      → List (ℕ × CoordUnitWebSocketData F)
  each_unit f [] = []
  each_unit f ((id, u) ∷ us) = (id, f u) ∷ each_unit f us

  abbrev pub payload_of : CoordUnitWebSocketData F → FlushPayload F
  payload_of u = record {
    nodes = u.nodes_change;
    devices = u.devise_change;
    values = u.value_change;
  }

  abbrev pub append_payload : FlushPayload F → FlushPayload F → FlushPayload F
  append_payload a b = record {
    nodes = a.nodes ++ b.nodes;
    devices = a.devices ++ b.devices;
    values = a.values ++ b.values;
  }

  abbrev pub cleared : CoordUnitWebSocketData F → CoordUnitWebSocketData F
  cleared u = record u { nodes_change = []; devise_change = []; value_change = [] }

  module _ (serializes : FlushPayload F → Bool) (accepts : CoordUnitWebSocketData F → Bool) where
    -- The `Bool` is false where the unit is to be dropped.
    unfoldable pub flush_unit : CoordUnitWebSocketData F → CoordUnitWebSocketData F × Bool
    flush_unit u =
        if is_empty u.nodes_change && (is_empty u.devise_change && is_empty u.value_change)
        then (u, true)
        else if serializes (payload_of u)
        then if accepts u
          then (cleared (record u { got = append_payload u.got (payload_of u) }), true)
          else (cleared u, false)
        else (cleared u, true)

    unfoldable pub flush_subscribers :
        List (ℕ × CoordUnitWebSocketData F) → List (ℕ × CoordUnitWebSocketData F)
    flush_subscribers [] = []
    flush_subscribers ((id, u) ∷ us) =
        let (u', alive) = flush_unit u in
        let rest = flush_subscribers us in if alive then (id, u') ∷ rest else rest

    unfoldable pub on_node_event : ℤ → NodeEventType → Coord F → Coord F
    on_node_event id event c =
        let (nodes', changed) = check_change eqb_ℤ node_eq c.nodes id event in
        if changed
        then record c {
          nodes = nodes';
          subscribers = flush_subscribers (each_unit (node_events id event) c.subscribers);
        }
        else record c { nodes = nodes' }

    unfoldable pub note_device : ℤ → DeviceEventType → Coord F → Coord F
    note_device id event c =
        let (devises', changed) = check_change eqb_ℤ device_eq c.devises id event in
        if changed
        then record c {
          devises = devises';
          subscribers = each_unit (device_events id event) c.subscribers;
        }
        else record c { devises = devises' }

module _ (fl : Floats) where
  open fl use {F, feq}

  unfoldable pub note_value : String → F → Coord F → Coord F
  note_value tag value c =
      let (values', changed) = check_change str_eq feq c.values tag value in
      if changed
      then record c {
        values = values';
        subscribers = each_unit (value_events tag value) c.subscribers;
      }
      else record c { values = values' }

  unfoldable pub note_values : List (ModbusMeasure F) → Coord F → Coord F
  note_values [] c = c
  note_values (m ∷ ms) c = note_values ms (note_value m.tag m.measure_value c)

  unfoldable pub on_device_event :
      (FlushPayload F → Bool)
      → (CoordUnitWebSocketData F → Bool)
      → ℤ
      → DeviceEventType
      → List (ModbusMeasure F)
      → Coord F
      → Coord F
  on_device_event serializes accepts id event measures c =
      let c' = note_values measures (note_device serializes accepts id event c) in
      record c' { subscribers = flush_subscribers serializes accepts c'.subscribers }

  -- `first_write`, which tells a new subscriber all that is known.
  unfoldable pub tell_nodes :
      List (ℤ × NodeEventType) → CoordUnitWebSocketData F → CoordUnitWebSocketData F
  tell_nodes [] u = u
  tell_nodes ((id, state) ∷ m) u = tell_nodes m (node_events id state u)

  unfoldable pub tell_devises :
      List (ℤ × DeviceEventType) → CoordUnitWebSocketData F → CoordUnitWebSocketData F
  tell_devises [] u = u
  tell_devises ((id, state) ∷ m) u = tell_devises m (device_events id state u)

  unfoldable pub tell_values :
      List (String × F) → CoordUnitWebSocketData F → CoordUnitWebSocketData F
  tell_values [] u = u
  tell_values ((tag, value) ∷ m) u = tell_values m (value_events tag value u)

  unfoldable pub first_write :
      (FlushPayload F → Bool)
      → (CoordUnitWebSocketData F → Bool)
      → Coord F
      → CoordUnitWebSocketData F
      → CoordUnitWebSocketData F × Bool
  first_write serializes accepts c u =
      flush_unit serializes accepts
        (tell_values c.values (tell_devises c.devises (tell_nodes c.nodes u)))

  unfoldable pub remove :
      ℕ → List (ℕ × CoordUnitWebSocketData F) → List (ℕ × CoordUnitWebSocketData F)
  remove id [] = []
  remove id ((k, u) ∷ us) = let rest = remove id us in if k == id then rest else (k, u) ∷ rest

  -- `CoordUnitWebSocketCommand`, with what the coordinator does with it.
  pub data Command : Type 0 where
    new_unit : ℕ → CoordUnitWebSocketData F → Command
    change_unit : ℕ → ℕ → CoordUnitWebSocketData F → Command
    delete_unit : ℕ → Command

  unfoldable pub subscribe :
      (FlushPayload F → Bool)
      → (CoordUnitWebSocketData F → Bool)
      → ℕ
      → CoordUnitWebSocketData F
      → Coord F
      → Coord F
  unfolding first_write
  subscribe serializes accepts id u c =
      let (u', alive) = first_write serializes accepts c u in
      if alive then record c { subscribers = (id, u') ∷ remove id c.subscribers } else c

  unfoldable pub on_command :
      (FlushPayload F → Bool) → (CoordUnitWebSocketData F → Bool) → Command → Coord F → Coord F
  unfolding subscribe
  on_command serializes accepts (new_unit id u) c = subscribe serializes accepts id u c
  on_command serializes accepts (change_unit old_id new_id u) c =
      subscribe serializes accepts new_id u (record c { subscribers = remove old_id c.subscribers })
  on_command serializes accepts (delete_unit id) c = record c {
    subscribers = remove id c.subscribers;
  }
