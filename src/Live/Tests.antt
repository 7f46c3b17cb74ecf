-- ===== src/Live/Tests.antt =====
-- Examples of live views.
use modbus_tcplogger.Common.{Bool, true, refl, List, [], ◌∷◌, ◌≡◌}
use modbus_tcplogger.Common.Int.{ℤ, pos}
use modbus_tcplogger.Common.Sample.{whole}
use modbus_tcplogger.Measures.{ModbusMeasure}
use modbus_tcplogger.ReadMaster.{connected, full}
use modbus_tcplogger.Live.{
  FlushPayload, CoordUnitWebSocketData, Coord, on_node_event, on_device_event,
}
use modbus_tcplogger.Live.Watch.{latest, lookup}
use modbus_tcplogger.Live.View.{Shows, Every, on_node_event-Shows, on_device_event-Shows}

abbrev viewer : CoordUnitWebSocketData ℤ
viewer = record {
  tags = "volts" ∷ [];
  devises = pos 1 ∷ [];
  nodes = pos 1 ∷ [];
  nodes_change = [];
  devise_change = [];
  value_change = [];
  got = record { nodes = []; devices = []; values = [] };
}

abbrev coord : Coord ℤ
coord = record { nodes = []; devises = []; values = []; subscribers = (0, viewer) ∷ [] }

abbrev writes : FlushPayload ℤ → Bool
writes p = true

abbrev takes : CoordUnitWebSocketData ℤ → Bool
takes u = true

writes_all : (p : FlushPayload ℤ) → writes p ≡ true
writes_all p = refl

nothing_yet : Every (Shows coord) coord.subscribers
unfolding latest lookup
nothing_yet = (((λ t a. refl), (λ t a. refl), λ t a. refl), tt)

abbrev readings : List (ModbusMeasure ℤ)
readings =
    record {
      measure_value = pos 9;
      is_logging = true;
      value_id = 1;
      tag = "volts";
      measure_time = pos 5;
    }
    ∷ []

on_node_event-Shows_example :
    Every
      (Shows (on_node_event writes takes (pos 1) connected coord))
      (on_node_event writes takes (pos 1) connected coord).subscribers
on_node_event-Shows_example =
    on_node_event-Shows writes takes writes_all (pos 1) connected coord nothing_yet

on_device_event-Shows_example :
    Every
      (Shows (on_device_event whole writes takes (pos 1) full readings coord))
      (on_device_event whole writes takes (pos 1) full readings coord).subscribers
on_device_event-Shows_example =
    on_device_event-Shows whole writes takes writes_all (pos 1) full readings coord nothing_yet
