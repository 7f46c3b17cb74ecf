-- ===== src/Measures/Tests.antt =====
-- Examples of saving.
use modbus_tcplogger.Common.{ℕ, ◌≡◌, true, List, [], ◌∷◌, ◌++◌}
use modbus_tcplogger.Common.Int.{ℤ, pos}
use modbus_tcplogger.Common.Sample.{whole}
use modbus_tcplogger.Measures.{ModbusMeasure, Outcome, committed, find, Master, write_measure}
use modbus_tcplogger.Measures.Laws.{
  Honest, stored, follow, measures_of, handed, write_measure-stored, find-write_measure,
}

abbrev measure : ℕ → ℕ → ℕ → ModbusMeasure ℤ
measure id value time = record {
  measure_value = pos value;
  is_logging = true;
  value_id = id;
  tag = "volts";
  measure_time = pos time;
}

abbrev measures : List (ModbusMeasure ℤ)
measures = measure 1 10 100 ∷ measure 2 7 100 ∷ measure 1 12 101 ∷ []

abbrev empty : Master ℤ
empty = record { hashed_map = []; db_unit = record { buff = []; rows = []; flushes = 0 } }

abbrev all_well : ℕ → Outcome
all_well n = committed

all_well-Honest : Honest all_well
all_well-Honest n e = cc

write_measure-stored_example :
    stored (write_measure whole all_well empty measures).db_unit
    ≡ stored empty.db_unit ++ handed whole empty.hashed_map measures
write_measure-stored_example = write_measure-stored whole all_well empty measures all_well-Honest

find-write_measure_example :
    find (pos 1) (write_measure whole all_well empty measures).hashed_map
    ≡ (follow whole (find (pos 1) empty.hashed_map) (measures_of whole (pos 1) measures)).0
find-write_measure_example = find-write_measure whole all_well empty measures (pos 1)
