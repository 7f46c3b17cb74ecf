-- ===== src/Pool/Tests.antt =====
-- Examples of pools.
use modbus_tcplogger.Common.{suc, ◌≡◌, true, false, some, List, [], ◌∷◌, map, arith, All}
use modbus_tcplogger.Common.Int.{ℤ, pos, pos_part}
use modbus_tcplogger.Common.Sample.{whole}
use modbus_tcplogger.Plugins.{holding, coils, input, RegisterDecodingPlugin, shift, bit}
use modbus_tcplogger.Plugins.Found.{measure_of}
use modbus_tcplogger.Pool.{
  PollValueIterator, new_step, reg_sort, take_found, total_steps, into_iter,
}
use modbus_tcplogger.Pool.Unit.{decode_each}
use modbus_tcplogger.Pool.Runs.{IsRun, IsSorted, concat, occurrences, reg_sort-IsRun}
use modbus_tcplogger.Pool.{make_steps}
use modbus_tcplogger.Pool.Once.{count, count_in_steps, count-make_steps}
use modbus_tcplogger.Common.{◌≤◌}
use modbus_tcplogger.Pool.Walk.{visited, all_steps, visited-all_steps}
use modbus_tcplogger.Pool.Take.{owners, decode_each-take_found}

abbrev registers : List ℤ
registers = pos 12 ∷ pos 3 ∷ pos 11 ∷ pos 3 ∷ []

reg_sort-IsRun_example :
    All IsRun (reg_sort registers)
    × IsSorted (concat (reg_sort registers))
    × ((a : ℤ) → occurrences a (concat (reg_sort registers)) ≡ occurrences a registers)
reg_sort-IsRun_example = reg_sort-IsRun registers

abbrev two_tables : PollValueIterator ℤ
two_tables = record {
  coils = new_step (pos 1) (pos 1) coils ∷ [];
  discrete = [];
  holding = [];
  input = new_step (pos 4) (pos 2) input ∷ new_step (pos 9) (pos 1) input ∷ [];
}

visited-all_steps_example :
    visited (suc (total_steps two_tables)) two_tables into_iter ≡ all_steps two_tables
visited-all_steps_example = visited-all_steps two_tables

abbrev plugins : List (RegisterDecodingPlugin ℤ)
plugins =
    shift (record {
      id = pos 1;
      tag = "volts";
      addr = pos 4;
      multiplier = pos 10;
      m_type = holding;
      is_logging = true;
      is_init = false;
      pos_in_list = 0;
    })
    ∷ bit (record {
      addr = pos 9;
      tag = "alarm";
      pos_in_list = 0;
      bit_addr = pos 3;
      id = pos 2;
      is_logging = false;
      is_init = false;
      m_type = holding;
    })
    ∷ []

decode_each-take_found_example :
    decode_each whole
      (take_found (pos 4 ∷ pos 5 ∷ []) plugins).1
      (map pos_part (pos 4 ∷ pos 5 ∷ []))
      (pos 8)
    ≡ some (map (λ p. measure_of whole p pos_part (pos 8)) (owners (pos 4 ∷ pos 5 ∷ []) plugins))
decode_each-take_found_example =
    decode_each-take_found whole (pos 4 ∷ pos 5 ∷ []) plugins pos_part (pos 8) (ground arith)

count-make_steps_example :
    count_in_steps (pos 1) (make_steps holding ((pos 4 ∷ []) ∷ (pos 4 ∷ []) ∷ []) plugins)
    ≤ count (pos 1) plugins
count-make_steps_example =
    count-make_steps (pos 1) holding ((pos 4 ∷ []) ∷ (pos 4 ∷ []) ∷ []) plugins
