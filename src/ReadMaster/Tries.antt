-- ===== src/ReadMaster/Tries.antt =====
-- How many requests each step of a pass takes.
use modbus_tcplogger.Common.{ℕ, ◌+◌, ◌-◌, List, [], ◌∷◌, Option, none}
use modbus_tcplogger.Common.Float.{Floats}
use modbus_tcplogger.Pool.{ReadStep, PollValueIterator}
use modbus_tcplogger.Pool.Walk.{all_steps}
use modbus_tcplogger.ReadMaster.Step.{Reply, Request}
use modbus_tcplogger.ReadMaster.Sweep.{Pass, visit}

abbrev pub sum : List ℕ → ℕ
sum [] = 0
sum (n ∷ ns) = n + sum ns

module _ (fl : Floats) (reply : ℕ → Request → Reply) (clock : ℕ → Option ℕ)
    (slave time retry_count : ℕ) where
  open fl use {F}

  -- The requests made while each step is visited, in the order of the steps.
  abbrev pub tries : List (ReadStep F) → Pass F → List ℕ
  tries [] s = []
  tries (step ∷ steps) s =
      let s' = (visit fl reply clock slave time retry_count step s).1 in
      (s'.ops - s.ops) ∷ tries steps s'

  abbrev pub pool_tries : PollValueIterator F → ℕ → List ℕ
  pool_tries pool ops =
      tries (all_steps pool)
        (record { total_result = []; failed_steps = 0; ops = ops; stop = none })
