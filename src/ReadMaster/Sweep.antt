-- ===== src/ReadMaster/Sweep.antt =====
-- One pass over the steps of a device: the `'step_loop` of `read`.
use modbus_tcplogger.Common.{ℕ, suc, Bool, Option, none, some, List, [], ◌∷◌, ◌++◌, if◌then◌else◌}
use modbus_tcplogger.Common.Float.{Floats}
use modbus_tcplogger.Measures.{ModbusMeasure}
use modbus_tcplogger.Pool.{ReadStep, PollValueIterator, mark_broken}
use modbus_tcplogger.Pool.Unit.{step_fail}
use modbus_tcplogger.ReadMaster.Step.{
  Reply, Request, request_of, StepEnd, read_ok, gave_up, removed, socket_failed, panic, endless,
  mismatched, try_step,
}

-- What ends the pass before its last step: a `return`, a `break 'step_loop`, or a panic.
pub data SweepEnd : Type 0 where
  socket_lost overrun cut_off : SweepEnd
  mismatch : Bool → SweepEnd

pub record Pass (F : Type 0) : Type 0 where
  pub total_result : List (ModbusMeasure F)
  pub failed_steps : ℕ
  pub ops : ℕ
  pub stop : Option SweepEnd

module _ (fl : Floats) (reply : ℕ → Request → Reply) (clock : ℕ → Option ℕ) where
  open fl use {F}

  -- What becomes of a step and of the pass when its tries have ended.
  abbrev pub settle : ReadStep F → Pass F → ℕ → StepEnd F → ReadStep F × Pass F
  settle step s ops (read_ok measures) =
      (step, record s { total_result = s.total_result ++ measures; ops = ops })
  settle step s ops gave_up = (
    step,
    record s {
      total_result = s.total_result ++ step_fail fl step (clock ops);
      failed_steps = suc s.failed_steps;
      ops = ops;
    },
  )
  settle step s ops removed = (
    mark_broken step,
    record s {
      total_result = s.total_result ++ step_fail fl step (clock ops);
      failed_steps = suc s.failed_steps;
      ops = ops;
    },
  )
  settle step s ops socket_failed = (step, record s { ops = ops; stop = some socket_lost })
  settle step s ops (mismatched again) =
      (step, record s { ops = ops; stop = some (mismatch again) })
  settle step s ops panic = (step, record s { ops = ops; stop = some overrun })
  settle step s ops endless = (step, record s { ops = ops; stop = some cut_off })

  -- A round of the pass. No round is made once it has been ended.
  unfoldable pub visit : ℕ → ℕ → ℕ → ReadStep F → Pass F → ReadStep F × Pass F
  visit slave timeout_duration retry_count step s = elim s.stop [
    | some e ↦ (step, s)
    | none ↦
        if step.broken
        then (step, record s { failed_steps = suc s.failed_steps })
        else (let r =
              try_step fl reply clock (suc retry_count) (request_of slave timeout_duration step)
                retry_count step 0 s.ops in
            settle step s r.1 r.0)
  ]

  unfoldable pub sweep : ℕ → ℕ → ℕ → List (ReadStep F) → Pass F → List (ReadStep F) × Pass F
  sweep slave timeout_duration retry_count [] s = ([], s)
  sweep slave timeout_duration retry_count (step ∷ steps) s =
      let (step', s') = visit slave timeout_duration retry_count step s in
      let (steps', t) = sweep slave timeout_duration retry_count steps s' in (step' ∷ steps', t)

  -- The pass over the pool, in the order of its iterator.
  unfoldable pub sweep_pool : ℕ → ℕ → ℕ → PollValueIterator F → ℕ → PollValueIterator F × Pass F
  sweep_pool slave timeout_duration retry_count pool ops =
      let start : Pass F = record { total_result = []; failed_steps = 0; ops = ops; stop = none } in
      let (cs, s1) = sweep slave timeout_duration retry_count pool.coils start in
      let (ds, s2) = sweep slave timeout_duration retry_count pool.discrete s1 in
      let (hs, s3) = sweep slave timeout_duration retry_count pool.holding s2 in
      let (is, s4) = sweep slave timeout_duration retry_count pool.input s3 in
      (record { coils = cs; discrete = ds; holding = hs; input = is }, s4)
