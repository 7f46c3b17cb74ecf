-- ===== src/ReadMaster/Retry.antt =====
-- The tries of a step are bounded, and a pass over a device ends.
use mathlib.Core.Path.{subst}
use modbus_tcplogger.Common.{
  ℕ, zero, suc, ◌+◌, ◌*◌, length, ◌≤◌, ◌<◌, ◌≡◌, refl, sym, Bool, true, false, Option, none, some,
  inl, inr, List, [], ◌∷◌, arith, ltb, if◌then◌else◌, Bool-cases, Option-cases,
}
use modbus_tcplogger.Common.Float.{Floats}
use modbus_tcplogger.Pool.{ReadStep, PollValueIterator, total_steps}
use modbus_tcplogger.Pool.Unit.{step_value}
use modbus_tcplogger.ReadMaster.Step.{
  Reply, Request, request_of, ModbusReadResult, ok, err, timeout, device_protocol_error,
  socket_fail, remove_step, header_mis_match, StepEnd, read_ok, gave_up, removed, socket_failed,
  panic, endless, mismatched, judge, try_step, read_process,
}
use modbus_tcplogger.ReadMaster.Sweep.{
  Pass, SweepEnd, socket_lost, overrun, cut_off, mismatch, settle, visit, sweep, sweep_pool,
}

module _ (fl : Floats) (reply : ℕ → Request → Reply) (clock : ℕ → Option ℕ) where
  open fl use {F}

  abbrev pub ends : StepEnd F → Bool
  ends endless = false
  ends (read_ok ms) = true
  ends gave_up = true
  ends removed = true
  ends socket_failed = true
  ends panic = true
  ends (mismatched b) = true

  -- The loop has ended, after one request at least and after no more than it may make.
  abbrev pub Ended : ℕ → ℕ → ℕ → StepEnd F × ℕ → Type 0
  Ended retry_count curr_try ops r =
      (ends r.0 ≡ true)
      × (ops < r.1)
      × (r.1 + curr_try
          ≤ ops + (if ltb (suc curr_try) retry_count then retry_count else suc curr_try))

  judge-Ended :
      (retry_count curr_try ops : ℕ) (step : ReadStep F) (again : StepEnd F × ℕ)
      (r : ModbusReadResult)
      → (suc curr_try < retry_count → Ended retry_count (suc curr_try) (suc ops) again)
      → Ended retry_count curr_try ops
          (judge fl reply clock retry_count step curr_try (suc ops) again r)
  judge-Ended retry_count curr_try ops step again (ok ws) more =
      elim (Option-cases (step_value fl step ws (clock (suc ops)))) [
        | inl short ↦ rw short (refl, ground arith, ground arith)
        | inr (ms, read) ↦ rw read (refl, ground arith, ground arith)
      ]
  judge-Ended retry_count curr_try ops step again (err timeout) more = ground (arith, more)
  judge-Ended retry_count curr_try ops step again (err device_protocol_error) more =
      ground (arith, more)
  judge-Ended retry_count curr_try ops step again (err socket_fail) more =
      (refl, omega arith, ground arith)
  judge-Ended retry_count curr_try ops step again (err remove_step) more =
      (refl, omega arith, ground arith)
  judge-Ended retry_count curr_try ops step again (err header_mis_match) more =
      (refl, omega arith, ground arith)

  pub try_step-Ended :
      (n : ℕ) (request : Request) (retry_count : ℕ) (step : ReadStep F) (curr_try ops : ℕ)
      → retry_count < curr_try + n
      → 0 < n
      → Ended retry_count curr_try ops
          (try_step fl reply clock n request retry_count step curr_try ops)
  unfolding try_step
  try_step-Ended zero request retry_count step curr_try ops h pos_n = absurd (omega arith)
  try_step-Ended (suc n) request retry_count step curr_try ops h pos_n =
      judge-Ended retry_count curr_try ops step _ (read_process (reply ops request)) (λ more.
        try_step-Ended n request retry_count step (suc curr_try) (suc ops) (omega arith)
          (omega arith))

  abbrev pub is_cut_off : Option SweepEnd → Bool
  is_cut_off none = false
  is_cut_off (some socket_lost) = false
  is_cut_off (some overrun) = false
  is_cut_off (some cut_off) = true
  is_cut_off (some (mismatch b)) = false

  -- The most requests that one step takes.
  abbrev pub most_tries : ℕ → ℕ
  most_tries retry_count = if ltb 1 retry_count then retry_count else 1

  -- The pass goes on or has ended by itself, after at most `k` more requests.
  abbrev pub Within : ℕ → ℕ → Pass F → Type 0
  Within ops k s = (is_cut_off s.stop ≡ false) × (ops ≤ s.ops) × (s.ops ≤ ops + k)

  settle-Within :
      (step : ReadStep F) (s : Pass F) (ops k : ℕ) (r : StepEnd F × ℕ)
      → ends r.0 ≡ true
      → is_cut_off s.stop ≡ false
      → ops ≤ r.1
      → r.1 ≤ ops + k
      → Within ops k (settle fl reply clock step s r.1 r.0).1
  settle-Within step s ops k (read_ok ms, o) e c g h = (c, g, h)
  settle-Within step s ops k (gave_up, o) e c g h = (c, g, h)
  settle-Within step s ops k (removed, o) e c g h = (c, g, h)
  settle-Within step s ops k (socket_failed, o) e c g h = (refl, g, h)
  settle-Within step s ops k (panic, o) e c g h = (refl, g, h)
  settle-Within step s ops k (endless, o) e c g h = cc
  settle-Within step s ops k (mismatched b, o) e c g h = (refl, g, h)

  pub visit-Within :
      (slave time retry_count : ℕ) (step : ReadStep F) (s : Pass F)
      → is_cut_off s.stop ≡ false
      → Within s.ops (most_tries retry_count) (visit fl reply clock slave time retry_count step s).1
  unfolding visit
  visit-Within slave time retry_count step s c = elim (Option-cases s.stop) [
    | inr (e, stopped) ↦
        let here : (visit fl reply clock slave time retry_count step s).1 ≡ s =
          simp (visit, stopped) refl in
        subst (Within s.ops (most_tries retry_count)) (sym here) (c, omega arith, omega arith)
    | inl going ↦ elim (Bool-cases step.broken) [
      | inl broken ↦
          let here : (visit fl reply clock slave time retry_count step s).1
              ≡ record s { failed_steps = suc s.failed_steps } =
            simp (visit, going, broken) refl in
          subst (Within s.ops (most_tries retry_count)) (sym here) (c, omega arith, omega arith)
      | inr works ↦
          let r =
            try_step fl reply clock (suc retry_count) (request_of slave time step) retry_count step
              0 s.ops in
          let (ended, some_try, few) =
            try_step-Ended (suc retry_count) (request_of slave time step) retry_count step 0 s.ops
              (omega arith) (omega arith) in
          let lim : r.1 ≤ s.ops + most_tries retry_count = ground arith in
          let here : (visit fl reply clock slave time retry_count step s).1
              ≡ (settle fl reply clock step s r.1 r.0).1 =
            simp (visit, going, works) refl in
          subst (Within s.ops (most_tries retry_count)) (sym here)
            (settle-Within step s s.ops (most_tries retry_count) r ended c (omega arith) lim)
    ]
  ]

  sweep-Within :
      (slave time retry_count : ℕ) (steps : List (ReadStep F)) (s : Pass F)
      → is_cut_off s.stop ≡ false
      → Within s.ops
          (length steps * most_tries retry_count)
          (sweep fl reply clock slave time retry_count steps s).1
  unfolding sweep
  sweep-Within slave time retry_count [] s c = (c, omega arith, omega arith)
  sweep-Within slave time retry_count (step ∷ steps) s c =
      let s' = (visit fl reply clock slave time retry_count step s).1 in
      let (c', g, h) = visit-Within slave time retry_count step s c in
      let (c'', g', h') = sweep-Within slave time retry_count steps s' c' in
      (c'', omega arith, omega arith)

  -- A pass over a pool always ends by itself, after at most so many requests in all.
  pub sweep_pool-Within :
      (slave time retry_count : ℕ) (pool : PollValueIterator F) (ops : ℕ)
      → Within ops
          (total_steps pool * most_tries retry_count)
          (sweep_pool fl reply clock slave time retry_count pool ops).1
  unfolding sweep_pool total_steps
  sweep_pool-Within slave time retry_count pool ops =
      let start : Pass F = record { total_result = []; failed_steps = 0; ops = ops; stop = none } in
      let (c1, g1, h1) = sweep-Within slave time retry_count pool.coils start refl in
      let s1 = (sweep fl reply clock slave time retry_count pool.coils start).1 in
      let (c2, g2, h2) = sweep-Within slave time retry_count pool.discrete s1 c1 in
      let s2 = (sweep fl reply clock slave time retry_count pool.discrete s1).1 in
      let (c3, g3, h3) = sweep-Within slave time retry_count pool.holding s2 c2 in
      let s3 = (sweep fl reply clock slave time retry_count pool.holding s2).1 in
      let (c4, g4, h4) = sweep-Within slave time retry_count pool.input s3 c3 in
      (c4, omega arith, omega arith)
