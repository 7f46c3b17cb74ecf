-- ===== src/ReadMaster/Reports.antt =====
-- What a pass over the steps of a device reports.
use mathlib.Core.Path.{subst}
use modbus_tcplogger.Common.{
  ℕ, zero, suc, ◌^◌, ◌≡◌, ◌≢◌, refl, sym, ap, ap₂, ◌∙◌, Option, none, some, inl, inr, List, [], ◌∷◌,
  ◌++◌, map, append_assoc, append-nil, Bool-cases, Option-cases, if◌then◌else◌, leb, arith,
}
use modbus_tcplogger.Common.Int.{ℤ, residue}
use modbus_tcplogger.Common.Float.{Floats}
use modbus_tcplogger.Measures.{ModbusMeasure}
use modbus_tcplogger.Plugins.{RegisterDecodingPlugin, bit, satec, shift, get_id}
use modbus_tcplogger.Plugins.Decode.{
  get_value, get_value_bit, get_value_satec, get_value_shift, fail,
}
use modbus_tcplogger.Pool.{ReadStep, both_some}
use modbus_tcplogger.Pool.Unit.{decode_each, seconds, step_value, step_fail}
use modbus_tcplogger.ReadMaster.Step.{
  Reply, Request, request_of, ModbusReadResult, ok, err, timeout, device_protocol_error,
  socket_fail, remove_step, header_mis_match, StepEnd, read_ok, gave_up, removed, socket_failed,
  panic, endless, mismatched, accept, judge, try_step, read_process,
}
use modbus_tcplogger.ReadMaster.Sweep.{Pass, settle, visit, sweep}

module _ {F : Type 0} where
  abbrev pub id32 : RegisterDecodingPlugin F → ℕ
  id32 p = residue (2 ^ 32) (get_id p)

  -- The ids of the values that the steps carry, without those of the broken steps.
  unfoldable pub live_ids : List (ReadStep F) → List ℕ
  live_ids [] = []
  live_ids (step ∷ steps) =
      let rest = live_ids steps in if step.broken then rest else map id32 step.values ++ rest

  live_ids-cons :
      (step : ReadStep F) (steps : List (ReadStep F))
      → live_ids (step ∷ []) ++ live_ids steps ≡ live_ids (step ∷ steps)
  unfolding live_ids
  live_ids-cons step steps = elim (Bool-cases step.broken) [
    | inl broken ↦ simp (live_ids, broken) refl
    | inr works ↦
        simp (live_ids, works) (ap (λ l. l ++ live_ids steps) (append-nil (map id32 step.values)))
  ]

  abbrev pub ids : List (ModbusMeasure F) → List ℕ
  ids ms = map (λ m. m.value_id) ms

map-append : {A B : Type 0} (f : A → B) (xs ys : List A) → map f (xs ++ ys) ≡ map f xs ++ map f ys
map-append f [] ys = refl
map-append f (x ∷ xs) ys = ap (λ l. f x ∷ l) (map-append f xs ys)

module _ (fl : Floats) where
  open fl use {F}

  value_id-get_value :
      (p : RegisterDecodingPlugin F) (words : List ℕ) (t : ℤ) (m : ModbusMeasure F)
      → get_value fl p words t ≡ some m
      → m.value_id ≡ id32 p
  unfolding get_value get_value_bit get_value_satec get_value_shift get_id
  value_id-get_value (bit p) words t m e = ground arith
  value_id-get_value (satec p) words t m e = ground arith
  value_id-get_value (shift p) words t m e = ground arith

  ids-decode_each :
      (ps : List (RegisterDecodingPlugin F)) (words : List ℕ) (t : ℤ) (ms : List (ModbusMeasure F))
      → decode_each fl ps words t ≡ some ms
      → ids ms ≡ map id32 ps
  unfolding decode_each
  ids-decode_each [] words t ms e = let nil : [] ≡ ms = cc in ap ids (sym nil)
  ids-decode_each (p ∷ ps) words t ms e = elim (Option-cases (get_value fl p words t)) [
    | inl short ↦
        let clash = sym (ap (λ o. both_some o (decode_each fl ps words t)) short) ∙ e in cc
    | inr (n, read) ↦ elim (Option-cases (decode_each fl ps words t)) [
      | inl short ↦ let clash = sym (ap₂ both_some read short) ∙ e in cc
      | inr (ns, rest) ↦
          let both : some (n ∷ ns) ≡ some ms = sym (ap₂ both_some read rest) ∙ e in
          let all : n ∷ ns ≡ ms = cc in
          ap ids (sym all)
          ∙ ap₂ (λ i l. i ∷ l) (value_id-get_value p words t n read)
              (ids-decode_each ps words t ns rest)
    ]
  ]

  ids-fail :
      (ps : List (RegisterDecodingPlugin F)) (t : ℤ) → ids (map (λ p. fail fl p t) ps) ≡ map id32 ps
  unfolding fail get_id
  ids-fail [] t = refl
  ids-fail (bit p ∷ ps) t = ap (λ l. residue (2 ^ 32) p.id ∷ l) (ids-fail ps t)
  ids-fail (satec p ∷ ps) t = ap (λ l. residue (2 ^ 32) p.id ∷ l) (ids-fail ps t)
  ids-fail (shift p ∷ ps) t = ap (λ l. residue (2 ^ 32) p.id ∷ l) (ids-fail ps t)

module _ (fl : Floats) (reply : ℕ → Request → Reply) (clock : ℕ → Option ℕ) where
  open fl use {F}

  -- A step that is read gives one measure for each of its values.
  abbrev pub Good : ReadStep F → StepEnd F → Type 0
  Good step (read_ok ms) = ids ms ≡ map id32 step.values
  Good step gave_up = Unit
  Good step removed = Unit
  Good step socket_failed = Unit
  Good step panic = Unit
  Good step endless = Unit
  Good step (mismatched b) = Unit

  accept-Good :
      (step : ReadStep F) (o : Option (List (ModbusMeasure F))) (ws : List ℕ) (now : Option ℕ)
      → now ≢ none
      → step_value fl step ws now ≡ o
      → Good step (accept fl reply clock o)
  accept-Good step none ws now told e = tt
  accept-Good step (some ms) ws none told e = absurd (told refl)
  accept-Good step (some ms) ws (some now) told e =
      ids-decode_each fl step.values ws (seconds fl now) ms e

  again-Good :
      (retry_count curr_try after : ℕ) (step : ReadStep F) (again : StepEnd F × ℕ)
      → Good step again.0
      → Good step (if leb retry_count (suc curr_try) then (gave_up, after) else again).0
  again-Good retry_count curr_try after step again g =
      elim (Bool-cases (leb retry_count (suc curr_try))) [
        | inl last_try ↦
            subst (λ b. Good step (if b then (gave_up, after) else again).0) (sym last_try) tt
        | inr more ↦ subst (λ b. Good step (if b then (gave_up, after) else again).0) (sym more) g
      ]

  judge-Good :
      (retry_count curr_try after : ℕ) (step : ReadStep F) (again : StepEnd F × ℕ)
      (r : ModbusReadResult)
      → ((n : ℕ) → clock n ≢ none)
      → Good step again.0
      → Good step (judge fl reply clock retry_count step curr_try after again r).0
  judge-Good retry_count curr_try after step again (ok ws) told g =
      accept-Good step (step_value fl step ws (clock after)) ws (clock after) (told after) refl
  judge-Good retry_count curr_try after step again (err timeout) told g =
      again-Good retry_count curr_try after step again g
  judge-Good retry_count curr_try after step again (err device_protocol_error) told g =
      again-Good retry_count curr_try after step again g
  judge-Good retry_count curr_try after step again (err socket_fail) told g = tt
  judge-Good retry_count curr_try after step again (err remove_step) told g = tt
  judge-Good retry_count curr_try after step again (err header_mis_match) told g = tt

  try_step-Good :
      (n : ℕ) (request : Request) (retry_count : ℕ) (step : ReadStep F) (curr_try ops : ℕ)
      → ((k : ℕ) → clock k ≢ none)
      → Good step (try_step fl reply clock n request retry_count step curr_try ops).0
  unfolding try_step
  try_step-Good zero request retry_count step curr_try ops told = tt
  try_step-Good (suc n) request retry_count step curr_try ops told =
      judge-Good retry_count curr_try (suc ops) step _ (read_process (reply ops request)) told
        (try_step-Good n request retry_count step (suc curr_try) (suc ops) told)

  -- A pass that has not been ended has reported `more` since `s`.
  abbrev pub Reported : Pass F → List ℕ → Pass F → Type 0
  Reported s more t =
      t.stop ≡ none → (s.stop ≡ none) × (ids t.total_result ≡ ids s.total_result ++ more)

  step_fail-ids :
      (step : ReadStep F) (now : Option ℕ)
      → now ≢ none
      → ids (step_fail fl step now) ≡ map id32 step.values
  step_fail-ids step none told = absurd (told refl)
  step_fail-ids step (some t) told = ids-fail fl step.values (seconds fl t)

  settle-Reported :
      (step : ReadStep F) (s : Pass F) (ops : ℕ) (e : StepEnd F)
      → ((k : ℕ) → clock k ≢ none)
      → Good step e
      → s.stop ≡ none
      → Reported s (map id32 step.values) (settle fl reply clock step s ops e).1
  settle-Reported step s ops (read_ok ms) told g going = λ h.
      (going, map-append (λ m. m.value_id) s.total_result ms ∙ ap (λ l. ids s.total_result ++ l) g)
  settle-Reported step s ops gave_up told g going = λ h. (
    going,
    map-append (λ m. m.value_id) s.total_result (step_fail fl step (clock ops))
        ∙ ap (λ l. ids s.total_result ++ l) (step_fail-ids step (clock ops) (told ops)),
  )
  settle-Reported step s ops removed told g going = λ h. (
    going,
    map-append (λ m. m.value_id) s.total_result (step_fail fl step (clock ops))
        ∙ ap (λ l. ids s.total_result ++ l) (step_fail-ids step (clock ops) (told ops)),
  )
  settle-Reported step s ops socket_failed told g going = λ h. cc
  settle-Reported step s ops panic told g going = λ h. cc
  settle-Reported step s ops endless told g going = λ h. cc
  settle-Reported step s ops (mismatched b) told g going = λ h. cc

  visit-Reported :
      (slave time retry_count : ℕ) (step : ReadStep F) (s : Pass F)
      → ((k : ℕ) → clock k ≢ none)
      → Reported s (live_ids (step ∷ [])) (visit fl reply clock slave time retry_count step s).1
  unfolding visit live_ids
  visit-Reported slave time retry_count step s told = elim (Option-cases s.stop) [
    | inr (e, stopped) ↦
        let here : (visit fl reply clock slave time retry_count step s).1 ≡ s =
          simp (visit, stopped) refl in
        subst (Reported s (live_ids (step ∷ []))) (sym here)
          (λ h. let clash : some e ≡ none = sym stopped ∙ h in cc)
    | inl going ↦ elim (Bool-cases step.broken) [
      | inl broken ↦
          let here : (visit fl reply clock slave time retry_count step s).1
              ≡ record s { failed_steps = suc s.failed_steps } =
            simp (visit, going, broken) refl in
          let dead : live_ids (step ∷ []) ≡ [] = simp (live_ids, broken) refl in
          subst (Reported s (live_ids (step ∷ []))) (sym here) (λ h. (
            going,
            sym (append-nil (ids s.total_result)) ∙ ap (λ l. ids s.total_result ++ l) (sym dead),
          ))
      | inr works ↦
          let r =
            try_step fl reply clock (suc retry_count) (request_of slave time step) retry_count step
              0 s.ops in
          let live : live_ids (step ∷ []) ≡ map id32 step.values =
            simp (live_ids, works) (append-nil (map id32 step.values)) in
          let good =
            try_step-Good (suc retry_count) (request_of slave time step) retry_count step 0 s.ops
              told in
          let here : (visit fl reply clock slave time retry_count step s).1
              ≡ (settle fl reply clock step s r.1 r.0).1 =
            simp (visit, going, works) refl in
          subst (Reported s (live_ids (step ∷ []))) (sym here) (
            subst (λ l. Reported s l (settle fl reply clock step s r.1 r.0).1) (sym live)
              (settle-Reported step s r.1 r.0 told good going))
    ]
  ]

  -- Where the clock never fails, a pass that is not ended early reports every value of the steps that
  -- were not broken when it came to them, once and in order, whether its registers were read or not.
  pub sweep-Reported :
      (slave time retry_count : ℕ) (steps : List (ReadStep F)) (s : Pass F)
      → ((k : ℕ) → clock k ≢ none)
      → (sweep fl reply clock slave time retry_count steps s).1.stop ≡ none
      → (s.stop ≡ none)
        × (ids (sweep fl reply clock slave time retry_count steps s).1.total_result
            ≡ ids s.total_result ++ live_ids steps)
  unfolding sweep live_ids
  sweep-Reported slave time retry_count [] s told h = (h, sym (append-nil (ids s.total_result)))
  sweep-Reported slave time retry_count (step ∷ steps) s told h =
      let s' = (visit fl reply clock slave time retry_count step s).1 in
      let (going', rest) = sweep-Reported slave time retry_count steps s' told h in
      let (going, one) = visit-Reported slave time retry_count step s told going' in
      (
        going,
        rest
            ∙ ap (λ l. l ++ live_ids steps) one
            ∙ append_assoc (ids s.total_result) (live_ids (step ∷ [])) (live_ids steps)
            ∙ ap (λ l. ids s.total_result ++ l) (live_ids-cons step steps),
      )
