-- ===== src/Hasher/Spec.antt =====
-- What the hasher promises, without a ring: a log of at most `cap` samples, oldest first, and the
-- rules by which a new sample joins it and is reported for writing.
use modbus_tcplogger.Common.{
  ℕ, Bool, true, false, none, some, List, [], ◌∷◌, ◌++◌, ltb, if◌then◌else◌, length,
}
use modbus_tcplogger.Common.Int.{ℤ}
use modbus_tcplogger.Common.Float.{Floats}
use modbus_tcplogger.Hasher.{
  HashedValue, HashState, normal, in_fail, fail_reported, Emitted, void, default_value,
  elapsed_over, stable_delta_default, failure_delta_default,
}
use modbus_tcplogger.Hasher.Window.{last_or, drop_last, tail}

pub record Tracker (F : Type 0) : Type 0 where
  pub log : List (HashedValue F)
  pub last_emitted : ℤ
  pub resolving : Bool
  pub mode : HashState

module _ {F : Type 0} where
  -- A full log gives up its oldest sample.
  abbrev pub push : ℕ → List (HashedValue F) → HashedValue F → List (HashedValue F)
  push cap es x = (if ltb (length es) cap then es else tail es) ++ (x ∷ [])

  abbrev pub set_last : List (HashedValue F) → HashedValue F → List (HashedValue F)
  set_last es x = drop_last es ++ (x ∷ [])

module _ (fl : Floats) where
  open fl use {F, feq, f64_min}

  abbrev pub newest : List (HashedValue F) → HashedValue F
  newest es = last_or (default_value fl) es

  -- A sample, with the one before it if that was held back.
  abbrev pub report : Bool → HashedValue F → HashedValue F → Emitted F
  report resolving x before = (some x, if resolving then some before else none)

  unfoldable pub judge_fail : Tracker F → ℤ → Tracker F × Emitted F
  judge_fail s now =
      if elapsed_over now (newest s.log).timestamp failure_delta_default
      then (let x = record (newest s.log) { timestamp = now } in
          (
            record s { log = set_last s.log x; resolving = false; mode = fail_reported },
            report s.resolving x (newest (drop_last s.log)),
          ))
      else (s, void)

  module _ (cap : ℕ) where
    unfoldable pub observe : Tracker F → HashedValue F → Tracker F × Emitted F
    observe s x =
        if feq (newest s.log).val x.val
        then if elapsed_over x.timestamp s.last_emitted stable_delta_default
          then (
            record s { log = push cap s.log x; last_emitted = x.timestamp; resolving = false },
            (some x, none),
          )
          else (
            record s {
              log = set_last s.log (record (newest s.log) { timestamp = x.timestamp });
              resolving = true;
            },
            void,
          )
        else (
          record s { log = push cap s.log x; last_emitted = x.timestamp; resolving = false },
          report s.resolving x (newest s.log),
        )

    unfoldable pub observe_fail : HashState → Tracker F → HashedValue F → Tracker F × Emitted F
    observe_fail normal s x =
        judge_fail (record s { log = push cap s.log x; mode = in_fail }) x.timestamp
    observe_fail in_fail s x = judge_fail s x.timestamp
    observe_fail fail_reported s x = (s, void)

    unfoldable pub observe_value : HashState → Tracker F → HashedValue F → Tracker F × Emitted F
    observe_value normal s x = observe s x
    observe_value in_fail s x = observe (record s { log = drop_last s.log; mode = normal }) x
    observe_value fail_reported s x = (
      record {
        log = push cap s.log x;
        last_emitted = x.timestamp;
        resolving = false;
        mode = normal;
      },
      (some x, none),
    )

    unfoldable pub track : Tracker F → HashedValue F → Tracker F × Emitted F
    track s x = if feq x.val f64_min then observe_fail s.mode s x else observe_value s.mode s x
