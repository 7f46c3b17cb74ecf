-- ===== src/Hasher/Once.antt =====
-- Reports during a failure: one at most, however long it lasts.
use modbus_tcplogger.Common.{ℕ, suc, ◌+◌, ◌≤◌, ◌≡◌, ap, true, List, [], ◌∷◌, none, some, arith, All}
use modbus_tcplogger.Common.Float.{Floats}
use modbus_tcplogger.Hasher.{HashedValue, ValueHasher, HashState, fail_reported, Emitted}
use modbus_tcplogger.Hasher.Spec.{Tracker, judge_fail, observe_fail, track}
use modbus_tcplogger.Hasher.Inv.{Inv}
use modbus_tcplogger.Hasher.Refine.{abstract}
use modbus_tcplogger.Hasher.History.{add_all, track_all, add_all_refines}

module _ {F : Type 0} where
  -- How many of the calls reported anything.
  abbrev pub reports : List (Emitted F) → ℕ
  reports [] = 0
  reports ((none, none) ∷ es) = reports es
  reports ((none, some y) ∷ es) = suc (reports es)
  reports ((some x, b) ∷ es) = suc (reports es)

module _ (fl : Floats) where
  open fl use {F, feq, f64_min}

  abbrev pub IsFail : HashedValue F → Type 0
  IsFail x = feq x.val f64_min ≡ true

  budget : HashState → ℕ
  budget fail_reported = 0
  budget _ = 1

  track-budget :
      (cap : ℕ) (s : Tracker F) (x : HashedValue F)
      → IsFail x
      → reports ((track fl cap s x).1 ∷ []) + budget (track fl cap s x).0.mode ≤ budget s.mode
  unfolding track observe_fail judge_fail budget
  track-budget cap s x f = ground arith

  reports-cons :
      (e : Emitted F) (es : List (Emitted F)) → reports (e ∷ es) ≡ reports (e ∷ []) + reports es
  reports-cons (none, none) es = omega arith
  reports-cons (none, some y) es = omega arith
  reports-cons (some x, b) es = omega arith

  track_all-budget :
      (cap : ℕ) (s : Tracker F) (xs : List (HashedValue F))
      → All IsFail xs
      → reports (track_all fl cap s xs).1 ≤ budget s.mode
  unfolding track_all
  track_all-budget cap s [] f = omega arith
  track_all-budget cap s (x ∷ xs) f =
      let (s', e) = track fl cap s x in
      omega (
        arith,
        track-budget cap s x f.0,
        track_all-budget cap s' xs f.1,
        reports-cons e (track_all fl cap s' xs).1,
      )

  budget-le-one : (m : HashState) → budget m ≤ 1
  unfolding budget
  budget-le-one m = ground arith

  -- On a hasher with the invariant, through a run of failed readings, however long, at most one call of
  -- `add` reports anything.
  pub failure_reported_once :
      (h : ValueHasher F) (xs : List (HashedValue F))
      → Inv h
      → All IsFail xs
      → reports (add_all fl h xs).1 ≤ 1
  failure_reported_once h xs i f =
      let e : (add_all fl h xs).1 ≡ (track_all fl h.capacity (abstract fl h) xs).1 =
        ap (λ (q : Tracker F × List (Emitted F)). q.1) (add_all_refines fl h xs i) in
      rw e (omega (arith, track_all-budget h.capacity (abstract fl h) xs f, budget-le-one h.state))
