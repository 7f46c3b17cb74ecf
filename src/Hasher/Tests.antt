-- ===== src/Hasher/Tests.antt =====
-- Runs of the hasher over whole numbers, among them the cases that the source tests, and the theorems
-- at concrete inputs.
use modbus_tcplogger.Common.{ℕ, ◌^◌, ◌≡◌, ◌≤◌, refl, not, List, [], ◌∷◌, Option, none, some, arith}
use modbus_tcplogger.Common.Int.{ℤ, pos, negsuc, ◌-ℤ◌, wrap_i64}
use modbus_tcplogger.Common.Sample.{whole}
use modbus_tcplogger.Hasher.{
  HashedValue, ValueHasher, Emitted, elapsed_over, new, add, add_normal, add_after_noice,
  clean_fail_report, report_fail, add_fail, add_value, enter_fail, store_next, advance, go_ahead,
  roll_back, current_and_previous_val,
}
use modbus_tcplogger.Hasher.Spec.{set_last, track}
use modbus_tcplogger.Hasher.Query.{collect, search_ring, lower_bound_ring, get_hashed}
use modbus_tcplogger.Hasher.Ring.{samples, contents}
use modbus_tcplogger.Hasher.Inv.{Inv, new-Inv, add-Inv}
use modbus_tcplogger.Hasher.Refine.{abstract, add_refines}
use modbus_tcplogger.Hasher.Answer.{answer}
use modbus_tcplogger.Hasher.History.{add_all, track_all, first, get_hashed-add_all}
use modbus_tcplogger.Hasher.Once.{reports, failure_reported_once}
use modbus_tcplogger.Hasher.Short.{short_failure_unnoticed, short_failure_no_trace}
use modbus_tcplogger.Hasher.Repeats.{repeats_held_back, change_reports_both, heartbeat_reported}

-- Unfolds all that a run of the hasher computes with.
abbrev at : ℤ → ℕ → HashedValue ℤ
at v t = record { val = v; timestamp = pos t }

abbrev lost : ℕ → HashedValue ℤ
lost t = at (negsuc (2 ^ 62)) t

abbrev small : ValueHasher ℤ
small = new whole 3 (pos 10) (pos 1000)

run : ValueHasher ℤ → List (HashedValue ℤ) → ValueHasher ℤ × List (Emitted ℤ)
unfolding add_all add add_value add_normal add_after_noice clean_fail_report add_fail enter_fail
    report_fail store_next advance go_ahead roll_back current_and_previous_val elapsed_over ◌-ℤ◌
    wrap_i64 new
run = add_all whole

ask : ValueHasher ℤ → ℕ → ℕ → Option (List (HashedValue ℤ))
unfolding get_hashed lower_bound_ring search_ring collect
ask h from to = get_hashed whole h (pos from) (pos to)

-- `test_duplicate_resolution`
duplicate_resolution :
    (run small (at (pos 20) 1100 ∷ at (pos 20) 1200 ∷ at (pos 20) 1300 ∷ at (pos 30) 1600 ∷ [])).1
    ≡ (some (at (pos 20) 1100), none)
      ∷ (none, none)
      ∷ (none, none)
      ∷ (some (at (pos 30) 1600), some (at (pos 20) 1300))
      ∷ []
unfolding run
duplicate_resolution = refl

-- `test_failure_detection`
failure_detection :
    (run small (lost 1050 ∷ lost 1100 ∷ lost 1300 ∷ [])).1
    ≡ (none, none) ∷ (none, none) ∷ (some (lost 1300), none) ∷ []
unfolding run
failure_detection = refl

-- `test_get_hashed_ring_wrap_standard_step`
ring_wrap :
    ask
      (run small (at (pos 20) 1100 ∷ at (pos 30) 1200 ∷ at (pos 40) 1300 ∷ at (pos 50) 1400 ∷ [])).0
      1200
      1500
    ≡ some (at (pos 30) 1200 ∷ at (pos 40) 1300 ∷ at (pos 50) 1400 ∷ [])
unfolding run ask
ring_wrap = refl

-- `test_get_hashed_skips_stale_slot_after_noise_gap`
noise_gap :
    ask
      (run small (
        at (pos 20) 1100
        ∷ at (pos 30) 1200
        ∷ at (pos 40) 1300
        ∷ lost 1350
        ∷ at (pos 40) 1360
        ∷ [])).0
      1200
      1400
    ≡ some (at (pos 30) 1200 ∷ at (pos 40) 1360 ∷ [])
unfolding run ask
noise_gap = refl

small-Inv : Inv small
small-Inv = new-Inv whole 3 (pos 10) (pos 1000) (omega arith) (omega arith)

-- The slot of a new hasher, which the hypotheses below read.
add-Inv_example : Inv (add whole small (pos 20) (pos 1100)).0
add-Inv_example = add-Inv whole small (pos 20) (pos 1100) small-Inv

add_refines_example :
    let (h, e) = add whole small (pos 20) (pos 1100) in
    (abstract whole h, e) ≡ track whole 3 (abstract whole small) (at (pos 20) 1100)
unfolding new
add_refines_example = add_refines whole small (pos 20) (pos 1100) small-Inv

get_hashed-add_all_example :
    let h = (add_all whole small (at (pos 20) 1100 ∷ at (pos 30) 1200 ∷ [])).0 in
    get_hashed whole h (pos 1000) (pos 1150)
    ≡ answer whole
        (not h.ring_finished)
        (track_all whole 3
          (first whole (pos 10) (pos 1000))
          (at (pos 20) 1100 ∷ at (pos 30) 1200 ∷ [])).0.log
        (pos 1000)
        (pos 1150)
get_hashed-add_all_example =
    get_hashed-add_all whole 3 (pos 10) (pos 1000) (at (pos 20) 1100 ∷ at (pos 30) 1200 ∷ [])
      (pos 1000) (pos 1150) (omega arith) (omega arith) (omega arith)

failure_reported_once_example :
    reports (add_all whole small (lost 1050 ∷ lost 1300 ∷ lost 1500 ∷ [])).1 ≤ 1
failure_reported_once_example =
    failure_reported_once whole small (lost 1050 ∷ lost 1300 ∷ lost 1500 ∷ []) small-Inv
      (refl, (refl, (refl, tt)))

short_failure_unnoticed_example :
    let g = (add_all whole small (lost 1050 ∷ lost 1100 ∷ [])).0 in
    (reports (add_all whole small (lost 1050 ∷ lost 1100 ∷ [])).1 ≡ 0)
    × ((add whole g (pos 15) (pos 1150)).1 ≡ (add whole small (pos 15) (pos 1150)).1)
unfolding new elapsed_over ◌-ℤ◌ wrap_i64
short_failure_unnoticed_example =
    short_failure_unnoticed whole small (lost 1050) (lost 1100 ∷ []) (at (pos 15) 1150) small-Inv
      refl refl ((refl, refl), tt) refl

short_failure_no_trace_example :
    abstract whole
      (add whole (add_all whole small (lost 1050 ∷ lost 1100 ∷ [])).0 (pos 15) (pos 1150)).0
    ≡ abstract whole (add whole small (pos 15) (pos 1150)).0
unfolding new elapsed_over ◌-ℤ◌ wrap_i64 samples
short_failure_no_trace_example =
    short_failure_no_trace whole small (lost 1050) (lost 1100 ∷ []) (at (pos 15) 1150) small-Inv
      refl refl ((refl, refl), tt) refl (omega arith)

repeats_held_back_example :
    let g = add_all whole small (at (pos 10) 1100 ∷ at (pos 10) 1200 ∷ []) in
    (reports g.1 ≡ 0) × (contents whole g.0 ≡ set_last (contents whole small) (at (pos 10) 1200))
unfolding new elapsed_over ◌-ℤ◌ wrap_i64
repeats_held_back_example =
    repeats_held_back whole small (at (pos 10) 1100) (at (pos 10) 1200 ∷ []) small-Inv refl
      ((refl, refl, refl), ((refl, refl, refl), tt))

change_reports_both_example :
    (add whole (add_all whole small (at (pos 10) 1100 ∷ [])).0 (pos 20) (pos 1150)).1
    ≡ (some (at (pos 20) 1150), some (at (pos 10) 1100))
unfolding new elapsed_over ◌-ℤ◌ wrap_i64
change_reports_both_example =
    change_reports_both whole small (at (pos 10) 1100) [] small-Inv refl ((refl, refl, refl), tt)
      (at (pos 20) 1150) refl refl

heartbeat_reported_example :
    (add whole (add_all whole small (at (pos 10) 1100 ∷ [])).0 (pos 10) (pos 1400)).1
    ≡ (some (at (pos 10) 1400), none)
unfolding new elapsed_over ◌-ℤ◌ wrap_i64
heartbeat_reported_example =
    heartbeat_reported whole small (at (pos 10) 1100) [] small-Inv refl ((refl, refl, refl), tt)
      (at (pos 10) 1400) refl refl refl
