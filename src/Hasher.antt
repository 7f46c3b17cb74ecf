-- ===== src/Hasher.antt =====
-- db/hasher/hash_unit.rs: `ValueHasher`, the ring of recent samples of one tag that decides which
-- samples are written to the database. A method that takes `&mut self` returns the new value.
-- Indexing out of range would panic in the program; `get_or` and `set` give it a value here, and
-- the invariant shows that no index is out of range. `%` by a capacity of 0 is likewise ruled out.
pub mod Query
mod Tests
pub mod Repeats
pub mod Once
pub mod Short
pub mod History
pub mod Chrono
pub mod Answer
pub mod Search
pub mod Inv
pub mod Refine
pub mod Spec
pub mod Ring
pub mod Window
use modbus_tcplogger.Common.{
  ℕ, zero, suc, ◌+◌, ◌-◌, ◌/◌, ◌%◌, ◌^◌, ◌<◌, Bool, true, false, ◌&&◌, ◌||◌, not, Option, none,
  some, List, [], ◌∷◌, ltb, leb, ◌==◌, if◌then◌else◌, get_or, set, replicate, length,
}
use modbus_tcplogger.Common.Int.{ℤ, pos, ◌-ℤ◌, wrap_i64, ltb_ℤ, eqb_ℤ, add_u64, sub_u64}
use modbus_tcplogger.Common.Float.{Floats}

abbrev pub stable_delta_default : ℤ
stable_delta_default = pos 300

abbrev pub failure_delta_default : ℤ
failure_delta_default = pos 120

pub data HashState : Type 0 where
  normal in_fail fail_reported : HashState

abbrev pub is_in_fail : HashState → Bool
is_in_fail in_fail = true
is_in_fail _ = false

abbrev pub is_fail_reported : HashState → Bool
is_fail_reported fail_reported = true
is_fail_reported _ = false

-- `HashedValue`, over the type of `f64`.
pub record HashedValue (F : Type 0) : Type 0 where
  pub val : F
  pub timestamp : ℤ

pub record ValueHasher (F : Type 0) : Type 0 where
  pub hashed_values : List (HashedValue F)
  pub capacity : ℕ
  pub current : ℕ
  pub stable_delta : ℤ
  pub failure_delta : ℤ
  pub last_emitted_ts : ℤ
  pub head : ℕ
  pub tail : ℕ
  pub ring_finished : Bool
  pub is_resolving_duplicate : Bool
  pub state : HashState

-- The current sample and the one before it, where either is to be written.
abbrev pub Emitted : Type 0 → Type 0
Emitted F = Option (HashedValue F) × Option (HashedValue F)

-- `now - then > delta` on `i64`.
unfoldable pub elapsed_over : ℤ → ℤ → ℤ → Bool
elapsed_over now then_ts delta = ltb_ℤ delta (wrap_i64 (now -ℤ then_ts))

module _ {F : Type 0} where
  unfoldable pub advance : ValueHasher F → ValueHasher F
  advance h =
      if h.ring_finished
      then h
      else if add_u64 h.current 1 == h.capacity
      then record h { current = add_u64 h.current 1; ring_finished = true }
      else record h { current = add_u64 h.current 1 }

  unfoldable pub go_ahead : ValueHasher F → ValueHasher F
  go_ahead h =
      let head' = add_u64 h.head 1 % h.capacity in
      if h.ring_finished
      then record h { head = head'; tail = add_u64 (add_u64 h.capacity head') 1 % h.capacity }
      else record h { head = head' }

  unfoldable pub roll_back : ValueHasher F → ValueHasher F
  roll_back h =
      if h.ring_finished
      then record h { head = if h.head == 0 then sub_u64 h.capacity 1 else sub_u64 h.head 1 }
      else record h { head = if h.head == 0 then 0 else sub_u64 h.head 1 }

  abbrev pub void : Emitted F
  void = (none, none)

module _ (fl : Floats) where
  open fl use {F, feq, f64_min, of_int}

  -- `HashedValue::default()`, also what a read out of range stands for.
  abbrev pub default_value : HashedValue F
  default_value = record { val = of_int (pos 0); timestamp = pos 0 }

  abbrev pub slot : ValueHasher F → HashedValue F
  slot h = get_or h.hashed_values h.head default_value

  -- `self.hashed_values[self.head] = x`
  abbrev pub write : ValueHasher F → HashedValue F → ValueHasher F
  write h x = record h { hashed_values = set h.hashed_values h.head x }

  unfoldable pub new : ℕ → F → ℤ → ValueHasher F
  new capacity val timestamp = record {
    hashed_values =
        set (replicate capacity default_value) 0 (record { val = val; timestamp = timestamp });
    capacity = capacity;
    current = 0;
    stable_delta = stable_delta_default;
    failure_delta = failure_delta_default;
    last_emitted_ts = timestamp;
    head = 0;
    tail = 0;
    ring_finished = false;
    is_resolving_duplicate = false;
    state = normal;
  }

  abbrev pub current_val : ValueHasher F → Emitted F
  current_val h = (some (slot h), none)

  unfoldable pub current_and_previous_val : ValueHasher F → Emitted F
  current_and_previous_val h =
      if h.head == 0 && not h.ring_finished
      then void
      else let prev =
          if h.head == 0 && h.ring_finished then sub_u64 h.capacity 1 else sub_u64 h.head 1 in
        (some (slot h), some (get_or h.hashed_values prev default_value))

  -- `advance`, `go_ahead` and the write of the new sample, which three methods begin with.
  unfoldable pub store_next : ValueHasher F → HashedValue F → ValueHasher F
  store_next h x = write (go_ahead (advance h)) x

  unfoldable pub add_normal : ValueHasher F → F → ℤ → ValueHasher F × Emitted F
  add_normal h val timestamp =
      let x : HashedValue F = record { val = val; timestamp = timestamp } in
      if feq (slot h).val val
      then if elapsed_over timestamp h.last_emitted_ts h.stable_delta
        then (let g = record (store_next h x) {
          last_emitted_ts = timestamp;
          is_resolving_duplicate = false;
        } in
            (g, current_val g))
        else (let g = record h { is_resolving_duplicate = true } in
            (write g (record (slot g) { timestamp = timestamp }), void))
      else let g = record (store_next h x) { last_emitted_ts = timestamp } in
        if g.is_resolving_duplicate
        then (let g' = record g { is_resolving_duplicate = false } in
            (g', current_and_previous_val g'))
        else (g, current_val g)

  unfoldable pub add_after_noice : ValueHasher F → F → ℤ → ValueHasher F × Emitted F
  add_after_noice h val timestamp =
      let g = record h {
        state = normal;
        current = if h.ring_finished then h.current else sub_u64 h.current 1;
      } in
      add_normal (roll_back g) val timestamp

  unfoldable pub clean_fail_report : ValueHasher F → F → ℤ → ValueHasher F × Emitted F
  clean_fail_report h val timestamp =
      let g = record h { state = normal; is_resolving_duplicate = false } in
      let g' = record (store_next g (record { val = val; timestamp = timestamp })) {
        last_emitted_ts = timestamp;
      } in
      (g', current_val g')

  -- `add_fail` up to the entry into the failure, and the rest.
  unfoldable pub enter_fail : ValueHasher F → F → ℤ → ValueHasher F
  enter_fail h val timestamp =
      if is_in_fail h.state
      then h
      else record (store_next h (record { val = val; timestamp = timestamp })) { state = in_fail }

  unfoldable pub report_fail : ValueHasher F → ℤ → ValueHasher F × Emitted F
  report_fail h timestamp =
      if elapsed_over timestamp (slot h).timestamp h.failure_delta && not (is_fail_reported h.state)
      then (let g = record (write h (record (slot h) { timestamp = timestamp })) {
        state = fail_reported;
      } in
          if g.is_resolving_duplicate
          then (let g' = record g { is_resolving_duplicate = false } in
              (g', current_and_previous_val g'))
          else (g, current_val g))
      else (h, void)

  unfoldable pub add_fail : ValueHasher F → F → ℤ → ValueHasher F × Emitted F
  add_fail h val timestamp =
      if is_fail_reported h.state
      then (h, void)
      else report_fail (enter_fail h val timestamp) timestamp

  -- `match self.state` of `add`.
  unfoldable pub add_value : HashState → ValueHasher F → F → ℤ → ValueHasher F × Emitted F
  add_value normal h val timestamp = add_normal h val timestamp
  add_value in_fail h val timestamp = add_after_noice h val timestamp
  add_value fail_reported h val timestamp = clean_fail_report h val timestamp

  unfoldable pub add : ValueHasher F → F → ℤ → ValueHasher F × Emitted F
  add h val timestamp =
      if feq val f64_min then add_fail h val timestamp else add_value h.state h val timestamp
