-- ===== src/Pool.antt =====
-- reader/reader_loop/modbus_device: read_steps.rs and pool_iterator.rs. How the values of a device
-- become requests for runs of registers.
pub mod Unit
pub mod Runs
pub mod Take
pub mod Walk
pub mod Once
mod Tests
use Prim.Native.String.{String}
use modbus_tcplogger.Common.{
  ℕ, zero, suc, ◌+◌, ◌/◌, ◌^◌, Bool, true, false, ◌||◌, Option, none, some, List, [], ◌∷◌, ◌++◌,
  map, if◌then◌else◌, length, get_elem?, is_empty,
}
use modbus_tcplogger.Common.Int.{
  ℤ, pos, pos_part, neg_part, leb_ℤ, residue, signed, wrap_i32, eqb_ℤ, ◌+ℤ◌, add_u64,
}
use modbus_tcplogger.Common.Float.{Floats}
use modbus_tcplogger.Measures.{ModbusMeasure}
use modbus_tcplogger.Plugins.{
  RegType, coils, discrete, holding, input, Serde, RegisterDecodingPlugin, find_your_registers,
  get_type, get_id,
}
use modbus_tcplogger.Plugins.Decode.{get_plugin, init, get_value, fail}

-- The fields of a `ValueRead` that the reader uses; `settings` is the text of the JSON value.
pub record ValueRead : Type 0 where
  pub id : ℤ
  pub decoding_type : ℤ
  pub settings : String
  pub is_logging : Bool

pub record ReadStep (F : Type 0) : Type 0 where
  pub values : List (RegisterDecodingPlugin F)
  pub start : ℕ  -- u16
  pub length : ℕ  -- u16
  pub reg_type : RegType
  pub broken : Bool

pub record InitPlugins (F : Type 0) : Type 0 where
  pub values : List (RegisterDecodingPlugin F)
  pub registers : List ℤ
  pub reg_type : RegType

-- The four lists of `init_plugins`.
pub record Units (F : Type 0) : Type 0 where
  pub coil : InitPlugins F
  pub discrete : InitPlugins F
  pub holding : InitPlugins F
  pub input : InitPlugins F

pub record PollValueIterator (F : Type 0) : Type 0 where
  pub coils : List (ReadStep F)
  pub discrete : List (ReadStep F)
  pub holding : List (ReadStep F)
  pub input : List (ReadStep F)

-- `Vec::sort` on `i32`.
unfoldable pub insert : ℤ → List ℤ → List ℤ
insert x [] = x ∷ []
insert x (y ∷ ys) = let rest = insert x ys in if leb_ℤ x y then x ∷ y ∷ ys else y ∷ rest

unfoldable pub sort : List ℤ → List ℤ
sort [] = []
sort (x ∷ xs) = insert x (sort xs)

abbrev pub last : List ℤ → Option ℤ
last [] = none
last (x ∷ []) = some x
last (x ∷ y ∷ ys) = last (y ∷ ys)

-- Whether `reg` joins the group: it is empty, or `reg` is the successor of its last register.
abbrev pub joins : List ℤ → ℤ → Bool
joins group reg = elim (last group) [ none ↦ true | some l ↦ eqb_ℤ reg (wrap_i32 (l +ℤ pos 1)) ]

-- The loop of `reg_sort`, with the group under construction.
unfoldable pub runs : List ℤ → List ℤ → List (List ℤ)
runs group [] = if is_empty group then [] else group ∷ []
runs group (reg ∷ regs) =
    let next = joins group reg in
    let rest = runs (if next then group ++ (reg ∷ []) else reg ∷ []) regs in
    if next then rest else group ∷ rest

unfoldable pub reg_sort : List ℤ → List (List ℤ)
reg_sort registers = runs [] (sort registers)

abbrev pub holds_id : ℤ → List ℤ → Bool
holds_id value_id [] = false
holds_id value_id (i ∷ is) = eqb_ℤ i value_id || holds_id value_id is

abbrev pub both_some : {A : Type 0} → Option A → Option (List A) → Option (List A)
both_some none o = none
both_some (some a) none = none
both_some (some a) (some rest) = some (a ∷ rest)

module _ {F : Type 0} where
  -- `ReadStep::new`, with the casts to `u16`
  abbrev pub new_step : ℤ → ℤ → RegType → ReadStep F
  new_step start len reg_type = record {
    values = [];
    start = residue (2 ^ 16) start;
    length = residue (2 ^ 16) len;
    reg_type = reg_type;
    broken = false;
  }

  abbrev pub get_values_id : ReadStep F → List ℤ
  get_values_id step = map get_id step.values

  abbrev pub mark_broken : ReadStep F → ReadStep F
  mark_broken step = record step { broken = true }

  -- The plugins that find their registers in `addrs` leave the list. The code notes their indices and
  -- removes them from the highest down, so the step gets them in reverse order.
  unfoldable pub take_found :
      List ℤ
      → List (RegisterDecodingPlugin F)
      → List (RegisterDecodingPlugin F) × List (RegisterDecodingPlugin F)
  take_found addrs [] = ([], [])
  take_found addrs (v ∷ vs) =
      let (v', found) = find_your_registers v addrs in
      let (left, taken) = take_found addrs vs in
      if found then (left, taken ++ (v' ∷ [])) else (v' ∷ left, taken)

  -- One step for each list of addresses: the loop that `single_sort` and `group_sort` share.
  unfoldable pub make_steps :
      RegType → List (List ℤ) → List (RegisterDecodingPlugin F) → List (ReadStep F)
  make_steps reg_type [] values = []
  make_steps reg_type ([] ∷ groups) values = make_steps reg_type groups values
  make_steps reg_type ((reg ∷ regs) ∷ groups) values =
      let (left, taken) = take_found (reg ∷ regs) values in
      record (new_step reg (pos (length (reg ∷ regs))) reg_type) { values = taken }
      ∷ make_steps reg_type groups left

  abbrev pub single_sort : InitPlugins F → List (ReadStep F)
  single_sort u = make_steps u.reg_type (map (λ reg. reg ∷ []) u.registers) u.values

  abbrev pub group_sort : InitPlugins F → List (ReadStep F)
  group_sort u = make_steps u.reg_type (reg_sort u.registers) u.values

  abbrev pub push_unit : RegisterDecodingPlugin F → List ℤ → InitPlugins F → InitPlugins F
  push_unit p addrs u = record u { values = u.values ++ (p ∷ []); registers = u.registers ++ addrs }

  unfoldable pub sort_in : RegisterDecodingPlugin F → List ℤ → RegType → Units F → Units F
  sort_in p addrs coils u = record u { coil = push_unit p addrs u.coil }
  sort_in p addrs discrete u = record u { discrete = push_unit p addrs u.discrete }
  sort_in p addrs holding u = record u { holding = push_unit p addrs u.holding }
  sort_in p addrs input u = record u { input = push_unit p addrs u.input }

  abbrev pub empty_unit : RegType → InitPlugins F
  empty_unit reg_type = record { values = []; registers = []; reg_type = reg_type }

  abbrev pub no_units : Units F
  no_units = record {
    coil = empty_unit coils;
    discrete = empty_unit discrete;
    holding = empty_unit holding;
    input = empty_unit input;
  }

  abbrev pub empty_pool : PollValueIterator F
  empty_pool = record { coils = []; discrete = []; holding = []; input = [] }

  unfoldable pub total_steps : PollValueIterator F → ℕ
  total_steps p = length p.coils + length p.discrete + length p.holding + length p.input

  abbrev pub step_holds_id : ℤ → List (ReadStep F) → Bool
  step_holds_id value_id [] = false
  step_holds_id value_id (s ∷ ss) = holds_id value_id (get_values_id s) || step_holds_id value_id ss

  unfoldable pub contains_value_id : PollValueIterator F → ℤ → Bool
  contains_value_id p value_id =
      step_holds_id value_id p.coils
      || step_holds_id value_id p.discrete
      || step_holds_id value_id p.holding
      || step_holds_id value_id p.input

  abbrev pub list_of : PollValueIterator F → RegType → List (ReadStep F)
  list_of p coils = p.coils
  list_of p discrete = p.discrete
  list_of p holding = p.holding
  list_of p input = p.input

-- Where `PoolValueRefIterator` stands.
pub record PoolIter : Type 0 where
  pub curr_type : RegType
  pub curr_index : ℕ

abbrev pub into_iter : PoolIter
into_iter = record { curr_type = coils; curr_index = 0 }

abbrev pub next_type : RegType → Option RegType
next_type coils = some discrete
next_type discrete = some holding
next_type holding = some input
next_type input = none

module _ {F : Type 0} where
  -- The loop of `next`, with a bound on its rounds.
  unfoldable pub next_loop : ℕ → PollValueIterator F → PoolIter → Option (ReadStep F) × PoolIter
  next_loop zero pool it = (none, it)
  next_loop (suc n) pool it = elim (get_elem? (list_of pool it.curr_type) it.curr_index) [
    | some step ↦ (some step, record it { curr_index = suc it.curr_index })
    | none ↦ elim (next_type it.curr_type) [
      | none ↦ (none, it)
      | some t ↦ next_loop n pool (record { curr_type = t; curr_index = 0 })
    ]
  ]

  -- Each round but the last moves on to the next of four types.
  unfoldable pub next : PollValueIterator F → PoolIter → Option (ReadStep F) × PoolIter
  next pool it = next_loop 4 pool it
