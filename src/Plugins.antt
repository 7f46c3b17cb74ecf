-- ===== src/Plugins.antt =====
-- reader/reader_loop/decoding_plugins: how the registers of a reply become a measure. Three plugins
-- implement `ValueInterface`, and `RegisterDecodingPlugin` dispatches to them. `serde_json` is not the
-- program's: its parsers are the record `Serde`. `none` of a `get_value` is the panic on a short reply.
pub mod Decode
pub mod Found
pub mod Satec
mod Tests
use Prim.Native.String.{String}
use text.Mathlib.Text.{◌==◌ as str_eq}
use modbus_tcplogger.Common.{
  ℕ, zero, suc, ◌+◌, ◌/◌, ◌%◌, ◌^◌, Bool, true, false, ◌&&◌, ◌||◌, Option, none, some, List, [],
  ◌∷◌, leb, ltb, if◌then◌else◌, length, get_or,
}
use modbus_tcplogger.Common.Int.{ℤ, pos, signed, residue, wrap_i32, eqb_ℤ}
use modbus_tcplogger.Common.Float.{Floats}
use modbus_tcplogger.Measures.{ModbusMeasure}

pub data RegType : Type 0 where
  coils discrete input holding : RegType

unfoldable pub check_type : String → RegType
check_type reg_type =
    if str_eq reg_type "coils"
    then coils
    else if str_eq reg_type "discrete"
    then discrete
    else if str_eq reg_type "holding"
    then holding
    else if str_eq reg_type "input"
    then input
    else coils

pub record ComaShiftSerde : Type 0 where
  pub tag : String
  pub addr : ℤ
  pub reg_type : String
  pub multiplier : ℤ

pub record BitInWordSerde : Type 0 where
  pub tag : String
  pub addr : ℤ
  pub bit_addr : ℤ
  pub reg_type : String

pub record SatecDoubleRegistersSerde : Type 0 where
  pub tag : String
  pub reg_type : String
  pub is_signed : Bool
  pub hi_register : ℤ
  pub lo_register : ℤ
  pub multiplier : ℤ

-- `serde_json::from_str` at the three types.
pub record Serde : Type 0 where
  pub coma_shift : String → Option ComaShiftSerde
  pub bit_in_word : String → Option BitInWordSerde
  pub satec : String → Option SatecDoubleRegistersSerde

pub record BitInWord : Type 0 where
  pub addr : ℤ
  pub tag : String
  pub pos_in_list : ℕ
  pub bit_addr : ℤ
  pub id : ℤ
  pub is_logging : Bool
  pub is_init : Bool
  pub m_type : RegType

pub record ComaShift (F : Type 0) : Type 0 where
  pub id : ℤ
  pub tag : String
  pub addr : ℤ
  pub multiplier : F
  pub m_type : RegType
  pub is_logging : Bool
  pub is_init : Bool
  pub pos_in_list : ℕ

pub record SatecDoubleRegistersInt32 (F : Type 0) : Type 0 where
  pub hi_register : ℤ
  pub lo_register : ℤ
  pub hi_pos_register : ℤ
  pub lo_pos_register : ℤ
  pub multiplier : F
  pub id : ℤ
  pub is_logging : Bool
  pub is_signed : Bool
  pub is_init : Bool
  pub m_type : RegType
  pub tag : String

pub data RegisterDecodingPlugin (F : Type 0) : Type 0 where
  bit : BitInWord → RegisterDecodingPlugin F
  satec : SatecDoubleRegistersInt32 F → RegisterDecodingPlugin F
  shift : ComaShift F → RegisterDecodingPlugin F

-- The first position of `addr`, counted from `i`: the loop of `find_your_registers`.
unfoldable pub position : ℤ → ℕ → List ℤ → Option ℕ
position addr i [] = none
position addr i (x ∷ xs) =
    let rest = position addr (i + 1) xs in if eqb_ℤ x addr then some i else rest

-- The last position of `addr`, as the loop over both registers of a `Satec` leaves it.
unfoldable pub last_position : ℤ → ℕ → Option ℕ → List ℤ → Option ℕ
last_position addr i found [] = found
last_position addr i found (x ∷ xs) =
    last_position addr (i + 1) (if eqb_ℤ addr x then some i else found) xs

unfoldable pub find_bit : BitInWord → List ℤ → BitInWord × Bool
find_bit p dataset = if p.is_init then (p, false) else elim (position p.addr 0 dataset) [
  | none ↦ (p, false)
  | some i ↦ (record p { is_init = true; pos_in_list = i }, true)
]

-- `i as i32` where a register was found; the field keeps its value where it was not.
abbrev pub place : ℤ → Option ℕ → ℤ
place old none = old
place old (some i) = wrap_i32 (pos i)

abbrev pub is_found : Option ℕ → Bool
is_found none = false
is_found (some i) = true

module _ {F : Type 0} where
  unfoldable pub find_shift : ComaShift F → List ℤ → ComaShift F × Bool
  find_shift p dataset = if p.is_init then (p, false) else elim (position p.addr 0 dataset) [
    | none ↦ (p, false)
    | some i ↦ (record p { is_init = true; pos_in_list = i }, true)
  ]

  unfoldable pub find_satec :
      SatecDoubleRegistersInt32 F → List ℤ → SatecDoubleRegistersInt32 F × Bool
  find_satec p dataset =
      let hi = last_position p.hi_register 0 none dataset in
      let lo = last_position p.lo_register 0 none dataset in
      let q = record p {
        hi_pos_register = place p.hi_pos_register hi;
        lo_pos_register = place p.lo_pos_register lo;
      } in
      if p.is_init
      then (p, false)
      else if is_found hi && is_found lo
      then (record q { is_init = true }, true)
      else (q, false)

  unfoldable pub find_your_registers :
      RegisterDecodingPlugin F → List ℤ → RegisterDecodingPlugin F × Bool
  unfolding find_bit find_shift find_satec
  find_your_registers (bit p) dataset = let (q, found) = find_bit p dataset in (bit q, found)
  find_your_registers (satec p) dataset = let (q, found) = find_satec p dataset in (satec q, found)
  find_your_registers (shift p) dataset = let (q, found) = find_shift p dataset in (shift q, found)

  unfoldable pub get_type : RegisterDecodingPlugin F → RegType
  get_type (bit p) = p.m_type
  get_type (satec p) = p.m_type
  get_type (shift p) = p.m_type

  unfoldable pub get_id : RegisterDecodingPlugin F → ℤ
  get_id (bit p) = p.id
  get_id (satec p) = p.id
  get_id (shift p) = p.id
