-- ===== src/Plugins/Decode.antt =====
-- The plugins' `init`, `get_value` and `fail`, `get_plugin` and `check_json`.
use Prim.Native.String.{String}
use modbus_tcplogger.Common.{
  ℕ, ◌/◌, ◌%◌, ◌^◌, Bool, true, false, ◌||◌, Option, none, some, List, [], ◌∷◌, leb, if◌then◌else◌,
  length, get_or,
}
use modbus_tcplogger.Common.Int.{ℤ, pos, signed, residue, eqb_ℤ}
use modbus_tcplogger.Common.Float.{Floats}
use modbus_tcplogger.Measures.{ModbusMeasure}
use modbus_tcplogger.Plugins.{
  holding, check_type, Serde, BitInWord, ComaShift, SatecDoubleRegistersInt32,
  RegisterDecodingPlugin, bit, satec, shift,
}

-- `reg >> bit_addr as u32 & 0x01` on `u16`; a release build takes the distance modulo 16.
unfoldable pub bit_of : ℕ → ℤ → ℕ
bit_of reg bit_addr = reg / 2 ^ (residue (2 ^ 32) bit_addr % 16) % 2

-- `reg as i16`
abbrev pub as_i16 : ℕ → ℤ
as_i16 reg = signed (2 ^ 15) reg

module _ (fl : Floats) where
  open fl use {F, fgt, f64_min, of_int, fneg, fadd, fmul, fdiv, pow10}

  abbrev pub default_bit : BitInWord
  default_bit = record {
    addr = pos 0;
    tag = "";
    pos_in_list = 0;
    bit_addr = pos 0;
    id = pos 0;
    is_logging = false;
    is_init = false;
    m_type = holding;
  }

  abbrev pub default_shift : ComaShift F
  default_shift = record {
    id = pos 0;
    tag = "";
    addr = pos 0;
    multiplier = of_int (pos 0);
    m_type = holding;
    is_logging = false;
    is_init = false;
    pos_in_list = 0;
  }

  abbrev pub default_satec : SatecDoubleRegistersInt32 F
  default_satec = record {
    hi_register = pos 0;
    lo_register = pos 0;
    hi_pos_register = pos 0;
    lo_pos_register = pos 0;
    multiplier = of_int (pos 0);
    id = pos 0;
    is_logging = false;
    is_signed = false;
    is_init = false;
    m_type = holding;
    tag = "";
  }

  unfoldable pub get_plugin : ℤ → Option (RegisterDecodingPlugin F)
  get_plugin id =
      if eqb_ℤ id (pos 1)
      then some (shift default_shift)
      else if eqb_ℤ id (pos 2)
      then some (satec default_satec)
      else if eqb_ℤ id (pos 3)
      then some (bit default_bit)
      else none

  -- `init`: settings that do not parse leave the plugin as it was, and ask for no register.
  module _ (serde : Serde) where
    unfoldable pub init_bit : BitInWord → String → ℤ → Bool → BitInWord × List ℤ
    init_bit p settings id logging = elim (serde.bit_in_word settings) [
      | none ↦ (p, [])
      | some d ↦ (
        record p {
          id = id;
          tag = d.tag;
          addr = d.addr;
          bit_addr = d.bit_addr;
          is_logging = logging;
          m_type = check_type d.reg_type;
        },
        d.addr ∷ [],
      )
    ]

    unfoldable pub init_shift : ComaShift F → String → ℤ → Bool → ComaShift F × List ℤ
    init_shift p settings id logging = elim (serde.coma_shift settings) [
      | none ↦ (p, [])
      | some d ↦ (
        record p {
          id = id;
          tag = d.tag;
          addr = d.addr;
          multiplier = pow10 d.multiplier;
          m_type = check_type d.reg_type;
          is_logging = logging;
        },
        d.addr ∷ [],
      )
    ]

    unfoldable pub init_satec :
        SatecDoubleRegistersInt32 F → String → ℤ → Bool → SatecDoubleRegistersInt32 F × List ℤ
    init_satec p settings id logging = elim (serde.satec settings) [
      | none ↦ (p, [])
      | some d ↦ (
        record p {
          id = id;
          tag = d.tag;
          hi_register = d.hi_register;
          lo_register = d.lo_register;
          multiplier = pow10 d.multiplier;
          is_logging = logging;
          is_signed = d.is_signed;
          m_type = check_type d.reg_type;
        },
        d.hi_register ∷ d.lo_register ∷ [],
      )
    ]

    unfoldable pub init :
        RegisterDecodingPlugin F → String → ℤ → Bool → RegisterDecodingPlugin F × List ℤ
    init (bit p) settings id logging =
        let (q, addrs) = init_bit p settings id logging in (bit q, addrs)
    init (satec p) settings id logging =
        let (q, addrs) = init_satec p settings id logging in (satec q, addrs)
    init (shift p) settings id logging =
        let (q, addrs) = init_shift p settings id logging in (shift q, addrs)

  unfoldable pub get_value_bit : BitInWord → List ℕ → ℤ → Option (ModbusMeasure F)
  get_value_bit p reg_list timestamp =
      if leb (length reg_list) p.pos_in_list
      then none
      else some (record {
        measure_value = of_int (pos (bit_of (get_or reg_list p.pos_in_list 0) p.bit_addr));
        is_logging = p.is_logging;
        value_id = residue (2 ^ 32) p.id;
        tag = p.tag;
        measure_time = timestamp;
      })

  unfoldable pub get_value_shift : ComaShift F → List ℕ → ℤ → Option (ModbusMeasure F)
  get_value_shift p reg_list timestamp =
      if leb (length reg_list) p.pos_in_list
      then none
      else some (record {
        measure_value = fdiv (of_int (as_i16 (get_or reg_list p.pos_in_list 0))) p.multiplier;
        is_logging = p.is_logging;
        value_id = residue (2 ^ 32) p.id;
        tag = p.tag;
        measure_time = timestamp;
      })

  -- The dividend of a `Satec` value, from its two registers.
  unfoldable pub satec_raw : Bool → ℕ → ℕ → F
  satec_raw is_signed hi lo =
      let hi_data = of_int (pos hi) in
      let lo_data = of_int (pos lo) in
      if is_signed
      then fadd (if fgt hi_data (of_int (pos 32767)) then fneg hi_data else hi_data) lo_data
      else fadd (fmul hi_data (of_int (pos 65536))) lo_data

  unfoldable pub get_value_satec :
      SatecDoubleRegistersInt32 F → List ℕ → ℤ → Option (ModbusMeasure F)
  get_value_satec p reg_list timestamp =
      let hi_pos = residue (2 ^ 64) p.hi_pos_register in
      let lo_pos = residue (2 ^ 64) p.lo_pos_register in
      if leb (length reg_list) hi_pos || leb (length reg_list) lo_pos
      then none
      else some (record {
        measure_value =
            fdiv (satec_raw p.is_signed (get_or reg_list hi_pos 0) (get_or reg_list lo_pos 0))
              p.multiplier;
        is_logging = p.is_logging;
        value_id = residue (2 ^ 32) p.id;
        tag = p.tag;
        measure_time = timestamp;
      })

  unfoldable pub get_value : RegisterDecodingPlugin F → List ℕ → ℤ → Option (ModbusMeasure F)
  unfolding get_value_bit get_value_shift get_value_satec
  get_value (bit p) reg_list timestamp = get_value_bit p reg_list timestamp
  get_value (satec p) reg_list timestamp = get_value_satec p reg_list timestamp
  get_value (shift p) reg_list timestamp = get_value_shift p reg_list timestamp

  -- The measure of a value that could not be read, which is `f64::MIN`.
  abbrev pub failed_measure : Bool → ℤ → String → ℤ → ModbusMeasure F
  failed_measure is_logging id tag timestamp = record {
    measure_value = f64_min;
    is_logging = is_logging;
    value_id = residue (2 ^ 32) id;
    tag = tag;
    measure_time = timestamp;
  }

  unfoldable pub fail : RegisterDecodingPlugin F → ℤ → ModbusMeasure F
  fail (bit p) timestamp = failed_measure p.is_logging p.id p.tag timestamp
  fail (satec p) timestamp = failed_measure p.is_logging p.id p.tag timestamp
  fail (shift p) timestamp = failed_measure p.is_logging p.id p.tag timestamp

abbrev parsed : {A : Type 0} → Option A → Bool
parsed (some a) = true
parsed none = false

-- Whether `check_json` accepts the settings.
unfoldable pub check_json : Serde → ℤ → String → Bool
check_json serde id json_data =
    if eqb_ℤ id (pos 1)
    then parsed (serde.coma_shift json_data)
    else if eqb_ℤ id (pos 2)
    then parsed (serde.satec json_data)
    else if eqb_ℤ id (pos 3)
    then parsed (serde.bit_in_word json_data)
    else false
