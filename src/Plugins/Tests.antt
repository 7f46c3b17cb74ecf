-- ===== src/Plugins/Tests.antt =====
-- Examples of decoding.
use modbus_tcplogger.Common.{
  ℕ, ◌+◌, ◌*◌, ◌^◌, ◌≡◌, refl, Bool, true, false, some, List, [], ◌∷◌, map, arith, ◌↔◌,
}
use modbus_tcplogger.Common.Int.{ℤ, pos, pos_part, signed, wrap_i32}
use modbus_tcplogger.Common.Sample.{whole}
use modbus_tcplogger.Plugins.{
  holding, RegisterDecodingPlugin, satec, find_your_registers, find_satec, last_position,
}
use modbus_tcplogger.Plugins.Decode.{get_value, satec_raw}
use modbus_tcplogger.Plugins.Found.{measure_of, get_value-find_your_registers}
use modbus_tcplogger.Plugins.Satec.{satec_raw-signed}

abbrev meter : ℤ → ℤ → Bool → RegisterDecodingPlugin ℤ
meter hi_pos lo_pos is_init = satec (record {
  hi_register = pos 11;
  lo_register = pos 10;
  hi_pos_register = hi_pos;
  lo_pos_register = lo_pos;
  multiplier = pos 10;
  id = pos 7;
  is_logging = true;
  is_signed = false;
  is_init = is_init;
  m_type = holding;
  tag = "energy";
})

abbrev addresses : List ℤ
addresses = pos 10 ∷ pos 11 ∷ pos 12 ∷ []

found_meter :
    find_your_registers (meter (pos 0) (pos 0) false) addresses ≡ (meter (pos 1) (pos 0) true, true)
unfolding find_your_registers find_satec last_position wrap_i32
found_meter = refl

get_value-find_your_registers_example :
    get_value whole (meter (pos 1) (pos 0) true) (map pos_part addresses) (pos 5)
    ≡ some (measure_of whole (meter (pos 0) (pos 0) false) pos_part (pos 5))
get_value-find_your_registers_example =
    get_value-find_your_registers whole (meter (pos 0) (pos 0) false) (meter (pos 1) (pos 0) true)
      addresses pos_part (pos 5) (ground arith) found_meter

satec_raw-signed_example :
    (satec_raw whole true 65535 65535 ≡ signed (2 ^ 31) (65535 * 2 ^ 16 + 65535))
    ↔ ◌≡◌ {A = ℕ} 65535 0
satec_raw-signed_example = satec_raw-signed 65535 65535 (omega arith) (omega arith)
