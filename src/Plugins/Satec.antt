-- ===== src/Plugins/Satec.antt =====
-- The signed reading of a pair of registers in satec_double_register.rs, in exact arithmetic: whole
-- numbers of this size are exact in `f64`.
use modbus_tcplogger.Common.{ℕ, ◌+◌, ◌*◌, ◌^◌, ◌<◌, ◌≡◌, true, ◌↔◌, arith}
use modbus_tcplogger.Common.Int.{signed, ◌+ℤ◌, ◌*ℤ◌}
use modbus_tcplogger.Common.Sample.{whole}
use modbus_tcplogger.Plugins.Decode.{satec_raw}

-- In whole numbers, and for two words below 2 ^ 16, the signed reading is the two's complement number
-- that the two registers hold just where the high register is 0: the high register is added without its weight of 2 ^ 16.
pub satec_raw-signed :
    (hi lo : ℕ)
    → hi < 2 ^ 16
    → lo < 2 ^ 16
    → (satec_raw whole true hi lo ≡ signed (2 ^ 31) (hi * 2 ^ 16 + lo)) ↔ (hi ≡ 0)
unfolding satec_raw ◌+ℤ◌ ◌*ℤ◌
satec_raw-signed hi lo h l = (λ e. ground arith, λ z. ground arith)
