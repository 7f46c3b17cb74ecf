-- ===== src/Common/Sample.antt =====
-- A concrete arithmetic for tests: whole numbers in place of `f64`, with division that truncates.
use modbus_tcplogger.Common.{◌+◌, ◌/◌, ◌^◌}
use modbus_tcplogger.Common.Int.{
  ℤ, pos, negsuc, pos_part, neg_part, sub_ℕ, ◌+ℤ◌, ◌*ℤ◌, ltb_ℤ, eqb_ℤ,
}
use modbus_tcplogger.Common.Float.{Floats}

abbrev divide : ℤ → ℤ → ℤ
divide (pos a) b = sub_ℕ (a / pos_part b) (a / neg_part b)
divide (negsuc a) b = sub_ℕ ((a + 1) / neg_part b) ((a + 1) / pos_part b)

abbrev pub whole : Floats
whole = record {
  F = ℤ;
  feq = eqb_ℤ;
  fgt = λ a b. ltb_ℤ b a;
  f64_min = negsuc (2 ^ 62);
  of_int = λ z. z;
  fneg = λ a. sub_ℕ (neg_part a) (pos_part a);
  fadd = ◌+ℤ◌;
  fmul = ◌*ℤ◌;
  fdiv = divide;
  pow10 = λ n. pos (10 ^ pos_part n);
}
