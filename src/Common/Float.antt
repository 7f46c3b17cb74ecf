-- ===== src/Common/Float.antt =====
-- `f64` as the program uses it. Floating point is a parameter of the development: the operations
-- below stand for those of the hardware, and a proof that needs a law of them names it.
use mathlib.Core.Bool.{Bool}
use modbus_tcplogger.Common.Int.{ℤ}

pub record Floats : Type 1 where
  pub F : Type 0
  -- `==`, which no law makes reflexive: a NaN differs from itself.
  pub feq : F → F → Bool
  -- `a > b`
  pub fgt : F → F → Bool
  -- `f64::MIN`
  pub f64_min : F
  -- an integer of at most 53 bits, `n as f64` or a literal
  pub of_int : ℤ → F
  pub fneg : F → F
  pub fadd : F → F → F
  pub fmul : F → F → F
  pub fdiv : F → F → F
  -- `10.0_f64.powf(n as f64)`
  pub pow10 : ℤ → F
