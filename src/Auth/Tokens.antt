-- ===== src/Auth/Tokens.antt =====
-- A refresh token of api/router/auth.rs after the login that has made it.
use Prim.Native.String.{String}
use text.Mathlib.Text.{◌==◌ as str_eq}
use modbus_tcplogger.Common.{Bool, if◌then◌else◌}
use modbus_tcplogger.Common.Int.{eqb_ℤ}
use modbus_tcplogger.Auth.{RefreshToken}

module _ (same : String → String → Bool) (token : String) where
  abbrev carries : RefreshToken → Bool
  carries t = same t.token_hash token

  abbrev put_token : RefreshToken → RefreshToken → RefreshToken
  put_token t o = if eqb_ℤ o.user_id t.user_id then t else o
