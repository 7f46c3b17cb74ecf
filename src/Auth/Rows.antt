-- ===== src/Auth/Rows.antt =====
-- The rows of `refresh_tokens` after one of the two requests that write them.
use mathlib.Core.Path.{subst}
use Prim.Native.String.{String}
use text.Mathlib.Text.{◌==◌ as str_eq}
use modbus_tcplogger.Common.{
  ℕ, ◌≡◌, inl, inr, refl, sym, ap, ◌∙◌, Bool, true, false, not, Option, none, some, List, [], ◌∷◌,
  map, All, All-append, if◌then◌else◌, arith, Bool-cases,
}
use modbus_tcplogger.Common.Int.{eqb_ℤ}
use modbus_tcplogger.Store.Sql.{first, any}
use modbus_tcplogger.Auth.{
  UserRead, RefreshToken, AuthDb, Delivery, unsent, answered, errored, dropped, Env, Response,
  verify_user_credentials, unauthorized, find_token, write_token, generate_access_token, save_token,
  new_token, login_granted, login_user, login_asked, login, logout_found, logout_asked, logout,
}

pub first-All :
    (P : RefreshToken → Type 0) (p : RefreshToken → Bool) (ts : List RefreshToken)
    (r : RefreshToken)
    → All P ts
    → first p ts ≡ some r
    → P r × (p r ≡ true)
unfolding first
first-All P p [] r h e = cc
first-All P p (o ∷ ts) r h e = go (p o) refl e (first-All P p ts r h.1)
  where
    go :
        (b : Bool)
        → p o ≡ b
        → (if b then some o else first p ts) ≡ some r
        → (first p ts ≡ some r → P r × (p r ≡ true))
        → P r × (p r ≡ true)
    go true here e' rest = let same : o ≡ r = cc in (subst P same h.0, ap p (sym same) ∙ here)
    go false past e' rest = rest e'

-- A row is written: the rows of other users stay.
module _ (P Q : RefreshToken → Type 0) (t : RefreshToken) (new : P t)
    (stays : (o : RefreshToken) → Q o → eqb_ℤ o.user_id t.user_id ≡ false → P o) where
  put-All :
      (ts : List RefreshToken)
      → All Q ts
      → All P (map (λ o. if eqb_ℤ o.user_id t.user_id then t else o) ts)
  put-All [] h = h
  put-All (o ∷ ts) h = (pick (eqb_ℤ o.user_id t.user_id) refl, put-All ts h.1)
    where
      pick : (b : Bool) → eqb_ℤ o.user_id t.user_id ≡ b → P (if b then t else o)
      pick true e = new
      pick false e = stays o h.0 e

  others-All :
      (ts : List RefreshToken)
      → All Q ts
      → any (λ o. eqb_ℤ o.user_id t.user_id) ts ≡ false
      → All P ts
  unfolding any
  others-All [] h e = h
  others-All (o ∷ ts) h e = (stays o h.0 (ground arith), others-All ts h.1 (ground arith))

  pub write_token-All : (db : AuthDb) → All Q db.tokens → All P (write_token t db).tokens
  unfolding write_token
  write_token-All db h = elim (Bool-cases (any (λ o. eqb_ℤ o.user_id t.user_id) db.tokens)) [
    | inl owned ↦ rw owned (put-All db.tokens h)
    | inr new_user ↦
        rw new_user (All-append P db.tokens (t ∷ []) (others-All db.tokens h new_user) (new, tt))
  ]

-- A login and a logout change the tables by one row at most.
module _ (Goal : AuthDb → Type 0) (db : AuthDb) (nothing : Goal db) where
  pub save_token-keeps :
      (d : Delivery) (t : RefreshToken) (res : Response)
      → Goal (write_token t db)
      → Goal (save_token d t res db).1
  unfolding save_token
  save_token-keeps unsent t res new = nothing
  save_token-keeps answered t res new = new
  save_token-keeps errored t res new = nothing
  save_token-keeps dropped t res new = nothing

  pub login-keeps :
      (env : Env) (username password : String)
      → ((user : UserRead) → Goal (write_token (new_token env (env.clock 0) user) db))
      → Goal (login env username password db).1
  unfolding login
  login-keeps env username password new = asked (env.delivery 0)
    where
      granted : (user : UserRead) (o : Option (List ℕ)) → Goal (login_granted env user o db).1
      granted user none = nothing
      granted user (some a) = save_token-keeps (env.delivery 1) _ _ (new user)

      checked :
          (user : UserRead) (b : Bool) (o : Option (List ℕ))
          → Goal (if not b then (unauthorized, db) else login_granted env user o db).1
      checked user false o = nothing
      checked user true o = granted user o

      named : (u : Option UserRead) → Goal (login_user env password u db).1
      named none = nothing
      named (some user) =
          checked user (str_eq user.password_hash password)
            (generate_access_token env (env.clock 0) user.id user.role_id)

      asked : (d : Delivery) → Goal (login_asked env d username password db).1
      asked unsent = nothing
      asked answered = named (verify_user_credentials env username db)
      asked errored = nothing
      asked dropped = nothing

  pub logout-keeps :
      (env : Env) (token : String)
      → ((r : RefreshToken)
          → find_token env token db ≡ some r
          → Goal (write_token (record r { created_at = env.clock 0; expires_at = env.clock 0 }) db))
      → Goal (logout env token db).1
  unfolding logout
  logout-keeps env token new = asked (env.delivery 0)
    where
      found :
          (o : Option RefreshToken) → find_token env token db ≡ o → Goal (logout_found env o db).1
      found none e = nothing
      found (some r) e = save_token-keeps (env.delivery 1) _ _ (new r e)

      asked : (d : Delivery) → Goal (logout_asked env d token db).1
      asked unsent = nothing
      asked answered = found (find_token env token db) refl
      asked errored = nothing
      asked dropped = nothing
