-- ===== src/Auth/Login.antt =====
-- When a login of api/router/auth.rs is answered with tokens.
use Prim.Native.String.{String}
use text.Mathlib.Text.{◌==◌ as str_eq}
use modbus_tcplogger.Common.{
  ℕ, ◌≡◌, ◌↔◌, ◌⊎◌, inl, inr, refl, Bool, true, false, not, Option, none, some, List, if◌then◌else◌,
}
use modbus_tcplogger.Auth.{
  UserRead, RefreshToken, AuthDb, Delivery, unsent, answered, errored, dropped, Env, auth_response,
  unauthorized, verify_user_credentials, write_token, generate_access_token, save_token, new_token,
  login_granted, login_user, login_asked, login,
}

-- The update of the token has been answered, well or with an error.
abbrev pub IsHeard : Delivery → Type 0
IsHeard d = (d ≡ answered) ⊎ (d ≡ errored)

-- A user of that name has that password, and a token can be made.
abbrev pub IsUser : Env → String → String → AuthDb → List ℕ → UserRead → Type 0
IsUser env username password db access user =
    (verify_user_credentials env username db ≡ some user)
    × (str_eq user.password_hash password ≡ true)
    × (generate_access_token env (env.clock 0) user.id user.role_id ≡ some access)

save_token-heard :
    (d : Delivery) (t : RefreshToken) (db : AuthDb) (a access : List ℕ) (u text : String)
    → (save_token d t (auth_response a u) db).0 ≡ auth_response access text
    → IsHeard d × (a ≡ access) × (text ≡ u)
unfolding save_token
save_token-heard unsent t db a access u text e = cc
save_token-heard answered t db a access u text e = (inl refl, cc, cc)
save_token-heard errored t db a access u text e = (inr refl, cc, cc)
save_token-heard dropped t db a access u text e = cc

module _ (env : Env) (username password : String) (db : AuthDb) (access : List ℕ)
    (text : String) where
  -- What a login that is answered with tokens has had.
  abbrev pub IsAllowed : Type 0
  IsAllowed =
      (env.delivery 0 ≡ answered)
      × IsHeard (env.delivery 1)
      × (text ≡ env.uuid)
      × ((user : UserRead) × IsUser env username password db access user)

  granted :
      (user : UserRead) (o : Option (List ℕ))
      → (login_granted env user o db).0 ≡ auth_response access text
      → IsHeard (env.delivery 1) × (text ≡ env.uuid) × (o ≡ some access)
  granted user none e = cc
  granted user (some a) e =
      let (heard, same, is_uuid) =
        save_token-heard (env.delivery 1) (new_token env (env.clock 0) user) db a access env.uuid
          text e in
      (heard, is_uuid, cc)

  checked :
      (user : UserRead) (b : Bool) (o : Option (List ℕ))
      → (if not b then (unauthorized, db) else login_granted env user o db).0
        ≡ auth_response access text
      → (b ≡ true) × IsHeard (env.delivery 1) × (text ≡ env.uuid) × (o ≡ some access)
  checked user false o e = cc
  checked user true o e =
      let (heard, is_uuid, made) = granted user o e in (refl, heard, is_uuid, made)

  named :
      (u : Option UserRead)
      → (login_user env password u db).0 ≡ auth_response access text
      → IsHeard (env.delivery 1)
        × (text ≡ env.uuid)
        × ((user : UserRead) × ((u ≡ some user)
              × (str_eq user.password_hash password ≡ true)
              × (generate_access_token env (env.clock 0) user.id user.role_id ≡ some access)))
  named none e = cc
  named (some user) e =
      let (right, heard, is_uuid, made) =
        checked user (str_eq user.password_hash password)
          (generate_access_token env (env.clock 0) user.id user.role_id) e in
      (heard, is_uuid, (user, (refl, right, made)))

  asked :
      (d : Delivery)
      → (login_asked env d username password db).0 ≡ auth_response access text
      → (d ≡ answered)
        × IsHeard (env.delivery 1)
        × (text ≡ env.uuid)
        × ((user : UserRead) × IsUser env username password db access user)
  asked unsent e = cc
  asked answered e =
      let (heard, is_uuid, user) = named (verify_user_credentials env username db) e in
      (refl, heard, is_uuid, user)
  asked errored e = cc
  asked dropped e = cc

  allowed :
      (d : Delivery) (user : UserRead)
      → env.delivery 0 ≡ answered
      → env.delivery 1 ≡ d
      → IsHeard d
      → text ≡ env.uuid
      → IsUser env username password db access user
      → (login env username password db).0 ≡ auth_response access text
  unfolding login save_token
  allowed d user d0 d1 (inl a) is_uuid (known, right, made) =
      rw (d0, known, right, made, d1, a, is_uuid) refl
  allowed d user d0 d1 (inr a) is_uuid (known, right, made) =
      rw (d0, known, right, made, d1, a, is_uuid) refl

  -- A login is answered with these tokens if and only if the database has answered the query for the
  -- user and the update of the token, be it with an error; the first user of that name has that
  -- password; the access token is made for the identifier and the role of that user, at that second;
  -- and the refresh token is the new uuid.
  pub login-allowed_iff :
      ((login env username password db).0 ≡ auth_response access text) ↔ IsAllowed
  unfolding login
  login-allowed_iff = (
    λ e. asked (env.delivery 0) e,
    λ (d0, heard, is_uuid, (user, known)).
        allowed (env.delivery 1) user d0 refl heard is_uuid known,
  )

  -- Where the update is done, the row of the user is written.
  pub login_saved :
      (user : UserRead)
      → env.delivery 0 ≡ answered
      → env.delivery 1 ≡ answered
      → IsUser env username password db access user
      → (login env username password db).1 ≡ write_token (new_token env (env.clock 0) user) db
  unfolding login save_token
  login_saved user d0 d1 (known, right, made) = rw (d0, known, right, made, d1) refl
