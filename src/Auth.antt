-- ===== src/Auth.antt =====
-- api/router/auth.rs and middlewares.rs, with the workers they ask (db/worker/user_worker.rs and
-- tokens_worker.rs): login, logout, new access tokens, and what a request must show to be served. The
-- channel to the database, the clock, jsonwebtoken, uuid and the collation of the tables are outside.
pub mod Login
pub mod Tokens
pub mod Requests
pub mod Rows
pub mod Logout
pub mod Guard
mod Tests
use Prim.Native.String.{String}
use text.Mathlib.Text.{◌==◌ as str_eq}
use modbus_tcplogger.Common.{
  ℕ, Bool, true, false, not, Option, none, some, List, [], ◌∷◌, ◌++◌, map, ◌==◌, if◌then◌else◌,
}
use modbus_tcplogger.Common.Int.{ℤ, pos, ◌+ℤ◌, eqb_ℤ, ltb_ℤ, wrap_i64}
use modbus_tcplogger.Store.Sql.{first, any}

pub record UserRead : Type 0 where
  pub id : ℤ
  pub username : String
  pub password_hash : String
  pub role_id : ℤ
  pub is_active : Bool

pub record RefreshToken : Type 0 where
  pub user_id : ℤ
  pub user_role_id : ℤ
  pub token_hash : String
  pub created_at : ℤ
  pub expires_at : ℤ

pub record Claims : Type 0 where
  pub id : ℤ
  pub role_id : ℤ
  pub exp : ℤ
  pub iat : ℤ

-- The tables `users` and `refresh_tokens`.
pub record AuthDb : Type 0 where
  pub users : List UserRead
  pub tokens : List RefreshToken

-- What becomes of a message to the database: it is not sent, it is done and answered, it is answered
-- with an error and not done, or there is no answer and it is not done.
pub data Delivery : Type 0 where
  unsent answered errored dropped : Delivery

-- The surroundings of one request: its messages to the database in order, the seconds at its calls of
-- the clock in order, `encode` and `decode` of tokens with the program's key, `Uuid::new_v4` and the
-- collation. The text of an access token is a list of bytes.
pub record Env : Type 0 where
  pub delivery : ℕ → Delivery
  pub clock : ℕ → ℤ
  pub encode : Claims → Option (List ℕ)
  pub decode : List ℕ → Option Claims
  pub uuid : String
  pub same_text : String → String → Bool

-- A status code other than 200, or what a 200 carries.
pub data Response : Type 0 where
  status : ℕ → Response
  auth_response : List ℕ → String → Response
  user_send : ℤ → String → ℤ → Response
  all_right : Response

abbrev pub internal_server_error : Response
internal_server_error = status 500

abbrev pub unauthorized : Response
unauthorized = status 401

-- `verify_user_credentials`, which asks for the name only
unfoldable pub verify_user_credentials : Env → String → AuthDb → Option UserRead
verify_user_credentials env username db = first (λ u. env.same_text u.username username) db.users

unfoldable pub get_user_by_id : ℤ → AuthDb → Option UserRead
get_user_by_id id db = first (λ u. eqb_ℤ u.id id) db.users

unfoldable pub find_token : Env → String → AuthDb → Option RefreshToken
find_token env token db = first (λ t. env.same_text t.token_hash token) db.tokens

-- INSERT … ON DUPLICATE KEY UPDATE, with the user as the key
unfoldable pub write_token : RefreshToken → AuthDb → AuthDb
write_token t db =
    if any (λ o. eqb_ℤ o.user_id t.user_id) db.tokens
    then record db { tokens = map (λ o. if eqb_ℤ o.user_id t.user_id then t else o) db.tokens }
    else record db { tokens = db.tokens ++ (t ∷ []) }

-- `generate_access_token` at the second `now`
unfoldable pub generate_access_token : Env → ℤ → ℤ → ℤ → Option (List ℕ)
generate_access_token env now id role_id =
    env.encode (record { id = id; role_id = role_id; exp = wrap_i64 (now +ℤ pos 900); iat = now })

-- The end of `login` and `logout`: the answer to the update of the token is not looked at, only
-- whether there is one.
unfoldable pub save_token : Delivery → RefreshToken → Response → AuthDb → Response × AuthDb
save_token unsent t res db = (internal_server_error, db)
save_token answered t res db = (res, write_token t db)
save_token errored t res db = (res, db)
save_token dropped t res db = (internal_server_error, db)

abbrev pub new_token : Env → ℤ → UserRead → RefreshToken
new_token env now user = record {
  user_id = user.id;
  user_role_id = user.role_id;
  token_hash = env.uuid;
  created_at = now;
  expires_at = wrap_i64 (now +ℤ pos 2678400);
}

abbrev pub login_granted : Env → UserRead → Option (List ℕ) → AuthDb → Response × AuthDb
login_granted env user none db = (internal_server_error, db)
login_granted env user (some access) db =
    save_token (env.delivery 1) (new_token env (env.clock 0) user) (auth_response access env.uuid)
      db

abbrev pub login_user : Env → String → Option UserRead → AuthDb → Response × AuthDb
login_user env password none db = (unauthorized, db)
login_user env password (some user) db =
    if not (str_eq user.password_hash password)
    then (unauthorized, db)
    else login_granted env user (generate_access_token env (env.clock 0) user.id user.role_id) db

abbrev pub login_asked : Env → Delivery → String → String → AuthDb → Response × AuthDb
login_asked env unsent username password db = (internal_server_error, db)
login_asked env answered username password db =
    login_user env password (verify_user_credentials env username db) db
login_asked env errored username password db = (internal_server_error, db)
login_asked env dropped username password db = (internal_server_error, db)

unfoldable pub login : Env → String → String → AuthDb → Response × AuthDb
login env username password db = login_asked env (env.delivery 0) username password db

abbrev pub logout_found : Env → Option RefreshToken → AuthDb → Response × AuthDb
logout_found env none db = (unauthorized, db)
logout_found env (some t) db =
    save_token (env.delivery 1) (record t { created_at = env.clock 0; expires_at = env.clock 0 })
      all_right db

abbrev pub logout_asked : Env → Delivery → String → AuthDb → Response × AuthDb
logout_asked env unsent token db = (internal_server_error, db)
logout_asked env answered token db = logout_found env (find_token env token db) db
logout_asked env errored token db = (internal_server_error, db)
logout_asked env dropped token db = (internal_server_error, db)

unfoldable pub logout : Env → String → AuthDb → Response × AuthDb
logout env token db = logout_asked env (env.delivery 0) token db

abbrev pub refreshed : String → Option (List ℕ) → Response
refreshed token none = internal_server_error
refreshed token (some access) = auth_response access token

abbrev pub refresh_found : Env → String → Option RefreshToken → Response
refresh_found env token none = unauthorized
refresh_found env token (some t) =
    if ltb_ℤ t.expires_at (env.clock 0)
    then unauthorized
    else refreshed token (generate_access_token env (env.clock 1) t.user_id t.user_role_id)

abbrev pub refresh_asked : Env → Delivery → String → AuthDb → Response
refresh_asked env unsent token db = internal_server_error
refresh_asked env answered token db = refresh_found env token (find_token env token db)
refresh_asked env errored token db = internal_server_error
refresh_asked env dropped token db = internal_server_error

unfoldable pub refresh_token : Env → String → AuthDb → Response
refresh_token env token db = refresh_asked env (env.delivery 0) token db

-- "Bearer "
abbrev pub bearer : List ℕ
bearer = 66 ∷ 101 ∷ 97 ∷ 114 ∷ 101 ∷ 114 ∷ 32 ∷ []

-- The rest of a text that starts with the first one.
unfoldable pub strip_prefix : List ℕ → List ℕ → Option (List ℕ)
strip_prefix [] text = some text
strip_prefix (p ∷ ps) [] = none
strip_prefix (p ∷ ps) (c ∷ text) = let rest = strip_prefix ps text in if p == c then rest else none

abbrev pub me_user : Option UserRead → Response
me_user none = status 404
me_user (some user) = user_send user.id user.username user.role_id

abbrev pub me_asked : Delivery → ℤ → AuthDb → Response
me_asked unsent id db = internal_server_error
me_asked answered id db = me_user (get_user_by_id id db)
me_asked errored id db = internal_server_error
me_asked dropped id db = internal_server_error

abbrev pub me_claims : Env → Option Claims → AuthDb → Response
me_claims env none db = unauthorized
me_claims env (some claims) db =
    if ltb_ℤ claims.exp (env.clock 0) then unauthorized else me_asked (env.delivery 0) claims.id db

abbrev pub me_token : Env → Option (List ℕ) → AuthDb → Response
me_token env none db = status 400
me_token env (some token) db = me_claims env (env.decode token) db

-- `me`, with the header `Authorization` if it is there and readable
unfoldable pub me : Env → Option (List ℕ) → AuthDb → Response
me env none db = unauthorized
me env (some auth_header) db = me_token env (strip_prefix bearer auth_header) db

-- `admin_middleware`: the claims that the request carries decide whether `next` runs
unfoldable pub admin_middleware : {A : Type 0} → (ℕ → A) → (Claims → A) → Option Claims → A
admin_middleware refused next none = refused 401
admin_middleware refused next (some claims) =
    if not (eqb_ℤ claims.role_id (pos 1)) then refused 403 else next claims

abbrev pub with_claims : {A : Type 0} → (ℕ → A) → (Claims → A) → Option Claims → A
with_claims refused next none = refused 401
with_claims refused next (some claims) = next claims

abbrev pub with_token : {A : Type 0} → Env → (ℕ → A) → (Claims → A) → Option (List ℕ) → A
with_token env refused next none = refused 400
with_token env refused next (some token) = with_claims refused next (env.decode token)

unfoldable pub auth_middleware : {A : Type 0} → Env → (ℕ → A) → (Claims → A) → Option (List ℕ) → A
auth_middleware env refused next none = refused 401
auth_middleware env refused next (some auth_header) =
    with_token env refused next (strip_prefix bearer auth_header)

-- A route behind both layers, as the protected routes for administrators are.
unfoldable pub admin_route : {A : Type 0} → Env → (ℕ → A) → (Claims → A) → Option (List ℕ) → A
admin_route env refused next =
    auth_middleware env refused (λ claims. admin_middleware refused next (some claims))
