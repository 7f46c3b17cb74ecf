-- ===== src/Auth/Requests.antt =====
-- Requests one after the other: those of api/router/auth.rs, and between them any change of the table of
-- users by the administrators. Only login and logout send the command that writes `refresh_tokens`.
use Prim.Native.String.{String}
use modbus_tcplogger.Common.{ℕ, Option, List, [], ◌∷◌}
use modbus_tcplogger.Auth.{UserRead, AuthDb, Env, login, logout}

-- A request of the router `auth`, each with its own surroundings, or a change of `users`.
pub data AuthRequest : Type 0 where
  login_request : Env → String → String → AuthRequest
  logout_request : Env → String → AuthRequest
  refresh_request : Env → String → AuthRequest
  me_request : Env → Option (List ℕ) → AuthRequest
  users_changed : List UserRead → AuthRequest

-- What a request leaves in the tables.
unfoldable pub serve : AuthRequest → AuthDb → AuthDb
serve (login_request env username password) db = (login env username password db).1
serve (logout_request env token) db = (logout env token db).1
serve (refresh_request env token) db = db
serve (me_request env header) db = db
serve (users_changed users) db = record db { users = users }

unfoldable pub serve_all : List AuthRequest → AuthDb → AuthDb
serve_all [] db = db
serve_all (r ∷ rs) db = serve_all rs (serve r db)
