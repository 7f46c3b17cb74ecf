-- ===== src/Auth/Tests.antt =====
-- A user who logs in, renews and logs out.
use text.Mathlib.TextEquality.{eq_iff}
use text.Mathlib.Text.{◌==◌ as str_eq}
use modbus_tcplogger.Common.{
  ℕ, ◌≡◌, ◌≢◌, ◌↔◌, refl, sym, ◌∙◌, All, List, true, false, ltb, some, [], ◌∷◌, ◌++◌,
}
use modbus_tcplogger.Common.Int.{pos}
use modbus_tcplogger.Store.Sql.{first, any}
use modbus_tcplogger.Auth.{
  UserRead, Claims, AuthDb, answered, errored, Env, auth_response, all_right, bearer,
  verify_user_credentials, find_token, write_token, generate_access_token, save_token, login,
  logout, refresh_token, admin_route,
}
use modbus_tcplogger.Auth.Login.{IsAllowed, login-allowed_iff}
use modbus_tcplogger.Auth.Requests.{
  AuthRequest, login_request, logout_request, refresh_request, users_changed, serve_all,
}
use modbus_tcplogger.Auth.Logout.{IsCollation, IsOf, logout_ends_refresh}
use modbus_tcplogger.Auth.Guard.{stopped, served, IsAdmin, route-served_iff}

abbrev ivan : UserRead
ivan = record {
  id = pos 4;
  username = "ivan";
  password_hash = "pw";
  role_id = pos 1;
  is_active = true;
}

abbrev claims : Claims
claims = record { id = pos 4; role_id = pos 1; exp = pos 1900; iat = pos 1000 }

-- Every message is answered, and the second is the same for the whole request.
abbrev at_second : ℕ → Env
at_second t = record {
  delivery = λ n. answered;
  clock = λ n. pos t;
  encode = λ c. some (1 ∷ 2 ∷ []);
  decode = λ token. some claims;
  uuid = "abc";
  same_text = str_eq;
}

abbrev empty : AuthDb
empty = record { users = ivan ∷ []; tokens = [] }

abbrev session : AuthDb
session = (login (at_second 1000) "ivan" "pw" empty).1

logged_out : (logout (at_second 6000) "abc" session).0 ≡ all_right
unfolding logout find_token first save_token login verify_user_credentials generate_access_token
    write_token any
logged_out = refl

-- Between the logout and the refresh: a second logout, a new login, a refresh and a new user.
abbrev between : List AuthRequest
between =
    logout_request (at_second 6500) "abc"
    ∷ login_request (record (at_second 6600) { uuid = "def" }) "ivan" "pw"
    ∷ refresh_request (at_second 6700) "abc"
    ∷ users_changed (record ivan { id = pos 5; username = "petro" } ∷ [])
    ∷ []

str_eq-IsCollation : IsCollation str_eq
str_eq-IsCollation a b c h k = (eq_iff b c).1 (sym ((eq_iff a b).0 h) ∙ (eq_iff a c).0 k)

session-IsOf : All (IsOf str_eq "abc" (pos 4)) session.tokens
unfolding login verify_user_credentials first generate_access_token save_token write_token any
session-IsOf = (λ _. refl, tt)

logout_ends_refresh_example :
    refresh_token
      (at_second 7000)
      "abc"
      (serve_all between (logout (at_second 6000) "abc" session).1)
    ≢ auth_response (1 ∷ 2 ∷ []) "abc"
logout_ends_refresh_example =
    logout_ends_refresh (at_second 6000) (at_second 7000) "abc" session (pos 4) between
      str_eq-IsCollation session-IsOf refl logged_out ((refl, λ _. refl), (refl, (tt, (tt, tt))))
      refl refl (1 ∷ 2 ∷ []) "abc"

-- A second logout makes the token good again, for the second in which it comes.
second_logout :
    refresh_token
      (at_second 7000)
      "abc"
      (logout (at_second 7000) "abc" (logout (at_second 6000) "abc" session).1).1
    ≡ auth_response (1 ∷ 2 ∷ []) "abc"
unfolding refresh_token logout find_token first save_token login verify_user_credentials
    generate_access_token write_token any
second_logout = refl

login-allowed_iff_example :
    ((login (at_second 1000) "ivan" "pw" empty).0 ≡ auth_response (1 ∷ 2 ∷ []) "abc")
    ↔ IsAllowed (at_second 1000) "ivan" "pw" empty (1 ∷ 2 ∷ []) "abc"
login-allowed_iff_example = login-allowed_iff (at_second 1000) "ivan" "pw" empty (1 ∷ 2 ∷ []) "abc"

-- A login whose token the database refuses to save is answered with tokens; the refresh token is not known.
abbrev unsaving : Env
unsaving = record (at_second 1000) {
  delivery = λ n. elim (ltb n 1) [ true ↦ answered | false ↦ errored ];
}

unsaved_login : login unsaving "ivan" "pw" empty ≡ (auth_response (1 ∷ 2 ∷ []) "abc", empty)
unfolding login verify_user_credentials first generate_access_token save_token
unsaved_login = refl

-- In the very second of the logout the token is still good.
same_second :
    refresh_token (at_second 6000) "abc" (logout (at_second 6000) "abc" session).1
    ≡ auth_response (1 ∷ 2 ∷ []) "abc"
unfolding refresh_token logout find_token first save_token login verify_user_credentials
    generate_access_token write_token any
same_second = refl

-- A logout that the database refuses is answered with 200, and the token stays good.
abbrev failing : Env
failing = record (at_second 6000) {
  delivery = λ n. elim (ltb n 1) [ true ↦ answered | false ↦ errored ];
}

unsaved_logout : logout failing "abc" session ≡ (all_right, session)
unfolding logout find_token first save_token login verify_user_credentials generate_access_token
    write_token any
unsaved_logout = refl

-- A user who has been switched off logs in all the same.
abbrev switched_off : AuthDb
switched_off = record { users = record ivan { is_active = false } ∷ []; tokens = [] }

inactive_login :
    (login (at_second 1000) "ivan" "pw" switched_off).0 ≡ auth_response (1 ∷ 2 ∷ []) "abc"
unfolding login verify_user_credentials first generate_access_token save_token
inactive_login = refl

route-served_iff_example :
    (admin_route (at_second 1000) stopped served (some (bearer ++ (9 ∷ []))) ≡ served claims)
    ↔ IsAdmin (at_second 1000) (some (bearer ++ (9 ∷ []))) claims
route-served_iff_example = route-served_iff (at_second 1000) (some (bearer ++ (9 ∷ []))) claims
