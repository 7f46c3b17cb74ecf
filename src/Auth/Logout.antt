-- ===== src/Auth/Logout.antt =====
-- What a logout of api/router/auth.rs ends, whatever requests follow.
use mathlib.Core.Path.{subst}
use Prim.Native.String.{String}
use modbus_tcplogger.Common.{
  ℕ, ◌≡◌, ◌≢◌, refl, sym, ◌∙◌, Bool, true, false, Option, none, some, List, [], ◌∷◌, All,
}
use modbus_tcplogger.Common.Int.{ℤ, eqb_ℤ_iff, ltb_ℤ}
use modbus_tcplogger.Store.Sql.{first}
use modbus_tcplogger.Auth.{
  RefreshToken, AuthDb, Delivery, unsent, answered, errored, dropped, Env, auth_response, all_right,
  find_token, save_token, logout_found, logout_asked, logout, refresh_found, refresh_asked,
  refresh_token,
}
use modbus_tcplogger.Auth.Requests.{
  AuthRequest, login_request, logout_request, refresh_request, me_request, users_changed, serve,
  serve_all,
}
use modbus_tcplogger.Auth.Rows.{first-All, login-keeps, logout-keeps, write_token-All}

true≢false : true ≢ false
true≢false e = cc

-- The collation puts texts into classes.
abbrev pub IsCollation : (String → String → Bool) → Type 0
IsCollation same = (a b c : String) → same a b ≡ true → same a c ≡ true → same b c ≡ true

module _ (same : String → String → Bool) (token : String) where
  -- All rows that carry the text are of one user, as they are where no two logins make the same uuid:
  -- `user_id` is the key of the table.
  abbrev pub IsOf : ℤ → RefreshToken → Type 0
  IsOf u o = same o.token_hash token ≡ true → o.user_id ≡ u

  module _ (now : ℤ) where
    -- If the row carries the text, it is over before `now`.
    abbrev IsOver : RefreshToken → Type 0
    IsOver o = same o.token_hash token ≡ true → ltb_ℤ o.expires_at now ≡ true

    abbrev AllOver : AuthDb → Type 0
    AllOver db = All IsOver db.tokens

    -- A login gets another uuid, and a logout with this token comes before `now`.
    abbrev pub IsBefore : AuthRequest → Type 0
    IsBefore (login_request env username password) = same env.uuid token ≡ false
    IsBefore (logout_request env t) =
        (env.same_text ≡ same) × (same t token ≡ true → ltb_ℤ (env.clock 0) now ≡ true)
    IsBefore (refresh_request env t) = Unit
    IsBefore (me_request env header) = Unit
    IsBefore (users_changed users) = Unit

    -- What `find_token` finds.
    found_first :
        (env : Env) (t : String) (db : AuthDb) (r : RefreshToken)
        → env.same_text ≡ same
        → find_token env t db ≡ some r
        → first (λ o. same o.token_hash t) db.tokens ≡ some r
    unfolding find_token
    found_first env t db r is_same found =
        subst (λ s. first (λ o. s o.token_hash t) db.tokens ≡ some r) is_same found

    serve-AllOver :
        (r : AuthRequest) (db : AuthDb)
        → IsCollation same
        → IsBefore r
        → AllOver db
        → AllOver (serve r db)
    unfolding serve
    serve-AllOver (login_request env username password) db classes before over =
        login-keeps AllOver db over env username password λ user.
          write_token-All IsOver IsOver _ (λ carries. absurd (true≢false (sym carries ∙ before)))
            (λ o h _. h) db over
    serve-AllOver (logout_request env t) db classes before over =
        logout-keeps AllOver db over env t λ r found.
          let (_, carries_t) =
            first-All IsOver (λ o. same o.token_hash t) db.tokens r over
              (found_first env t db r before.0 found) in
          write_token-All IsOver IsOver _
            (λ carries. before.1 (classes r.token_hash t token carries_t carries)) (λ o h _. h) db
            over
    serve-AllOver (refresh_request env t) db classes before over = over
    serve-AllOver (me_request env header) db classes before over = over
    serve-AllOver (users_changed users) db classes before over = over

    serve_all-AllOver :
        (rs : List AuthRequest) (db : AuthDb)
        → IsCollation same
        → All IsBefore rs
        → AllOver db
        → AllOver (serve_all rs db)
    unfolding serve_all
    serve_all-AllOver [] db classes before over = over
    serve_all-AllOver (r ∷ rs) db classes before over =
        serve_all-AllOver rs (serve r db) classes before.1
          (serve-AllOver r db classes before.0 over)

    -- The logout that has worked.
    logout-AllOver :
        (env : Env) (db : AuthDb) (u : ℤ)
        → env.same_text ≡ same
        → All (IsOf u) db.tokens
        → env.delivery 1 ≡ answered
        → (logout env token db).0 ≡ all_right
        → ltb_ℤ (env.clock 0) now ≡ true
        → AllOver (logout env token db).1
    unfolding logout save_token
    logout-AllOver env db u is_same sole d1 e early = asked (env.delivery 0) e
      where
        found :
            (o : Option RefreshToken)
            → find_token env token db ≡ o
            → (logout_found env o db).0 ≡ all_right
            → AllOver (logout_found env o db).1
        found none h k = cc
        found (some r) h k =
            let (own, carries) =
              first-All (IsOf u) (λ o. same o.token_hash token) db.tokens r sole
                (found_first env token db r is_same h) in
            rw d1 (
              write_token-All IsOver (IsOf u)
                (record r { created_at = env.clock 0; expires_at = env.clock 0 }) (λ _. early)
                (λ o is_of foreign carries_o. absurd (
                  true≢false (
                    sym ((eqb_ℤ_iff o.user_id r.user_id).1 (is_of carries_o ∙ sym (own carries)))
                    ∙ foreign)))
                db sole)

        asked :
            (d : Delivery)
            → (logout_asked env d token db).0 ≡ all_right
            → AllOver (logout_asked env d token db).1
        asked unsent k = cc
        asked answered k = found (find_token env token db) refl k
        asked errored k = cc
        asked dropped k = cc

    refresh-AllOver :
        (later : Env) (db : AuthDb) (access : List ℕ) (text : String)
        → later.same_text ≡ same
        → later.clock 0 ≡ now
        → AllOver db
        → refresh_token later token db ≢ auth_response access text
    unfolding refresh_token
    refresh-AllOver later db access text is_same is_now over = asked (later.delivery 0)
      where
        found :
            (o : Option RefreshToken)
            → find_token later token db ≡ o
            → refresh_found later token o ≢ auth_response access text
        found none h = λ k. cc
        found (some r) h =
            let (ends, carries) =
              first-All IsOver (λ o. same o.token_hash token) db.tokens r over
                (found_first later token db r is_same h) in
            rw (is_now, ends carries) (λ k. cc)

        asked : (d : Delivery) → refresh_asked later d token db ≢ auth_response access text
        asked unsent = λ k. cc
        asked answered = found (find_token later token db) refl
        asked errored = λ k. cc
        asked dropped = λ k. cc

-- Once a logout has been answered well and its update of the token is done, no refresh with that
-- token gets an access token at a later second, whatever requests come between them, one after the
-- other: logins, logouts, refreshes, and changes of the table of users. The conditions: the rows
-- that carried the token were of one user; the collation puts texts into classes and stays the
-- same; no login between makes the same uuid; and no logout between with that token is in the
-- second of the refresh or after it.
pub logout_ends_refresh :
    (env later : Env) (token : String) (db : AuthDb) (u : ℤ) (requests : List AuthRequest)
    → IsCollation env.same_text
    → All (IsOf env.same_text token u) db.tokens
    → env.delivery 1 ≡ answered
    → (logout env token db).0 ≡ all_right
    → All (IsBefore env.same_text token (later.clock 0)) requests
    → later.same_text ≡ env.same_text
    → ltb_ℤ (env.clock 0) (later.clock 0) ≡ true
    → (access : List ℕ) (text : String)
    → refresh_token later token (serve_all requests (logout env token db).1)
      ≢ auth_response access text
logout_ends_refresh env later token db u requests classes sole d1 e before is_same early access
      text =
    refresh-AllOver env.same_text token (later.clock 0) later _ access text is_same refl (
      serve_all-AllOver env.same_text token (later.clock 0) requests (logout env token db).1 classes
        before (logout-AllOver env.same_text token (later.clock 0) env db u refl sole d1 e early))
