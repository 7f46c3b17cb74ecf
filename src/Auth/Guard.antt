-- ===== src/Auth/Guard.antt =====
-- What a request must show to reach a route for administrators.
use modbus_tcplogger.Common.{
  ℕ, ◌≡◌, ◌↔◌, refl, sym, ap, ◌∙◌, Bool, true, false, not, Option, none, some, List, [], ◌∷◌, ◌++◌,
  ==_iff, if◌then◌else◌, arith,
}
use modbus_tcplogger.Common.Int.{pos, eqb_ℤ, eqb_ℤ_iff}
use modbus_tcplogger.Auth.{
  Claims, Env, bearer, strip_prefix, admin_middleware, with_claims, with_token, auth_middleware,
  admin_route,
}

strip_prefix-append : (ps text : List ℕ) → strip_prefix ps (ps ++ text) ≡ some text
unfolding strip_prefix
strip_prefix-append [] text = refl
strip_prefix-append (p ∷ ps) text = rw ((==_iff p p).1 refl, strip_prefix-append ps text) refl

strip_prefix-inv :
    (ps header text : List ℕ) → strip_prefix ps header ≡ some text → header ≡ ps ++ text
unfolding strip_prefix
strip_prefix-inv [] header text e = cc
strip_prefix-inv (p ∷ ps) [] text e = cc
strip_prefix-inv (p ∷ ps) (c ∷ header) text e = ground (arith, strip_prefix-inv ps header text)

-- How a request ends: refused with a status code, or served with its claims.
pub data Passage : Type 0 where
  stopped : ℕ → Passage
  served : Claims → Passage

-- The header holds a token that decodes to the claims, and their role is that of administrators.
abbrev pub IsAdmin : Env → Option (List ℕ) → Claims → Type 0
IsAdmin env header claims =
    (token : List ℕ) × (header ≡ some (bearer ++ token))
    × (env.decode token ≡ some claims)
    × (claims.role_id ≡ pos 1)

admin-served :
    (c claims : Claims)
    → admin_middleware stopped served (some c) ≡ served claims
    → (c ≡ claims) × (claims.role_id ≡ pos 1)
unfolding admin_middleware
admin-served c claims e = go (eqb_ℤ c.role_id (pos 1)) refl e
  where
    go :
        (b : Bool)
        → eqb_ℤ c.role_id (pos 1) ≡ b
        → (if not b then stopped 403 else served c) ≡ served claims
        → (c ≡ claims) × (claims.role_id ≡ pos 1)
    go false eq e = cc
    go true eq e =
        let same : c ≡ claims = cc in
        (same, ap (λ d. d.role_id) (sym same) ∙ (eqb_ℤ_iff c.role_id (pos 1)).0 eq)

route-served_inv :
    (env : Env) (header : Option (List ℕ)) (claims : Claims)
    → admin_route env stopped served header ≡ served claims
    → IsAdmin env header claims
unfolding admin_route auth_middleware
route-served_inv env none claims e = cc
route-served_inv env (some header) claims e = stripped (strip_prefix bearer header) refl e
  where
    decoded :
        (token : List ℕ) (o : Option Claims)
        → env.decode token ≡ o
        → with_claims stopped (λ c. admin_middleware stopped served (some c)) o ≡ served claims
        → (env.decode token ≡ some claims) × (claims.role_id ≡ pos 1)
    decoded token none eq e = cc
    decoded token (some c) eq e =
        let (same, role) = admin-served c claims e in (eq ∙ ap (λ d. some d) same, role)

    stripped :
        (o : Option (List ℕ))
        → strip_prefix bearer header ≡ o
        → with_token env stopped (λ c. admin_middleware stopped served (some c)) o ≡ served claims
        → IsAdmin env (some header) claims
    stripped none eq e = cc
    stripped (some token) eq e =
        let (d, role) = decoded token (env.decode token) refl e in
        (token, ap (λ h. some h) (strip_prefix-inv bearer header token eq), d, role)

admin-is-served :
    (env : Env) (header : Option (List ℕ)) (claims : Claims)
    → IsAdmin env header claims
    → admin_route env stopped served header ≡ served claims
unfolding admin_route auth_middleware admin_middleware
admin-is-served env header claims (token, is_header, decodes, role) =
    let admin = (eqb_ℤ_iff claims.role_id (pos 1)).1 role in
    rw (is_header, strip_prefix-append bearer token, decodes, admin) refl

-- A request reaches a route behind both layers, with these claims, if and only if its header holds
-- a token that decodes to them and their role is 1.
pub route-served_iff :
    (env : Env) (header : Option (List ℕ)) (claims : Claims)
    → (admin_route env stopped served header ≡ served claims) ↔ IsAdmin env header claims
route-served_iff env header claims =
    (route-served_inv env header claims, admin-is-served env header claims)
