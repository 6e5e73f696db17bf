-- ===== src/Middleware/Auth.antt =====
-- internal/middleware/auth.go. The JWT library is the record `Jwt`; times are seconds.
pub mod Laws
use Prim.Native.Char.{Char, code}
use Prim.Native.String
use monkeys_identity.Base.{
  ℕ, ◌+◌, Bool, true, false, not, ◌&&◌, String, List, [], ◌∷◌, Option, none, some, ltb, leb, str_eq,
  ◌==◌, length, ◌≡◌, any, lookup, if◌then◌else◌, Result, ok, err,
}
use monkeys_identity.Platform.{Unicode, Net}
use monkeys_identity.Authz.Value
use monkeys_identity.Authz.Evaluator.{Decision, allow, deny, not_applicable, PolicyDocument}
use monkeys_identity.Authz.Service.{Grants, authorize}
use monkeys_identity.Middleware.{Locals, Request, Outcome, next, reply, panic, Handler}

-- The signing method that a token's header names.
pub data Method : Type 0 where
  rsa hmac other : Method

pub data Key : Type 0 where
  public_key : String → Key
  secret : String → Key

pub record Claims : Type 0 where
  pub user_id : String
  pub organization_id : String
  pub email : String
  pub role : String
  pub jti : String
  pub subject : String
  pub expires_at : Option ℕ

-- `jwt.ParseWithClaims`: the claims of a token that is valid under the key which the key function
-- picks for its method, or `none`. `Verified` is what the library means by a valid signature.
pub record Jwt : Type 1 where
  pub parse_with_claims : (Method → Option Key) → String → Option Claims
  pub Verified : Key → String → Claims → Type 0
  pub parse_sound :
      (key_of : Method → Option Key) (token : String) (claims : Claims)
      → parse_with_claims key_of token ≡ some claims
      → (m : Method) × (k : Key) × (key_of m ≡ some k) × Verified k token claims

-- The fields of `AuthMiddleware`, and Redis as it answers `EXISTS`: `none` is an error.
pub record AuthMiddleware : Type 0 where
  pub jwt_secret : String
  pub public_key : Option String
  pub exists : String → Option ℕ

-- strings.Split by one character.
unfoldable pub extend : Char → List String → List String
extend c [] = String.◌∷◌ c String.[] ∷ []
extend c (w ∷ ws) = String.◌∷◌ c w ∷ ws

unfoldable pub split : ℕ → String → List String
unfolding extend
split sep String.[] = "" ∷ []
split sep (String.◌∷◌ c s) =
    let rest = split sep s in if code c == sep then "" ∷ rest else extend c rest

-- "Bearer <token>"
bearer : List String → String
bearer (scheme ∷ token ∷ []) = if str_eq scheme "Bearer" then token else ""
bearer _ = ""

-- The token of the header, else of the cookie; "" if there is none.
unfoldable pub token_of : Request → String
unfolding split bearer
token_of r =
    let from_header =
      if str_eq r.authorization "" then "" else bearer (split b' ' r.authorization) in
    if str_eq from_header "" then r.access_token else from_header

-- the key function
unfoldable pub key_for : AuthMiddleware → Method → Option Key
key_for am rsa = elim am.public_key [ none ↦ none | some k ↦ some (public_key k) ]
key_for am hmac = some (secret am.jwt_secret)
key_for am other = none

abbrev pub user_of : Claims → String
user_of claims = if str_eq claims.user_id "" then claims.subject else claims.user_id

-- A token with an id is revoked if Redis says so; an error of Redis is taken for "not revoked".
unfoldable pub is_blacklisted : AuthMiddleware → Claims → Bool
is_blacklisted am claims =
    not (str_eq claims.jti "")
    && elim (am.exists (String.◌++◌ "blacklist:" claims.jti)) [ none ↦ false | some n ↦ ltb 0 n ]

-- what `OptionalAuth` stores: all but the session
abbrev pub with_user : Claims → Request → Request
with_user claims r = record r {
  locals = record (r.locals) {
    user_id = some (user_of claims);
    organization_id = some claims.organization_id;
    email = some claims.email;
    role = some claims.role;
  };
}

abbrev pub with_claims : Claims → Request → Request
with_claims claims r = record r {
  locals = record (r.locals) {
    user_id = some (user_of claims);
    organization_id = some claims.organization_id;
    email = some claims.email;
    role = some claims.role;
    session_id = some claims.jti;
  };
}

module _ (jwt : Jwt) (am : AuthMiddleware) where
  -- the checks after parsing; `claims.ExpiresAt.Before` on a nil pointer is a panic
  unfoldable pub accept_claims : ℕ → Claims → Handler
  accept_claims now claims r = elim claims.expires_at [
    | none ↦ panic
    | some expires_at ↦
        if ltb expires_at now
        then reply 401 "Token has expired"
        else if is_blacklisted am claims
        then reply 401 "Token has been revoked"
        else next (with_claims claims r)
  ]

  unfoldable pub require_auth : ℕ → Handler
  unfolding accept_claims
  require_auth now r =
      if str_eq (token_of r) ""
      then reply 401 "Authorization required"
      else elim (jwt.parse_with_claims (key_for am) (token_of r)) [
        | none ↦ reply 401 "Invalid or expired token"
        | some claims ↦ accept_claims now claims r
      ]

  -- Without a valid token the request goes on as it came; expiry and the blacklist are not looked at.
  unfoldable pub optional_auth : Handler
  optional_auth r =
      if str_eq (token_of r) ""
      then next r
      else elim (jwt.parse_with_claims (key_for am) (token_of r)) [
        | none ↦ next r
        | some claims ↦ next (with_user claims r)
      ]

unfoldable pub require_role : List String → Handler
require_role allowed_roles r = elim r.locals.role [
  | none ↦ reply 403 "Role information not found"
  | some role ↦
      if any (λ allowed. str_eq role allowed) allowed_roles
      then next r
      else reply 403 "Insufficient permissions"
]

-- The `RequireOrgAccess` of auth.go.
unfoldable pub require_own_org : Handler
require_own_org r = elim r.locals.organization_id [
  | none ↦ reply 403 "Organization context not found"
  | some caller ↦
      if str_eq r.id ""
      then next r
      else if not (str_eq caller r.id)
      then reply 403 "Access denied: you can only manage your own organization"
      else next r
]
