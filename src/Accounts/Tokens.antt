-- ===== src/Accounts/Tokens.antt =====
-- `generateTokens` of internal/handlers/auth.go. The JWT library is the record `Signer`.
use monkeys_identity.Base.{
  ℕ, ◌+◌, Bool, String, Text, List, Option, none, some, str_eq, ◌≡◌, if◌then◌else◌,
}
use monkeys_identity.Accounts.{User, Role, Assignment}
use monkeys_identity.Accounts.Roles.{get_primary_role_for_user}

-- jwt.MapClaims with the keys that the handlers write or read; `none` is a key that is not there.
pub record MapClaims : Type 0 where
  pub iss : Option String
  pub sub : Option String
  pub jti : Option String
  pub user_id : Option String
  pub email : Option Text
  pub organization_id : Option String
  pub role : Option String
  pub exp : Option ℕ
  pub iat : Option ℕ
  pub typ : Option String

-- `sign` is RS256 with the private key of the handler, which may be missing. `parse` is jwt.Parse with
-- a key function that always picks this secret, at a time. `parse_unverified` reads the claims
-- without looking at the signature.
pub record Signer : Type 0 where
  pub sign : MapClaims → Option String
  pub parse : String → ℕ → String → Option MapClaims
  pub parse_unverified : String → Option MapClaims
  pub parse_signed :
      (claims claims' : MapClaims) (secret token : String) (t : ℕ)
      → sign claims ≡ some token
      → parse secret t token ≡ some claims'
      → claims' ≡ claims

-- The two tokens and the lifetime of the first.
pub record TokenPair : Type 0 where
  pub access_token : String
  pub refresh_token : String
  pub expires_in : ℕ

abbrev pub access_lifetime : ℕ
access_lifetime = 3600

abbrev pub refresh_lifetime : ℕ
refresh_lifetime = 604800

abbrev pub refresh_claims : ℕ → User → String → MapClaims
refresh_claims now user refresh_id = record {
  iss = none;
  sub = some user.id;
  jti = some refresh_id;
  user_id = some user.id;
  email = none;
  organization_id = none;
  role = none;
  exp = some (now + refresh_lifetime);
  iat = some now;
  typ = some "refresh";
}

abbrev pub access_claims : ℕ → String → User → String → String → MapClaims
access_claims now issuer user role access_id = record {
  iss = some issuer;
  sub = some user.id;
  jti = some access_id;
  user_id = some user.id;
  email = some user.email;
  organization_id = some user.organization_id;
  role = some role;
  exp = some (now + access_lifetime);
  iat = some now;
  typ = some "access";
}

-- "user" where no role was found
abbrev pub or_user : Option String → String
or_user none = "user"
or_user (some name) = if str_eq name "" then "user" else name

-- the two texts, if both could be signed
abbrev pub signed_pair : Option String → Option String → Option TokenPair
signed_pair none refresh = none
signed_pair (some access) none = none
signed_pair (some access) (some refresh) =
    some (record { access_token = access; refresh_token = refresh; expires_in = access_lifetime })

module _ (sg : Signer) (issuer : String) where
  unfoldable pub generate_tokens :
      (down : Bool) (now : ℕ) (roles : List Role) (rows : List Assignment) (user : User)
      (access_id refresh_id : String)
      → Option TokenPair
  unfolding get_primary_role_for_user
  generate_tokens down now roles rows user access_id refresh_id =
      let role = or_user (get_primary_role_for_user down user.id user.organization_id roles rows) in
      signed_pair (sg.sign (access_claims now issuer user role access_id))
        (sg.sign (refresh_claims now user refresh_id))
