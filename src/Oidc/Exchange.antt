-- ===== src/Oidc/Exchange.antt =====
-- `ExchangeCodeForToken`: the reads and checks, then the writes and the signing. Two exchanges may
-- interleave between the two parts.
use monkeys_identity.Base.{
  ℕ, ◌+◌, Bool, not, ◌&&◌, ◌||◌, String, Option, none, some, str_eq, ltb, find, Result, ok, err,
  ◌>>=◌, ◌>>◌, ensure, if◌then◌else◌,
}
use monkeys_identity.Oidc.{
  AuthCode, UserRow, Tables, Faults, OidcError, invalid_grant, invalid_client_secret,
  user_not_found, signing_failed,
}
use monkeys_identity.Oidc.Clients.{validate_client, is_live}
use monkeys_identity.Oidc.Codes.{get_auth_code, mark_auth_code_used}

-- The claims of the two tokens. The profile is there if a user was found, which is always so.
pub record IdClaims : Type 0 where
  pub iss : String
  pub sub : String
  pub aud : String
  pub exp : ℕ
  pub iat : ℕ
  pub nonce : Option String
  pub email : String
  pub email_verified : Bool
  pub name : String
  pub preferred_username : String

pub record AccessClaims : Type 0 where
  pub iss : String
  pub sub : String
  pub aud : String
  pub exp : ℕ
  pub iat : ℕ
  pub scope : String
  pub client_id : String
  pub organization_id : String

pub record TokenResponse : Type 0 where
  pub access_token : String
  pub id_token : String
  pub token_type : String
  pub expires_in : ℕ
  pub scope : String

-- What the service calls: bcrypt, and the two signatures with its private key, which may fail.
pub record Crypto : Type 0 where
  pub compare_hash : String → String → Bool
  pub sign_id : IdClaims → Option String
  pub sign_access : AccessClaims → Option String

-- `GetUserByID`: an empty organization is no filter.
abbrev pub user_with : String → String → UserRow → Bool
user_with id org_id row =
    str_eq row.id id
    && is_live row.deleted_at
    && (str_eq org_id "" || str_eq row.organization_id org_id)

abbrev require_user : Option UserRow → Result OidcError UserRow
require_user none = err user_not_found
require_user (some user) = ok user

unfoldable pub get_user_by_id : Faults → Tables → String → String → Result OidcError UserRow
get_user_by_id f t id org_id =
    if f.get_user then err user_not_found else require_user (find (user_with id org_id) t.users)

abbrev require_code : Option AuthCode → Result OidcError AuthCode
require_code none = err invalid_grant
require_code (some c) = ok c

abbrev require_signed : Option String → Result OidcError String
require_signed none = err signing_failed
require_signed (some t) = ok t

module _ (crypto : Crypto) (issuer : String) where
  -- the part up to `MarkAuthCodeUsed`
  unfoldable pub check_code :
      Faults → ℕ → Tables → (code client_id client_secret : String) → Result OidcError AuthCode
  unfolding get_auth_code
  check_code f now t code client_id client_secret = do
    found ← get_auth_code f t code
    auth_code ← require_code found
    ensure (not (auth_code.used || ltb auth_code.expires_at now)) invalid_grant
    client ← validate_client crypto.compare_hash f t client_id client_secret auth_code.redirect_uri
    ensure (not (not client.is_public && str_eq client_secret "")) invalid_client_secret
    ok auth_code

  abbrev pub id_claims : ℕ → String → AuthCode → UserRow → IdClaims
  id_claims now client_id c user = record {
    iss = issuer;
    sub = c.user_id;
    aud = client_id;
    exp = now + 3600;
    iat = now;
    nonce = c.nonce;
    email = user.email;
    email_verified = user.email_verified;
    name = user.display_name;
    preferred_username = user.username;
  }

  abbrev pub access_claims : ℕ → String → AuthCode → AccessClaims
  access_claims now client_id c = record {
    iss = issuer;
    sub = c.user_id;
    aud = client_id;
    exp = now + 3600;
    iat = now;
    scope = c.scope;
    client_id = client_id;
    organization_id = c.organization_id;
  }

  -- the tokens, from the tables after the code was marked
  unfoldable pub sign_tokens :
      Faults → ℕ → Tables → String → AuthCode → Result OidcError TokenResponse
  unfolding get_user_by_id
  sign_tokens f now t client_id c = do
    user ← get_user_by_id f t c.user_id c.organization_id
    id_token ← require_signed (crypto.sign_id (id_claims now client_id c user))
    access_token ← require_signed (crypto.sign_access (access_claims now client_id c))
    ok (record {
      access_token = access_token;
      id_token = id_token;
      token_type = "Bearer";
      expires_in = 3600;
      scope = c.scope;
    })

  -- the part from `MarkAuthCodeUsed` on: what was written stays, also where a later step fails
  unfoldable pub redeem :
      Faults
      → ℕ
      → (code client_id : String) → AuthCode
      → Tables
      → Result OidcError TokenResponse × Tables
  redeem f now code client_id c t = elim (mark_auth_code_used f t code) [
    | err e ↦ (err e, t)
    | ok t' ↦ (sign_tokens f now t' client_id c, t')
  ]

  unfoldable pub exchange_code_for_token :
      Faults
      → ℕ
      → (code client_id client_secret : String) → Tables
      → Result OidcError TokenResponse × Tables
  unfolding check_code redeem
  exchange_code_for_token f now code client_id client_secret t =
      elim (check_code f now t code client_id client_secret) [
        | err e ↦ (err e, t)
        | ok c ↦ redeem f now code client_id c t
      ]
