-- ===== src/Oidc.antt =====
-- The OpenID Connect provider: internal/services/oidc_service.go, internal/queries/oidc_queries.go
-- and internal/handlers/oidc_handler.go. The tables are lists of rows; each call of the database can
-- fail, which a flag of `Faults` says. Times are seconds.
pub mod Clients
pub mod Codes
pub mod Exchange
pub mod Laws
pub mod Gaps
pub mod Handlers
mod Tests
use monkeys_identity.Base.{ℕ, Bool, String, List, Option}

-- models.OAuthClient, a row of `oauth_clients`.
pub record OauthClient : Type 0 where
  pub id : String
  pub organization_id : String
  pub client_name : String
  pub client_secret_hash : String
  pub redirect_uris : List String
  pub grant_types : List String
  pub response_types : List String
  pub scope : String
  pub is_public : Bool
  pub is_trusted : Bool
  pub logo_url : Option String
  pub policy_uri : Option String
  pub tos_uri : Option String
  pub created_at : ℕ
  pub updated_at : ℕ
  pub deleted_at : Option ℕ

-- models.OIDCAuthCode
pub record AuthCode : Type 0 where
  pub code : String
  pub user_id : String
  pub client_id : String
  pub scope : String
  pub nonce : Option String
  pub redirect_uri : String
  pub expires_at : ℕ
  pub used : Bool
  pub organization_id : String

-- A row of the table `oidc_codes`, which has no column for the organization.
pub record CodeRow : Type 0 where
  pub code : String
  pub user_id : String
  pub client_id : String
  pub scope : String
  pub nonce : Option String
  pub redirect_uri : String
  pub expires_at : ℕ
  pub used : Bool

-- The columns of `users` that the provider reads.
pub record UserRow : Type 0 where
  pub id : String
  pub organization_id : String
  pub email : String
  pub email_verified : Bool
  pub display_name : String
  pub username : String
  pub deleted_at : Option ℕ

pub record Tables : Type 0 where
  pub oauth_clients : List OauthClient
  pub oidc_codes : List CodeRow
  pub users : List UserRow

-- Which calls of the database fail.
pub record Faults : Type 0 where
  pub get_client : Bool
  pub write_client : Bool
  pub save_code : Bool
  pub get_code : Bool
  pub mark_code : Bool
  pub get_user : Bool

pub data OidcError : Type 0 where
  database_error invalid_client invalid_client_secret invalid_redirect_uri invalid_grant : OidcError
  client_not_found user_not_found signing_failed : OidcError
