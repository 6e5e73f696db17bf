-- ===== src/Oidc/Handlers.antt =====
-- internal/handlers/oidc_handler.go: the authorization endpoint, the consent, the token endpoint,
-- and the management of clients.
pub mod Redirects
pub mod Tenancy
use monkeys_identity.Base.{
  ℕ, Bool, true, false, not, ◌&&◌, ◌||◌, String, List, [], ◌∷◌, Option, none, some, str_eq, Result,
  ok, err, if◌then◌else◌,
}
use monkeys_identity.Oidc.{OauthClient, Tables, Faults, OidcError, client_not_found}
use monkeys_identity.Oidc.Clients.{validate_client, create_client, update_client, delete_client}
use monkeys_identity.Oidc.Codes.{create_authorization_code}
use monkeys_identity.Oidc.Exchange.{Crypto, TokenResponse, exchange_code_for_token}

-- The endings of the two endpoints that lead back to a client. `grant` redirects to the address with
-- a code, `denied` with the error "access_denied".
pub data Ending : Type 0 where
  bad_request : OidcError → Ending
  invalid_request login_required server_error : Ending
  login_page consent_page : Ending
  grant : (redirect_uri code state : String) → Ending
  denied : (redirect_uri state : String) → Ending

-- The query of /oauth2/authorize and the body of /oauth2/consent, with the user of the request.
pub record AuthorizeRequest : Type 0 where
  pub client_id : String
  pub redirect_uri : String
  pub scope : String
  pub state : String
  pub nonce : String
  pub decision : String
  pub user_id : Option String
  pub organization_id : String

module _ (f : Faults) (now : ℕ) (fresh : String) where
  -- the code and the redirection with it
  unfoldable pub issue_code : AuthorizeRequest → String → Tables → Ending × Tables
  issue_code r user_id t =
      elim (create_authorization_code f now fresh t user_id r.organization_id r.client_id r.scope
        r.nonce r.redirect_uri) [
          | err e ↦ (server_error, t)
          | ok (code, t') ↦ (grant r.redirect_uri code r.state, t')
        ]

  module _ (compare_hash : String → String → Bool) where
    unfoldable pub authorize_endpoint : AuthorizeRequest → Tables → Ending × Tables
    unfolding issue_code
    authorize_endpoint r t = elim (validate_client compare_hash f t r.client_id "" r.redirect_uri) [
      | err e ↦ (bad_request e, t)
      | ok client ↦ elim r.user_id [
        | none ↦ (login_page, t)
        | some user_id ↦ if client.is_trusted then issue_code r user_id t else (consent_page, t)
      ]
    ]

    unfoldable pub handle_consent : AuthorizeRequest → Tables → Ending × Tables
    unfolding issue_code
    handle_consent r t = elim r.user_id [
      | none ↦ (login_required, t)
      | some user_id ↦
          if not (str_eq r.decision "allow")
          then (denied r.redirect_uri r.state, t)
          else elim (validate_client compare_hash f t r.client_id "" r.redirect_uri) [
            | err e ↦ (bad_request e, t)
            | ok client ↦ issue_code r user_id t
          ]
    ]

-- The credentials of /oauth2/token: the form's, or those of a Basic header where the form names no
-- client. `basic` is the decoded header cut at its first colon, `none` where there is none.
abbrev credentials : String → String → Option (String × String) → String × String
credentials client_id secret none = (client_id, secret)
credentials client_id secret (some pair) = if str_eq client_id "" then pair else (client_id, secret)

pub data TokenEnding : Type 0 where
  unsupported_grant_type : TokenEnding
  refused : OidcError → TokenEnding
  tokens : TokenResponse → TokenEnding

abbrev token_ending : Result OidcError TokenResponse → TokenEnding
token_ending (ok resp) = tokens resp
token_ending (err e) = refused e

unfoldable pub token_endpoint :
    Crypto
    → String
    → Faults
    → ℕ
    → (grant_type code client_id secret : String) → Option (String × String)
    → Tables
    → TokenEnding × Tables
token_endpoint crypto issuer f now grant_type code client_id secret basic t =
    let c = credentials client_id secret basic in
    if not (str_eq grant_type "authorization_code")
    then (unsupported_grant_type, t)
    else (let r = exchange_code_for_token crypto issuer f now code c.0 c.1 t in
        (token_ending r.0, r.1))

-- Client management. A body that cannot be read is `none`; the caller's organization is that of the
-- request's token.
pub record ClientRequest : Type 0 where
  pub client_name : String
  pub redirect_uris : List String
  pub scope : String
  pub is_public : Bool
  pub logo_url : Option String

pub data ClientEnding : Type 0 where
  created updated deleted : ClientEnding
  bad_client_request : ClientEnding
  not_found : ClientEnding
  internal_error : ClientEnding

abbrev is_empty {ℓ} : {A : Type ℓ} → List A → Bool
is_empty [] = true
is_empty (_ ∷ _) = false

abbrev pub new_client : ℕ → (org_id client_id hash : String) → ClientRequest → OauthClient
new_client now org_id client_id hash req = record {
  id = client_id;
  organization_id = org_id;
  client_name = req.client_name;
  client_secret_hash = hash;
  redirect_uris = req.redirect_uris;
  grant_types = "authorization_code" ∷ "refresh_token" ∷ [];
  response_types = "code" ∷ [];
  scope = if str_eq req.scope "" then "openid profile email" else req.scope;
  is_public = req.is_public;
  is_trusted = false;
  logo_url = req.logo_url;
  policy_uri = none;
  tos_uri = none;
  created_at = now;
  updated_at = now;
  deleted_at = none;
}

module _ (f : Faults) (now : ℕ) (org_id : String) where
  abbrev written : ClientEnding → Tables → Result OidcError Tables → ClientEnding × Tables
  written done t (ok t') = (done, t')
  written done t (err client_not_found) = (not_found, t)
  written done t (err _) = (internal_error, t)

  -- `hash` is bcrypt's answer for the drawn secret, `none` an error.
  unfoldable pub register_client :
      (client_id : String) → Option String → Option ClientRequest → Tables → ClientEnding × Tables
  register_client client_id hash none t = (bad_client_request, t)
  register_client client_id hash (some req) t =
      if str_eq req.client_name "" || is_empty req.redirect_uris
      then (bad_client_request, t)
      else elim hash [
        | none ↦ (internal_error, t)
        | some h ↦ written created t (create_client f t (new_client now org_id client_id h req))
      ]

  -- The handler does not read the caller's organization.
  unfoldable pub update_client_endpoint :
      (client_id : String) → Option ClientRequest → Tables → ClientEnding × Tables
  update_client_endpoint client_id none t = (bad_client_request, t)
  update_client_endpoint client_id (some req) t =
      if str_eq client_id ""
      then (bad_client_request, t)
      else written updated t (
          update_client f now t client_id
            (record (new_client now "" "" "" req) { scope = req.scope }))

  unfoldable pub delete_client_endpoint : (client_id : String) → Tables → ClientEnding × Tables
  delete_client_endpoint client_id t = written deleted t (delete_client f now t client_id org_id)
