-- ===== src/Oidc/Tests.antt =====
-- Tests of the OpenID Connect provider, and the theorems at concrete inputs.
use monkeys_identity.Base.{
  true, false, [], ◌∷◌, none, some, str_eq, find, ok, err, ◌≡◌, ◌≢◌, refl, arith, eq_iff,
}
use monkeys_identity.Oidc.{
  OauthClient, AuthCode, CodeRow, Tables, Faults, invalid_grant, invalid_client_secret,
  invalid_redirect_uri,
}
use monkeys_identity.Oidc.Clients.{client_with, validate_client}
use monkeys_identity.Oidc.Codes.{
  loaded, get_auth_code, mark_auth_code_used, create_authorization_code, save_auth_code,
}
use monkeys_identity.Oidc.Exchange.{
  Crypto, TokenResponse, check_code, redeem, exchange_code_for_token, sign_tokens,
}
use monkeys_identity.Oidc.Laws.{IsValidated, IsRedeemable, exchange_sound, exchange_once}
use monkeys_identity.Oidc.Handlers.{
  AuthorizeRequest, grant, issue_code, authorize_endpoint, handle_consent, ClientRequest,
}
use monkeys_identity.Oidc.Handlers.Redirects.{authorize_endpoint-registered}

abbrev app : OauthClient
app = record {
  id = "app";
  organization_id = "acme";
  client_name = "App";
  client_secret_hash = "pw";
  redirect_uris = "https://app/cb" ∷ [];
  grant_types = "authorization_code" ∷ [];
  response_types = "code" ∷ [];
  scope = "openid";
  is_public = false;
  is_trusted = true;
  logo_url = none;
  policy_uri = none;
  tos_uri = none;
  created_at = 1;
  updated_at = 1;
  deleted_at = none;
}

abbrev issued : CodeRow
issued = record {
  code = "c1";
  user_id = "u";
  client_id = "app";
  scope = "openid";
  nonce = none;
  redirect_uri = "https://app/cb";
  expires_at = 700;
  used = false;
}

abbrev tables : Tables
tables = record {
  oauth_clients = app ∷ [];
  oidc_codes = issued ∷ [];
  users =
      record {
        id = "u";
        organization_id = "acme";
        email = "u@acme";
        email_verified = true;
        display_name = "U";
        username = "u";
        deleted_at = none;
      }
      ∷ [];
}

abbrev no_faults : Faults
no_faults = record {
  get_client = false;
  write_client = false;
  save_code = false;
  get_code = false;
  mark_code = false;
  get_user = false;
}

-- A stand-in for bcrypt and the signatures: a hash is its secret, and a token its subject.
abbrev crypto : Crypto
crypto = record {
  compare_hash = λ hash secret. str_eq hash secret;
  sign_id = λ c. some (c.sub);
  sign_access = λ c. some (c.sub);
}

abbrev tokens : TokenResponse
tokens = record {
  access_token = "u";
  id_token = "u";
  token_type = "Bearer";
  expires_in = 3600;
  scope = "openid";
}

validate_client_tests :
    (validate_client crypto.compare_hash no_faults tables "app" "pw" "https://app/cb" ≡ ok app)
    × (validate_client crypto.compare_hash no_faults tables "app" "no" "https://app/cb"
        ≡ err invalid_client_secret)
    × (validate_client crypto.compare_hash no_faults tables "app" "" "https://else"
        ≡ err invalid_redirect_uri)
unfolding validate_client find
validate_client_tests = (refl, refl, refl)

exchange_passes :
    (exchange_code_for_token crypto "iss" no_faults 100 "c1" "app" "pw" tables).0 ≡ ok tokens
unfolding exchange_code_for_token mark_auth_code_used sign_tokens check_code validate_client find
    get_auth_code
exchange_passes = refl

exchange_tests :
    ((exchange_code_for_token crypto "iss" no_faults 800 "c1" "app" "pw" tables).0
      ≡ err invalid_grant)
    × ((exchange_code_for_token crypto "iss" no_faults 100 "c1" "app" "" tables).0
        ≡ err invalid_client_secret)
unfolding exchange_code_for_token check_code validate_client find get_auth_code
exchange_tests = (refl, refl)

exchange_sound_example : (c : AuthCode) × IsRedeemable crypto "iss" 100 tables "c1" "app" "pw" c
exchange_sound_example =
    exchange_sound crypto "iss" no_faults 100 tables "c1" "app" "pw" tokens exchange_passes

exchange_once_example :
    (exchange_code_for_token crypto "iss" no_faults 101 "c1" "app" "pw"
      ((exchange_code_for_token crypto "iss" no_faults 100 "c1" "app" "pw" tables).1)).0
    ≡ err invalid_grant
exchange_once_example =
    exchange_once crypto "iss" no_faults no_faults 100 101 tables "c1" "app" "pw" "app" "pw" tokens
      exchange_passes refl

redeem_passes : (redeem crypto "iss" no_faults 100 "c1" "app" (loaded issued) tables).0 ≡ ok tokens
unfolding redeem mark_auth_code_used sign_tokens find
redeem_passes = refl

abbrev with_new : Tables
with_new = record tables {
  oidc_codes = record issued { code = "c2"; expires_at = 610 } ∷ tables.oidc_codes;
}

created_code :
    create_authorization_code no_faults 10 "c2" tables "u" "acme" "app" "openid" "" "https://app/cb"
    ≡ ok ("c2", with_new)
unfolding create_authorization_code save_auth_code
created_code = refl

abbrev visit : AuthorizeRequest
visit = record {
  client_id = "app";
  redirect_uri = "https://app/cb";
  scope = "openid";
  state = "s";
  nonce = "";
  decision = "allow";
  user_id = some "u";
  organization_id = "acme";
}

abbrev forged : AuthorizeRequest
forged = record visit { redirect_uri = "https://else"; decision = "deny" }

authorize_passes :
    (authorize_endpoint no_faults 10 "c2" crypto.compare_hash visit tables).0
    ≡ grant "https://app/cb" "c2" "s"
unfolding authorize_endpoint issue_code create_authorization_code validate_client find
authorize_passes = refl

consent_passes :
    (handle_consent no_faults 10 "c2" crypto.compare_hash visit tables).0
    ≡ grant "https://app/cb" "c2" "s"
unfolding handle_consent issue_code create_authorization_code validate_client find
consent_passes = refl

authorize_endpoint-registered_example :
    (client : OauthClient) × IsValidated crypto.compare_hash tables
      (visit.client_id)
      ""
      "https://app/cb"
      client
    × (client.is_trusted ≡ true)
    × (visit.user_id ≢ none)
authorize_endpoint-registered_example =
    authorize_endpoint-registered no_faults 10 "c2" crypto.compare_hash visit tables
      "https://app/cb" "c2" "s" authorize_passes

no_allow : forged.decision ≢ "allow"
no_allow e = cc

has_user : forged.user_id ≢ none
has_user e = cc

apart : app.organization_id ≢ "zeta"
apart e = ground (arith, eq_iff (app.organization_id) "zeta")

abbrev takeover : ClientRequest
takeover = record {
  client_name = "App";
  redirect_uris = "https://else" ∷ [];
  scope = "openid";
  is_public = true;
  logo_url = none;
}

named : app.id ≢ ""
named e = cc

found_app : find (client_with "app") tables.oauth_clients ≡ some app
unfolding find
found_app = refl
