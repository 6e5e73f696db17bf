-- ===== src/Oidc/Clients.antt =====
-- The clients: their rows, and `ValidateClient` and `UpdateClient` of the service.
use monkeys_identity.Base.{
  ℕ, Bool, true, false, ◌&&◌, String, ◌∷◌, Option, none, some, str_eq, any, ◌||◌, find,
  update_where, Result, ok, err, ◌>>=◌, ◌>>◌, ensure, if◌then◌else◌,
}
use monkeys_identity.Oidc.{
  OauthClient, Tables, Faults, OidcError, database_error, invalid_client, invalid_client_secret,
  invalid_redirect_uri, client_not_found,
}

abbrev pub is_live : Option ℕ → Bool
is_live none = true
is_live (some _) = false

-- WHERE id = $1 AND deleted_at IS NULL
abbrev pub client_with : String → OauthClient → Bool
client_with id client = str_eq client.id id && is_live client.deleted_at

-- `GetClientByID`: `none` is a missing row.
unfoldable pub get_client_by_id : Faults → Tables → String → Result OidcError (Option OauthClient)
get_client_by_id f t id =
    if f.get_client then err database_error else ok (find (client_with id) t.oauth_clients)

unfoldable pub create_client : Faults → Tables → OauthClient → Result OidcError Tables
create_client f t client =
    if f.write_client
    then err database_error
    else ok (record t { oauth_clients = client ∷ t.oauth_clients })

-- WHERE id = $12 AND organization_id = $13 AND deleted_at IS NULL
abbrev pub client_of : String → String → OauthClient → Bool
client_of id org_id client =
    str_eq client.id id && str_eq client.organization_id org_id && is_live client.deleted_at

abbrev pub rewritten : OauthClient → OauthClient → OauthClient
rewritten client row = record row {
  client_name = client.client_name;
  redirect_uris = client.redirect_uris;
  grant_types = client.grant_types;
  response_types = client.response_types;
  scope = client.scope;
  is_public = client.is_public;
  is_trusted = client.is_trusted;
  logo_url = client.logo_url;
  policy_uri = client.policy_uri;
  tos_uri = client.tos_uri;
  updated_at = client.updated_at;
}

-- `UpdateClient` of the queries.
unfoldable pub update_client_row : Faults → Tables → OauthClient → Result OidcError Tables
update_client_row f t client =
    if f.write_client
    then err database_error
    else ok (record t {
      oauth_clients =
          update_where (client_of client.id client.organization_id) (rewritten client)
            t.oauth_clients;
    })

unfoldable pub delete_client : Faults → ℕ → Tables → String → String → Result OidcError Tables
delete_client f now t id org_id =
    if f.write_client
    then err database_error
    else if any (client_of id org_id) t.oauth_clients
    then ok (record t {
      oauth_clients =
          update_where (client_of id org_id) (λ c. record c { deleted_at = some now })
            t.oauth_clients;
    })
    else err client_not_found

-- `compare_hash hash secret` is bcrypt.CompareHashAndPassword without an error.
module _ (compare_hash : String → String → Bool) where
  abbrev require_client : Option OauthClient → Result OidcError OauthClient
  require_client none = err invalid_client
  require_client (some client) = ok client

  unfoldable pub validate_client :
      Faults → Tables → String → String → String → Result OidcError OauthClient
  unfolding get_client_by_id
  validate_client f t client_id client_secret redirect_uri = do
    found ← get_client_by_id f t client_id
    client ← require_client found
    ensure
        (client.is_public
          || str_eq client_secret ""
          || compare_hash client.client_secret_hash client_secret)
        invalid_client_secret
    ensure (any (λ uri. str_eq uri redirect_uri) client.redirect_uris) invalid_redirect_uri
    ok client

abbrev require_row : Option OauthClient → Result OidcError OauthClient
require_row none = err client_not_found
require_row (some client) = ok client

-- the fields that `UpdateClient` of the service takes over from the request's client
abbrev pub merged : ℕ → OauthClient → OauthClient → OauthClient
merged now existing client = record existing {
  client_name = client.client_name;
  redirect_uris = client.redirect_uris;
  scope = client.scope;
  is_public = client.is_public;
  logo_url = client.logo_url;
  policy_uri = client.policy_uri;
  tos_uri = client.tos_uri;
  updated_at = now;
}

unfoldable pub update_client : Faults → ℕ → Tables → String → OauthClient → Result OidcError Tables
unfolding get_client_by_id update_client_row
update_client f now t client_id client = do
  found ← get_client_by_id f t client_id
  existing ← require_row found
  update_client_row f t (merged now existing client)
