-- ===== src/Oidc/Codes.antt =====
-- The authorization codes: their rows, and `CreateAuthorizationCode` of the service.
use mathlib.Core.Option
use monkeys_identity.Base.{
  ℕ, ◌+◌, Bool, true, false, String, ◌∷◌, Option, none, some, str_eq, find, update_where, Result,
  ok, err, ◌>>=◌, if◌then◌else◌,
}
use monkeys_identity.Oidc.{AuthCode, CodeRow, Tables, Faults, OidcError, database_error}

abbrev pub code_with : String → CodeRow → Bool
code_with code row = str_eq row.code code

-- The row that an INSERT makes of a code: the column list names no organization.
abbrev pub stored : AuthCode → CodeRow
stored c = record {
  code = c.code;
  user_id = c.user_id;
  client_id = c.client_id;
  scope = c.scope;
  nonce = c.nonce;
  redirect_uri = c.redirect_uri;
  expires_at = c.expires_at;
  used = false;
}

-- The code that a SELECT makes of a row; the organization keeps Go's zero value.
abbrev pub loaded : CodeRow → AuthCode
loaded row = record {
  code = row.code;
  user_id = row.user_id;
  client_id = row.client_id;
  scope = row.scope;
  nonce = row.nonce;
  redirect_uri = row.redirect_uri;
  expires_at = row.expires_at;
  used = row.used;
  organization_id = "";
}

unfoldable pub save_auth_code : Faults → Tables → AuthCode → Result OidcError Tables
save_auth_code f t code =
    if f.save_code
    then err database_error
    else ok (record t { oidc_codes = stored code ∷ t.oidc_codes })

unfoldable pub get_auth_code : Faults → Tables → String → Result OidcError (Option AuthCode)
get_auth_code f t code =
    if f.get_code
    then err database_error
    else ok (Option.map loaded (find (code_with code) t.oidc_codes))

abbrev pub used_up : CodeRow → CodeRow
used_up row = record row { used = true }

-- UPDATE oidc_codes SET used = TRUE WHERE code = $1
unfoldable pub mark_auth_code_used : Faults → Tables → String → Result OidcError Tables
mark_auth_code_used f t code =
    if f.mark_code
    then err database_error
    else ok (record t { oidc_codes = update_where (code_with code) used_up t.oidc_codes })

abbrev pub new_code :
    ℕ → (code user_id org_id client_id scope nonce redirect_uri : String) → AuthCode
new_code now code user_id org_id client_id scope nonce redirect_uri = record {
  code = code;
  user_id = user_id;
  client_id = client_id;
  scope = scope;
  nonce = if str_eq nonce "" then none else some nonce;
  redirect_uri = redirect_uri;
  expires_at = now + 600;
  used = false;
  organization_id = org_id;
}

-- `fresh` is the code that uuid.New draws.
unfoldable pub create_authorization_code :
    Faults
    → ℕ
    → String
    → Tables
    → (user_id org_id client_id scope nonce redirect_uri : String)
    → Result OidcError (String × Tables)
unfolding save_auth_code
create_authorization_code f now fresh t user_id org_id client_id scope nonce redirect_uri = do
  t' ← save_auth_code f t (new_code now fresh user_id org_id client_id scope nonce redirect_uri)
  ok (fresh, t')
