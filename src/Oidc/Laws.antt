-- ===== src/Oidc/Laws.antt =====
-- The exchange of an authorization code: what a success has shown, and that a code serves once.
use mathlib.Core.Option
use monkeys_identity.Base.{
  ℕ, ◌≤◌, Bool, true, false, String, List, some, str_eq, find, update_where, ok, err, ◌≡◌, ◌≢◌, ◌⊎◌,
  inl, inr, refl, arith, any, Any, eq_iff, find-update_where, Option-cases, Result-cases,
}
use monkeys_identity.Oidc.{OauthClient, AuthCode, CodeRow, Tables, Faults, invalid_grant}
use monkeys_identity.Oidc.Clients.{validate_client, client_with}
use monkeys_identity.Oidc.Codes.{code_with, loaded, used_up, mark_auth_code_used}
use monkeys_identity.Oidc.Exchange.{
  Crypto, TokenResponse, check_code, sign_tokens, exchange_code_for_token,
}

any-Any :
    (redirect_uri : String) (uris : List String)
    → any (λ uri. str_eq uri redirect_uri) uris ≡ true
    → Any (λ uri. uri ≡ redirect_uri) uris
any-Any redirect_uri List.[] h = cc
any-Any redirect_uri (List.◌∷◌ uri uris) h =
    ground (arith, eq_iff uri redirect_uri, any-Any redirect_uri uris)

-- What `ValidateClient` has shown of a client that it returns.
pub record IsValidated (compare_hash : String → String → Bool) (t : Tables)
    (client_id secret redirect_uri : String) (client : OauthClient) : Type 0 where
  pub found : find (client_with client_id) t.oauth_clients ≡ some client
  pub secret_fits :
      (client.is_public ≡ true)
      ⊎ (secret ≡ "")
      ⊎ (compare_hash client.client_secret_hash secret ≡ true)
  pub registered : Any (λ uri. uri ≡ redirect_uri) client.redirect_uris

-- ValidateClient returns only a live client with that id, for which the redirect address is
-- registered, and which is public, or whose secret fits or was not given.
pub validate_client_sound :
    (compare_hash : String → String → Bool) (f : Faults) (t : Tables)
    (client_id secret redirect_uri : String) (client : OauthClient)
    → validate_client compare_hash f t client_id secret redirect_uri ≡ ok client
    → IsValidated compare_hash t client_id secret redirect_uri client
unfolding validate_client
validate_client_sound compare_hash f t client_id secret redirect_uri client h =
    elim (Option-cases (find (client_with client_id) t.oauth_clients)) [
      | inl missing ↦ absurd (ground (arith, missing))
      | inr (c, e) ↦
          let same : c ≡ client = ground (arith, e) in
          record {
            found = rw (← same) e;
            secret_fits = ground (arith, e, eq_iff secret "");
            registered = any-Any redirect_uri client.redirect_uris (ground (arith, e));
          }
    ]

module _ (crypto : Crypto) (issuer : String) where
  -- What the checks of an exchange have shown.
  pub record IsRedeemable (now : ℕ) (t : Tables) (code client_id secret : String) (c : AuthCode)
      : Type 0 where
    pub row : CodeRow
    pub found : find (code_with code) t.oidc_codes ≡ some row
    pub same : c ≡ loaded row
    pub unused : row.used ≡ false
    pub in_time : now ≤ row.expires_at
    pub client : OauthClient
    pub validated : IsValidated crypto.compare_hash t client_id secret row.redirect_uri client
    pub authenticated :
        (client.is_public ≡ true)
        ⊎ ((secret ≢ "") × (crypto.compare_hash client.client_secret_hash secret ≡ true))

  check_row :
      (f : Faults) (now : ℕ) (t : Tables) (code client_id secret : String) (c : AuthCode)
      (row : CodeRow)
      → find (code_with code) t.oidc_codes ≡ some row
      → check_code crypto issuer f now t code client_id secret ≡ ok c
      → (c ≡ loaded row)
        × (row.used ≡ false)
        × (now ≤ row.expires_at)
        × ((client : OauthClient) × (validate_client crypto.compare_hash f t client_id secret
                row.redirect_uri
              ≡ ok client)
            × ((client.is_public ≡ true) ⊎ (secret ≢ "")))
  unfolding check_code
  check_row f now t code client_id secret c row e h =
      elim (Result-cases
        (validate_client crypto.compare_hash f t client_id secret row.redirect_uri)) [
          | inl (client, v) ↦ (
            ground (arith, e, v),
            ground (arith, e, v),
            ground (arith, e, v),
            (client, v, ground (arith, e, v, eq_iff secret "")),
          )
          | inr (refused, v) ↦ absurd (ground (arith, e, v))
        ]

  -- The checks of an exchange pass only for a stored code that is unused and in time, and for a
  -- validated client at the code's redirect address that is public or gave a fitting secret.
  pub check_code_sound :
      (f : Faults) (now : ℕ) (t : Tables) (code client_id secret : String) (c : AuthCode)
      → check_code crypto issuer f now t code client_id secret ≡ ok c
      → IsRedeemable now t code client_id secret c
  unfolding check_code
  check_code_sound f now t code client_id secret c h =
      elim (Option-cases (find (code_with code) t.oidc_codes)) [
        | inl missing ↦ absurd (ground (arith, missing))
        | inr (row, e) ↦
            let (same, unused, in_time, (client, v, given)) =
              check_row f now t code client_id secret c row e h in
            let valid =
              validate_client_sound crypto.compare_hash f t client_id secret row.redirect_uri client
                v in
            record {
              row = row;
              found = e;
              same = same;
              unused = unused;
              in_time = in_time;
              client = client;
              validated = valid;
              authenticated = ground (arith, given, valid.secret_fits);
            }
      ]

marked_row :
    (f : Faults) (t t' : Tables) (code : String)
    → mark_auth_code_used f t code ≡ ok t'
    → find (code_with code) t'.oidc_codes ≡ Option.map used_up (find (code_with code) t.oidc_codes)
unfolding mark_auth_code_used
marked_row f t t' code h =
    let same : update_where (code_with code) used_up t.oidc_codes ≡ t'.oidc_codes = ground arith in
    rw (← same) (find-update_where (code_with code) used_up (λ row. refl) t.oidc_codes)

module _ (crypto : Crypto) (issuer : String) where
  -- A code whose row was marked is refused by every later check.
  refused_once_marked :
      (f f' : Faults) (now : ℕ) (t t' : Tables) (code client_id secret : String)
      → mark_auth_code_used f t code ≡ ok t'
      → f'.get_code ≡ false
      → check_code crypto issuer f' now t' code client_id secret ≡ err invalid_grant
  unfolding check_code
  refused_once_marked f f' now t t' code client_id secret h up =
      elim (Option-cases (find (code_with code) t.oidc_codes)) [
        | inl e ↦ let m = rw e at (marked_row f t t' code h) in ground (arith, m)
        | inr (row, e) ↦ let m = rw e at (marked_row f t t' code h) in ground (arith, m)
      ]

  pub redeemed :
      (f : Faults) (now : ℕ) (t : Tables) (code client_id secret : String) (resp : TokenResponse)
      → (exchange_code_for_token crypto issuer f now code client_id secret t).0 ≡ ok resp
      → (c : AuthCode) × (check_code crypto issuer f now t code client_id secret ≡ ok c)
        × ((t' : Tables) × (mark_auth_code_used f t code ≡ ok t')
            × ((exchange_code_for_token crypto issuer f now code client_id secret t).1 ≡ t')
            × (sign_tokens crypto issuer f now t' client_id c ≡ ok resp))
  unfolding exchange_code_for_token
  redeemed f now t code client_id secret resp h =
      elim (Result-cases (check_code crypto issuer f now t code client_id secret)) [
        | inr (refused, e) ↦ absurd (ground (arith, e))
        | inl (c, e) ↦ elim (Result-cases (mark_auth_code_used f t code)) [
          | inr (failed, m) ↦ absurd (ground (arith, e, m))
          | inl (t', m) ↦ (c, e, (t', m, ground (arith, e, m), ground (arith, e, m)))
        ]
      ]

  -- A successful exchange was of a stored, unused code in time, by a validated client at the
  -- code's redirect address that is public or gave a fitting secret.
  pub exchange_sound :
      (f : Faults) (now : ℕ) (t : Tables) (code client_id secret : String) (resp : TokenResponse)
      → (exchange_code_for_token crypto issuer f now code client_id secret t).0 ≡ ok resp
      → (c : AuthCode) × IsRedeemable crypto issuer now t code client_id secret c
  exchange_sound f now t code client_id secret resp h =
      let (c, e, _) = redeemed f now t code client_id secret resp h in
      (c, check_code_sound crypto issuer f now t code client_id secret c e)

  -- After a successful exchange every later exchange of the same code, at any time and by any
  -- client, is refused with "invalid_grant", if the code can be read.
  pub exchange_once :
      (f f' : Faults) (now now' : ℕ) (t : Tables)
      (code client_id secret client_id' secret' : String) (resp : TokenResponse)
      → (exchange_code_for_token crypto issuer f now code client_id secret t).0 ≡ ok resp
      → f'.get_code ≡ false
      → (exchange_code_for_token crypto issuer f' now' code client_id' secret'
          ((exchange_code_for_token crypto issuer f now code client_id secret t).1)).0
        ≡ err invalid_grant
  unfolding exchange_code_for_token
  exchange_once f f' now now' t code client_id secret client_id' secret' resp h up =
      let (c, e, (t', m, same, signed)) = redeemed f now t code client_id secret resp h in
      let refused = refused_once_marked f f' now' t t' code client_id' secret' m up in
      rw same (rw (refused, exchange_code_for_token))
