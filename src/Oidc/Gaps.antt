-- ===== src/Oidc/Gaps.antt =====
-- What an exchange does not check or keep: a second exchange that runs beside it, the client that
-- the code was issued to, and the organization of the user.
use mathlib.Core.Option
use monkeys_identity.Base.{
  ℕ, false, String, List, [], ◌∷◌, map, some, find, ok, err, Result-cases, ◌≡◌, refl, sym, ◌∙◌,
  arith, eq_iff, inl, inr, Option-cases, Bool-cases,
}
use monkeys_identity.Oidc.{AuthCode, CodeRow, Tables, Faults, OidcError}
use monkeys_identity.Oidc.Clients.{validate_client}
use monkeys_identity.Oidc.Codes.{
  code_with, loaded, stored, new_code, get_auth_code, mark_auth_code_used,
  create_authorization_code,
}
use monkeys_identity.Oidc.Exchange.{
  Crypto, TokenResponse, AccessClaims, access_claims, check_code, redeem, sign_tokens,
  exchange_code_for_token,
}
use monkeys_identity.Oidc.Laws.{redeemed, check_code_sound}

-- The code with another client in its place.
abbrev pub reissued : String → CodeRow → CodeRow
reissued other row = record row { client_id = other }

abbrev pub with_codes : (CodeRow → CodeRow) → Tables → Tables
with_codes g t = record t { oidc_codes = map g t.oidc_codes }

find-reissued :
    (other code : String) (rows : List CodeRow)
    → find (code_with code) (map (reissued other) rows)
      ≡ Option.map (reissued other) (find (code_with code) rows)
unfolding find
find-reissued other code [] = refl
find-reissued other code (row ∷ rows) = elim (Bool-cases (code_with code row)) [
  | inl h ↦ rw h refl
  | inr h ↦ rw h (find-reissued other code rows)
]

validate_reissued :
    (crypto : Crypto) (f : Faults) (t : Tables) (other client_id secret redirect_uri : String)
    → validate_client crypto.compare_hash f
        (with_codes (reissued other) t)
        client_id
        secret
        redirect_uri
      ≡ validate_client crypto.compare_hash f t client_id secret redirect_uri
unfolding validate_client
validate_reissued crypto f t other client_id secret redirect_uri = refl

-- A code that was created is read back with its user, client and redirect address, unused, but
-- without the organization that it was created for.
pub create_then_get :
    (f : Faults) (now : ℕ) (fresh : String) (t t' : Tables)
    (user_id org_id client_id scope nonce redirect_uri : String)
    → create_authorization_code f now fresh t user_id org_id client_id scope nonce redirect_uri
      ≡ ok (fresh, t')
    → f.get_code ≡ false
    → (c : AuthCode) × (get_auth_code f t' fresh ≡ ok (some c))
      × (c.user_id ≡ user_id)
      × (c.client_id ≡ client_id)
      × (c.redirect_uri ≡ redirect_uri)
      × (c.used ≡ false)
      × (c.organization_id ≡ "")
unfolding create_authorization_code get_auth_code find
create_then_get f now fresh t t' user_id org_id client_id scope nonce redirect_uri h up = (
  loaded (stored (new_code now fresh user_id org_id client_id scope nonce redirect_uri)),
  ground (arith, eq_iff fresh fresh),
  refl,
  refl,
  refl,
  refl,
  refl,
)

module _ (crypto : Crypto) (issuer : String) where
  -- The user is looked up in the same table, so tokens are signed as before.
  sign_tokens-same :
      (f : Faults) (now : ℕ) (t t' : Tables) (client_id : String) (c c' : AuthCode)
      → t'.users ≡ t.users
      → c'.user_id ≡ c.user_id
      → c'.organization_id ≡ c.organization_id
      → c'.nonce ≡ c.nonce
      → c'.scope ≡ c.scope
      → sign_tokens crypto issuer f now t' client_id c'
        ≡ sign_tokens crypto issuer f now t client_id c
  unfolding sign_tokens
  sign_tokens-same f now t t' client_id c c' a b d e g = simp (a, b, d, e, g)

  marked_users :
      (f : Faults) (t t' : Tables) (code : String)
      → mark_auth_code_used f t code ≡ ok t'
      → t'.users ≡ t.users
  unfolding mark_auth_code_used
  marked_users f t t' code h = ground arith

  -- Two exchanges of one code that both pass the checks before either marks the code both get
  -- tokens: the second one to run its writes gets what it would have got alone.
  pub redeem_race :
      (f f' : Faults) (now now' : ℕ) (t : Tables) (code client_id client_id' : String)
      (c c' : AuthCode) (resp resp' : TokenResponse)
      → (redeem crypto issuer f now code client_id c t).0 ≡ ok resp
      → (redeem crypto issuer f' now' code client_id' c' t).0 ≡ ok resp'
      → (redeem crypto issuer f' now' code client_id' c'
          (redeem crypto issuer f now code client_id c t).1).0
        ≡ ok resp'
  unfolding redeem mark_auth_code_used sign_tokens
  redeem_race f f' now now' t code client_id client_id' c c' resp resp' h h' = ground arith

  mark_again :
      (f : Faults) (t t' : Tables) (other code : String) {failed : OidcError}
      → mark_auth_code_used f t code ≡ ok t'
      → mark_auth_code_used f (with_codes (reissued other) t) code ≡ err failed
      → ⊥
  unfolding mark_auth_code_used
  mark_again f t t' other code m m' = ground arith

  check_reissued :
      (f : Faults) (now : ℕ) (t : Tables) (other code client_id secret : String) (c : AuthCode)
      → check_code crypto issuer f now t code client_id secret ≡ ok c
      → check_code crypto issuer f now (with_codes (reissued other) t) code client_id secret
        ≡ ok (record c { client_id = other })
  unfolding check_code
  check_reissued f now t other code client_id secret c h =
      elim (Option-cases (find (code_with code) t.oidc_codes)) [
        | inl e ↦ absurd (ground (arith, e))
        | inr (row, e) ↦
            let m = rw e at (find-reissued other code t.oidc_codes) in
            ground
              (arith, e, m, validate_reissued crypto f t other client_id secret row.redirect_uri)
      ]

  redeem-reissued :
      (f : Faults) (now : ℕ) (t t' : Tables) (other code client_id : String) (c : AuthCode)
      (resp : TokenResponse)
      → mark_auth_code_used f t code ≡ ok t'
      → sign_tokens crypto issuer f now t' client_id c ≡ ok resp
      → (redeem crypto issuer f now code client_id
          (record c { client_id = other })
          (with_codes (reissued other) t)).0
        ≡ ok resp
  unfolding redeem
  redeem-reissued f now t t' other code client_id c resp m signed =
      elim (Result-cases (mark_auth_code_used f (with_codes (reissued other) t) code)) [
        | inr (failed, m') ↦ absurd (mark_again f t t' other code m m')
        | inl (t'', m') ↦
            rw (m', redeem)
              (sign_tokens-same f now t' t'' client_id c (record c { client_id = other })
                  (marked_users f (with_codes (reissued other) t) t'' code m'
                    ∙ sym (marked_users f t t' code m))
                  refl refl refl refl
                ∙ signed)
      ]

  -- An exchange does not look at the client that the code was issued to: whoever that was, the
  -- same request gets the same tokens.
  pub exchange_ignores_client :
      (f : Faults) (now : ℕ) (t : Tables) (other code client_id secret : String)
      (resp : TokenResponse)
      → (exchange_code_for_token crypto issuer f now code client_id secret t).0 ≡ ok resp
      → (exchange_code_for_token crypto issuer f now code client_id secret
          (with_codes (reissued other) t)).0
        ≡ ok resp
  unfolding exchange_code_for_token
  exchange_ignores_client f now t other code client_id secret resp h =
      let (c, e, (t', m, same, signed)) =
        redeemed crypto issuer f now t code client_id secret resp h in
      let e' = check_reissued f now t other code client_id secret c e in
      let again = redeem-reissued f now t t' other code client_id c resp m signed in
      rw (e', exchange_code_for_token) again

  -- The access token of every successful exchange is signed for no organization.
  pub exchange_no_organization :
      (f : Faults) (now : ℕ) (t : Tables) (code client_id secret : String) (resp : TokenResponse)
      → (exchange_code_for_token crypto issuer f now code client_id secret t).0 ≡ ok resp
      → (claims : AccessClaims) × (crypto.sign_access claims ≡ some resp.access_token)
        × (claims.organization_id ≡ "")
  unfolding sign_tokens
  exchange_no_organization f now t code client_id secret resp h =
      let (c, e, (t', m, same, signed)) =
        redeemed crypto issuer f now t code client_id secret resp h in
      let r = check_code_sound crypto issuer f now t code client_id secret c e in
      (access_claims crypto issuer now client_id c, ground arith, ground (arith, r.same))
