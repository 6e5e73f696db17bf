-- ===== src/Oidc/Handlers/Redirects.antt =====
-- Where the authorization endpoint and the consent lead back to.
use monkeys_identity.Base.{
  ℕ, Bool, true, String, none, ◌≡◌, ◌≢◌, arith, inl, inr, eq_iff, Result-cases,
}
use monkeys_identity.Oidc.{OauthClient, Tables, Faults}
use monkeys_identity.Oidc.Clients.{validate_client}
use monkeys_identity.Oidc.Laws.{IsValidated, validate_client_sound}
use monkeys_identity.Oidc.Handlers.{
  AuthorizeRequest, grant, denied, issue_code, authorize_endpoint, handle_consent,
}

module _ (f : Faults) (now : ℕ) (fresh : String) where
  issue_code-redirect :
      (r : AuthorizeRequest) (user_id : String) (t : Tables) (uri code state : String)
      → (issue_code f now fresh r user_id t).0 ≡ grant uri code state
      → uri ≡ r.redirect_uri
  unfolding issue_code
  issue_code-redirect r user_id t uri code state h = ground arith

  module _ (compare_hash : String → String → Bool) where
    -- The authorization endpoint sends a code only to an address that is registered for a live
    -- client with the request's id, only if that client is trusted, and only for a known user.
    pub authorize_endpoint-registered :
        (r : AuthorizeRequest) (t : Tables) (uri code state : String)
        → (authorize_endpoint f now fresh compare_hash r t).0 ≡ grant uri code state
        → (client : OauthClient) × IsValidated compare_hash t r.client_id "" uri client
          × (client.is_trusted ≡ true)
          × (r.user_id ≢ none)
    unfolding authorize_endpoint issue_code
    authorize_endpoint-registered r t uri code state h =
        elim (Result-cases (validate_client compare_hash f t r.client_id "" r.redirect_uri)) [
          | inr (e, v) ↦ absurd (ground (arith, v))
          | inl (client, v) ↦
              let same : uri ≡ r.redirect_uri = ground (arith, v) in
              (
                client,
                rw same
                    (validate_client_sound compare_hash f t r.client_id "" r.redirect_uri client v),
                ground (arith, v),
                ground (arith, v),
              )
        ]

    -- The consent sends a code only to an address that is registered for a live client with the
    -- request's id, and only for a known user who decided "allow".
    pub handle_consent-registered :
        (r : AuthorizeRequest) (t : Tables) (uri code state : String)
        → (handle_consent f now fresh compare_hash r t).0 ≡ grant uri code state
        → (client : OauthClient) × IsValidated compare_hash t r.client_id "" uri client
          × (r.decision ≡ "allow")
          × (r.user_id ≢ none)
    unfolding handle_consent issue_code
    handle_consent-registered r t uri code state h =
        elim (Result-cases (validate_client compare_hash f t r.client_id "" r.redirect_uri)) [
          | inr (e, v) ↦ absurd (ground (arith, v))
          | inl (client, v) ↦
              let same : uri ≡ r.redirect_uri = ground (arith, v) in
              (
                client,
                rw same
                    (validate_client_sound compare_hash f t r.client_id "" r.redirect_uri client v),
                ground (arith, eq_iff r.decision "allow"),
                ground (arith, v),
              )
        ]

    -- A user who denies the consent is sent to the address of the request, whatever it is: the
    -- client and its registered addresses are not looked at.
    pub handle_consent-denied :
        (r : AuthorizeRequest) (t : Tables)
        → r.user_id ≢ none
        → r.decision ≢ "allow"
        → handle_consent f now fresh compare_hash r t ≡ (denied r.redirect_uri r.state, t)
    unfolding handle_consent
    handle_consent-denied r t user no_allow = ground (arith, eq_iff r.decision "allow")
