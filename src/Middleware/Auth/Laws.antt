-- ===== src/Middleware/Auth/Laws.antt =====
-- What a request has shown when `RequireAuth` lets it through.
use monkeys_identity.Base.{
  ℕ, ◌≤◌, true, false, String, Option, none, some, ◌≡◌, ◌≢◌, ◌↔◌, ◌⊎◌, inl, inr, refl, arith,
  Option-cases, eq_iff,
}
use monkeys_identity.Middleware.{Request, next, reply, panic}
use monkeys_identity.Middleware.Auth.{
  Method, rsa, hmac, Key, Claims, Jwt, AuthMiddleware, token_of, key_for, is_blacklisted,
  with_claims, with_user, accept_claims, require_auth, optional_auth, require_role, user_of,
}
use monkeys_identity.Middleware.Auth

-- The key that is accepted for a method: the RSA key for RSA, the shared secret for HMAC.
abbrev pub IsConfigured : AuthMiddleware → Method → Key → Type 0
IsConfigured am m k =
    ((m ≡ rsa) × ((p : String) × (am.public_key ≡ some p) × (k ≡ Auth.public_key p)))
    ⊎ ((m ≡ hmac) × (k ≡ Auth.secret am.jwt_secret))

key_for-IsConfigured :
    (am : AuthMiddleware) (m : Method) (k : Key) → key_for am m ≡ some k → IsConfigured am m k
unfolding key_for
key_for-IsConfigured am rsa k h = go am.public_key refl h
  where
    go :
        (o : Option String)
        → am.public_key ≡ o
        → elim o as (λ _. Option Key) [ none ↦ none | some p ↦ some (Auth.public_key p) ] ≡ some k
        → IsConfigured am rsa k
    go none e h = cc
    go (some p) e h = inl (refl, (p, e, ground arith))
key_for-IsConfigured am hmac k h = inr (refl, ground arith)
key_for-IsConfigured am _ k h = cc

module _ (jwt : Jwt) (am : AuthMiddleware) (now : ℕ) where
  -- The token of `r` has a valid signature under a configured key, has not expired, is not known to
  -- be revoked, and `r'` is `r` with the user that its claims name.
  pub record IsAuthenticated (r r' : Request) (claims : Claims) : Type 0 where
    pub method : Method
    pub key : Key
    pub configured : IsConfigured am method key
    pub verified : jwt.Verified key (token_of r) claims
    pub expires_at : ℕ
    pub expires : claims.expires_at ≡ some expires_at
    pub in_time : now ≤ expires_at
    pub not_revoked : is_blacklisted am claims ≡ false
    pub known_as : r' ≡ with_claims claims r

  accept_cases :
      (claims : Claims) (r r' : Request)
      → accept_claims jwt am now claims r ≡ next r'
      → (t : ℕ) × (claims.expires_at ≡ some t)
        × (now ≤ t)
        × (is_blacklisted am claims ≡ false)
        × (r' ≡ with_claims claims r)
  unfolding accept_claims
  accept_cases claims r r' h = elim (Option-cases claims.expires_at) [
    | inl missing ↦ absurd (never (rw (missing, accept_claims) at h))
    | inr (t, e) ↦
        let h' = rw (e, accept_claims) at h in (t, e, ground arith, ground arith, ground arith)
  ]
    where
      never : panic ≡ next r' → ⊥
      never p = cc

  parsed :
      (r r' : Request)
      → require_auth jwt am now r ≡ next r'
      → (claims : Claims) × (jwt.parse_with_claims (key_for am) (token_of r) ≡ some claims)
        × (accept_claims jwt am now claims r ≡ next r')
  unfolding require_auth
  parsed r r' h = elim (Option-cases (jwt.parse_with_claims (key_for am) (token_of r))) [
    | inl invalid ↦ let h' = rw (invalid, require_auth) at h in absurd (ground arith)
    | inr (claims, e) ↦ let h' = rw (e, require_auth) at h in (claims, e, ground arith)
  ]

  -- RequireAuth calls the next handler only for a request whose token is signed with a configured
  -- key, is in time and is not known to be revoked; and it hands over the claims' user.
  pub require_auth-next :
      (r r' : Request)
      → require_auth jwt am now r ≡ next r'
      → (claims : Claims) × IsAuthenticated r r' claims
  require_auth-next r r' h =
      let (claims, e, h') = parsed r r' h in
      let (m, k, picked, valid) = jwt.parse_sound (key_for am) (token_of r) claims e in
      let (t, expires, in_time, live, known) = accept_cases claims r r' h' in
      (
        claims,
        record {
          method = m;
          key = k;
          configured = key_for-IsConfigured am m k picked;
          verified = valid;
          expires_at = t;
          expires = expires;
          in_time = in_time;
          not_revoked = live;
          known_as = known;
        },
      )

  -- On a valid token RequireAuth panics exactly if the token has no expiry.
  pub require_auth-panic_iff :
      (r : Request) (claims : Claims)
      → token_of r ≢ ""
      → jwt.parse_with_claims (key_for am) (token_of r) ≡ some claims
      → (require_auth jwt am now r ≡ panic) ↔ (claims.expires_at ≡ none)
  unfolding require_auth accept_claims
  require_auth-panic_iff r claims some_token e =
      rw (e, require_auth)
        (ground (arith, eq_iff (token_of r) ""), ground (arith, eq_iff (token_of r) ""))

  -- A revoked token in time, which RequireAuth refuses, still names its user to OptionalAuth.
  pub optional_auth_accepts_revoked :
      (r : Request) (claims : Claims) (t : ℕ)
      → token_of r ≢ ""
      → jwt.parse_with_claims (key_for am) (token_of r) ≡ some claims
      → claims.expires_at ≡ some t
      → now ≤ t
      → is_blacklisted am claims ≡ true
      → (require_auth jwt am now r ≡ reply 401 "Token has been revoked")
        × (optional_auth jwt am r ≡ next (with_user claims r))
  unfolding require_auth accept_claims optional_auth
  optional_auth_accepts_revoked r claims t some_token e expires in_time revoked = (
    rw (e, require_auth) ground (arith, eq_iff (token_of r) ""),
    rw (e, optional_auth) ground (arith, eq_iff (token_of r) ""),
  )
