-- ===== src/Accounts/Logout/Laws.antt =====
-- What a logout does to the token that it was called with, at the middleware and in the table.
use monkeys_identity.Base.{
  ℕ, ◌-◌, ◌≤◌, ◌<◌, Bool, true, false, String, some, str_eq, ltb, ◌≡◌, ◌≢◌, refl, ap, sym, ◌∙◌,
  arith, eq_iff, Bool-cases, Option-cases, inl, inr,
}
use monkeys_identity.Redis.{Redis}
use monkeys_identity.Middleware.{Request, reply}
use monkeys_identity.Middleware.Auth.{
  Method, rsa, hmac, other, Claims, Jwt, AuthMiddleware, token_of, key_for, is_blacklisted,
  accept_claims, require_auth,
}
use monkeys_identity.Accounts.{World, Call}
use monkeys_identity.Accounts.Tokens.{MapClaims, Signer}
use monkeys_identity.Accounts.Logout.{
  bearer_token, blacklist_key, delete_session_key, blacklist, logout, reading,
}

module _ (rd : Redis) (sg : Signer) (jwt : Jwt) (am : AuthMiddleware) where
  blacklist_stores :
      (call : Call) (exp : ℕ) (token jti : String) (claims : MapClaims) (s : rd.Store)
      → sg.parse_unverified token ≡ some claims
      → claims.jti ≡ some jti
      → claims.exp ≡ some exp
      → call.faults.redis_set ≡ false
      → call.now < exp
      → blacklist rd sg call token s
        ≡ rd.set call.now (blacklist_key jti) "revoked" (exp - call.now) s
  unfolding blacklist
  blacklist_stores call exp token jti claims s parsed hj he up early =
      rw (parsed, hj) (ground (arith, he, up))

  stored_listed :
      (call : Call) (t exp : ℕ) (jti : String) (c : Claims) (s : rd.Store)
      → c.jti ≡ jti
      → jti ≢ ""
      → call.now ≤ t
      → t < exp
      → is_blacklisted
          (reading rd am false t (rd.set call.now (blacklist_key jti) "revoked" (exp - call.now) s))
          c
        ≡ true
  unfolding is_blacklisted
  stored_listed call t exp jti c s cj named later early =
      let stored =
        rd.get_set call.now t (exp - call.now) (blacklist_key jti) "revoked" s later
          (ground arith) in
      ground (arith, stored, cj, eq_iff jti "")

  -- The claims of a token that was put on the blacklist are refused at any later time but the
  -- second in which the token expires.
  listed_refused :
      (call : Call) (t exp : ℕ) (token jti : String) (c : Claims) (claims : MapClaims)
      (s : rd.Store) (r : Request)
      → sg.parse_unverified token ≡ some claims
      → claims.jti ≡ some jti
      → claims.exp ≡ some exp
      → c.jti ≡ jti
      → c.expires_at ≡ some exp
      → jti ≢ ""
      → call.faults.redis_set ≡ false
      → call.now ≤ t
      → t ≢ exp
      → (message : String) × (accept_claims jwt
            (reading rd am false t (blacklist rd sg call token s))
            t
            c
            r
          ≡ reply 401 message)
  unfolding accept_claims
  listed_refused call t exp token jti c claims s r parsed hj he cj ce named up later apart =
      elim (Bool-cases (ltb exp t)) [
        | inl over ↦ ("Token has expired", rw ce (rw over refl))
        | inr alive ↦
            let stored =
              blacklist_stores call exp token jti claims s parsed hj he up
                (ground (arith, alive)) in
            let listed = stored_listed call t exp jti c s cj named later (ground (arith, alive)) in
            ("Token has been revoked", rw stored (ground (arith, ce, alive, listed)))
      ]

  logout_blacklists :
      (call : Call) (w : World rd) (user_id org_id : String)
      → call.user_id ≡ some user_id
      → call.organization_id ≡ some org_id
      → call.authorization ≢ ""
      → (logout rd sg call w).1.redis
        ≡ blacklist rd sg call
            (bearer_token call.authorization)
            (delete_session_key rd sg call (bearer_token call.authorization) w.redis)
  unfolding logout
  logout_blacklists call w user_id org_id hu ho ha =
      ground (arith, hu, ho, eq_iff call.authorization "")

  -- The keys do not depend on Redis.
  keys_at : (t : ℕ) (s : rd.Store) (m : Method) → key_for (reading rd am false t s) m ≡ key_for am m
  unfolding key_for
  keys_at t s rsa = refl
  keys_at t s hmac = refl
  keys_at t s other = refl

  same_keys : (t : ℕ) (s : rd.Store) → key_for (reading rd am false t s) ≡ key_for am
  same_keys t s = λ i m. keys_at t s m i

  -- Where the claims of every token are refused, the request is.
  refused_at :
      (am' : AuthMiddleware) (t : ℕ) (r : Request)
      → ((c : Claims)
          → jwt.parse_with_claims (key_for am') (token_of r) ≡ some c
          → (message : String) × (accept_claims jwt am' t c r ≡ reply 401 message))
      → (message : String) × (require_auth jwt am' t r ≡ reply 401 message)
  unfolding require_auth
  refused_at am' t r refuses = elim (Bool-cases (str_eq (token_of r) "")) [
    | inl none_given ↦ ("Authorization required", ground (arith, none_given))
    | inr given ↦ elim (Option-cases (jwt.parse_with_claims (key_for am') (token_of r))) [
      | inl e ↦ ("Invalid or expired token", ground (arith, given, e))
      | inr (c, e) ↦ ((refuses c e).0, ground (arith, given, e, (refuses c e).1))
    ]
  ]

  -- After a logout with a bearer token whose claims name an id and an expiry, where Redis can be
  -- written and the middleware parses no other id and expiry from it, a request with that token
  -- at any later time but the second of the expiry, for which Redis can be read, is refused with
  -- 401.
  pub logout_ends :
      (call : Call) (w : World rd) (down : Bool) (t exp : ℕ) (user_id org_id jti : String)
      (claims : MapClaims) (r : Request)
      → call.user_id ≡ some user_id
      → call.organization_id ≡ some org_id
      → call.authorization ≢ ""
      → token_of r ≡ bearer_token call.authorization
      → sg.parse_unverified (bearer_token call.authorization) ≡ some claims
      → claims.jti ≡ some jti
      → claims.exp ≡ some exp
      → ((c : Claims)
          → jwt.parse_with_claims (key_for am) (bearer_token call.authorization) ≡ some c
          → (c.jti ≡ jti) × (c.expires_at ≡ some exp))
      → jti ≢ ""
      → call.faults.redis_set ≡ false
      → down ≡ false
      → call.now ≤ t
      → t ≢ exp
      → (message : String) × (require_auth jwt
            (reading rd am down t (logout rd sg call w).1.redis)
            t
            r
          ≡ reply 401 message)
  logout_ends call w down t exp user_id org_id jti claims r hu ho ha same parsed hj he agree named
        up readable later apart =
      let token = bearer_token call.authorization in
      let store = delete_session_key rd sg call token w.redis in
      let left : (logout rd sg call w).1.redis ≡ blacklist rd sg call token store =
        logout_blacklists call w user_id org_id hu ho ha in
      rw (readable, left)
        (refused_at (reading rd am false t (blacklist rd sg call token store)) t r (λ c e.
          let parsed_as =
            sym (
              ap (λ k. jwt.parse_with_claims k token)
                (same_keys t (blacklist rd sg call token store)))
            ∙ ap
                (jwt.parse_with_claims
                  (key_for (reading rd am false t (blacklist rd sg call token store))))
                (sym same)
            ∙ e in
          let (cj, ce) = agree c parsed_as in
          listed_refused call t exp token jti c claims store r parsed hj he cj ce named up later
            apart))
