-- ===== src/Accounts/Login/Refresh.antt =====
-- What becomes of the refresh token of a login.
use monkeys_identity.Base.{String, Option, none, some, ◌≡◌, ap, arith, Option-cases, inl, inr, ◌⊎◌}
use monkeys_identity.Platform.{Unicode}
use monkeys_identity.Redis.{Redis}
use monkeys_identity.Accounts.{User, World, Call, Crypto, refused, panicked}
use monkeys_identity.Accounts.Roles.{get_primary_role_for_user}
use monkeys_identity.Accounts.Tokens.{
  Signer, TokenPair, or_user, generate_tokens, refresh_claims, access_claims, signed_pair,
}
use monkeys_identity.Accounts.Login.{refresh_token, tokens_for}

module _ (rd : Redis) (sg : Signer) (cr : Crypto) (u : Unicode) (issuer : String) where
  pair_signed :
      (access refresh : Option String) (tokens : TokenPair)
      → signed_pair access refresh ≡ some tokens
      → refresh ≡ some tokens.refresh_token
  pair_signed none refresh tokens h = ground arith
  pair_signed (some access) none tokens h = ground arith
  pair_signed (some access) (some refresh) tokens h = ground arith

  refresh_signed :
      (call : Call) (user : User) (tokens : TokenPair) (w : World rd)
      → tokens_for rd sg cr u issuer call w user ≡ some tokens
      → sg.sign (refresh_claims call.now user call.refresh_id) ≡ some tokens.refresh_token
  unfolding generate_tokens
  refresh_signed call user tokens w h =
      pair_signed
        (sg.sign (
          access_claims call.now issuer user
            (or_user (
              get_primary_role_for_user call.faults.read_role user.id user.organization_id w.roles
                w.role_assignments))
            call.access_id))
        (sg.sign (refresh_claims call.now user call.refresh_id)) tokens h

  -- The refresh token that a login hands out never gets new tokens, at any time and with any
  -- secret: the answer is 401, or the handler panics.
  pub refresh_token_unusable :
      (jwt_secret : String) (call call' : Call) (user : User) (tokens : TokenPair) (w w' : World rd)
      → tokens_for rd sg cr u issuer call w user ≡ some tokens
      → (refresh_token rd sg cr u issuer jwt_secret call' (some tokens.refresh_token) w'
          ≡ refused 401 "Invalid refresh token")
        ⊎ (refresh_token rd sg cr u issuer jwt_secret call' (some tokens.refresh_token) w'
            ≡ panicked)
  unfolding refresh_token
  refresh_token_unusable jwt_secret call call' user tokens w w' h =
      let signed = refresh_signed call user tokens w h in
      elim (Option-cases (sg.parse jwt_secret call'.now tokens.refresh_token)) [
        | inl e ↦ inl (ground (arith, e))
        | inr (claims, e) ↦ inr (
            let same =
              sg.parse_signed (refresh_claims call.now user call.refresh_id) claims jwt_secret
                tokens.refresh_token call'.now signed e in
            let who : claims.user_id ≡ some user.id = ap (λ c. c.user_id) same in
            let no_org : claims.organization_id ≡ none = ap (λ c. c.organization_id) same in
            ground (arith, e, who, no_org))
      ]
