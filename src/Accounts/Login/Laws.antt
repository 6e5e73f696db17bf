-- ===== src/Accounts/Login/Laws.antt =====
-- What lets a user in: the password alone, the password and a one-time code, or a refresh token.
use monkeys_identity.Base.{
  true, false, ◌||◌, String, text_eq, [], Option, none, some, str_eq, ◌≡◌, refl, arith, eq_iff,
  Bool-cases, Option-cases, inl, inr,
}
use monkeys_identity.Platform.{Unicode}
use monkeys_identity.Redis.{Redis}
use monkeys_identity.Sessions.{create_session, or_same}
use monkeys_identity.Accounts.{User, World, Call, Crypto, answered}
use monkeys_identity.Accounts.Users.{get_user_by_email}
use monkeys_identity.Accounts.Tokens.{Signer, TokenPair}
use monkeys_identity.Accounts.Login.{
  LoginRequest, logged_in, normalized, new_session, login, tokens_for, with_login, login_user,
  check_password,
}

module _ (rd : Redis) (sg : Signer) (cr : Crypto) (u : Unicode) (issuer : String) where
  -- What a login that hands out tokens has checked, and the session that it opened.
  pub record LoggedIn (call : Call) (req : LoginRequest) (w w' : World rd) (tokens : TokenPair)
      (user : User) : Type 0 where
    pub found : get_user_by_email false (normalized u req.email) "" w.users ≡ some user
    pub password : cr.compare user.password_hash req.password ≡ true
    pub is_active : user.status ≡ "active"
    pub no_mfa : user.mfa_enabled ≡ false
    pub issued : tokens_for rd sg cr u issuer call w user ≡ some tokens
    pub session :
        w'.sessions
        ≡ or_same w.sessions (
            create_session call.faults.write_session
              (new_session call user tokens false)
              w.sessions)

  -- the same of the part that comes after the password
  user_sound :
      (call : Call) (user user' : User) (w w' : World rd) (tokens : TokenPair)
      (role : Option String)
      → login_user rd sg cr u issuer call user w ≡ (answered (logged_in tokens user' role), w')
      → (user ≡ user')
        × (user.status ≡ "active")
        × (user.mfa_enabled ≡ false)
        × (tokens_for rd sg cr u issuer call w user ≡ some tokens)
        × (with_login rd sg cr u issuer call user tokens false w ≡ w')
  user_sound call user user' w w' tokens role h =
      elim (Option-cases (tokens_for rd sg cr u issuer call w user)) [
        | inl e ↦ ground (arith, e, eq_iff user.status "suspended", eq_iff user.status "active")
        | inr (tokens', e) ↦
            ground (arith, e, eq_iff user.status "suspended", eq_iff user.status "active")
      ]

  password_sound :
      (call : Call) (req : LoginRequest) (w w' : World rd) (tokens : TokenPair) (user : User)
      (role : Option String) (found : Option User)
      → get_user_by_email false (normalized u req.email) "" w.users ≡ found
      → check_password rd sg cr u issuer call req.password w found
        ≡ (answered (logged_in tokens user role), w')
      → LoggedIn call req w w' tokens user
  password_sound call req w w' tokens user role none e h = ground arith
  password_sound call req w w' tokens user role (some user') e h =
      elim (Bool-cases (cr.compare user'.password_hash req.password)) [
        | inr no_match ↦ ground (arith, no_match)
        | inl accepted ↦
            let (same, active, no_mfa, issued, moved) =
              user_sound call user' user w w' tokens role (ground (arith, accepted)) in
            rw (← same) (
              rw (← moved) (record {
                found = e;
                password = accepted;
                is_active = active;
                no_mfa = no_mfa;
                issued = issued;
                session = refl;
              }))
      ]

  -- A login that answers with tokens found a live user by the trimmed, lower-case address, whose
  -- password fits, who is active and has no second factor; the tokens are those of that user, and
  -- the session with the access token is added unless the database fails.
  pub login_sound :
      (call : Call) (req : LoginRequest) (w w' : World rd) (tokens : TokenPair) (user : User)
      (role : Option String)
      → login rd sg cr u issuer call (some req) w ≡ (answered (logged_in tokens user role), w')
      → LoggedIn call req w w' tokens user
  unfolding login get_user_by_email
  login_sound call req w w' tokens user role h =
      elim (Bool-cases (text_eq (normalized u req.email) [] || str_eq req.password "")) [
        | inl missing ↦ ground (arith, missing)
        | inr given ↦ elim (Bool-cases call.faults.read_user) [
          | inl down ↦ ground (arith, given, down)
          | inr up ↦
              password_sound call req w w' tokens user role
                (get_user_by_email call.faults.read_user (normalized u req.email) "" w.users)
                (rw up refl) (ground (arith, given))
        ]
      ]
