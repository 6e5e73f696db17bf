-- ===== src/Accounts/Mfa/Sound.antt =====
-- What every handler keeps of the second factor: it is on only for a secret that was shown.
use Prim.Native.String
use monkeys_identity.Base.{
  ℕ, Bool, true, false, not, ◌||◌, String, text_eq, List, [], Option, none, some, str_eq, ◌≡◌, refl,
  arith, All, All-update_where, if_both, any, update_where,
}
use monkeys_identity.Platform.{Unicode}
use monkeys_identity.Redis.{Redis}
use monkeys_identity.Accounts.{User, World, Call, Crypto, Reply, refused, kept}
use monkeys_identity.Accounts.Users.{
  user_of, update_users, update_last_login, create_user, conflicts, Inserted, inserted, conflict,
  failed, get_user_by_email,
}
use monkeys_identity.Accounts.Keys.{set_token, delete_token}
use monkeys_identity.Accounts.Tokens.{Signer, TokenPair}
use monkeys_identity.Accounts.Login.{
  LoginRequest, login, with_login, tokens_for, login_issued, mfa_stored, check_password, login_user,
  mfa_login_key, normalized,
}
use monkeys_identity.Accounts.Recovery.{
  RegisterRequest, register, register_found, register_hashed, register_inserted, new_user, or_world,
  send_mail, email_verification_key,
}

-- `Shown id secret` stands for: the user has shown a code for the secret.
module _ (Shown : (id secret : String) → Type 0) where
  -- Who has the second factor has shown a code for its secret; who has not has no secret.
  pub record MfaSound (user : User) : Type 0 where
    pub shown : user.mfa_enabled ≡ true → Shown user.id user.totp_secret
    pub none_kept : user.mfa_enabled ≡ false → user.totp_secret ≡ ""

module _ (Shown : (id secret : String) → Type 0) (rd : Redis) (sg : Signer) (cr : Crypto)
    (u : Unicode) (issuer : String) where
  abbrev pub Sound : World rd → Type 0
  Sound w = All (MfaSound Shown) w.users

  abbrev pub AllSome : Option (List User) → Type 0
  AllSome none = Unit
  AllSome (some users) = All (MfaSound Shown) users

  abbrev pub Out : {A : Type 0} → Reply A × World rd → Type 0
  Out r = Sound r.1

  -- Statements on the table that leave the second factor alone, or set or reset it as a whole.
  pub update_sound :
      (down : Bool) (q : User → Bool) (g : User → User) (users : List User)
      → ((user : User) → MfaSound Shown user → MfaSound Shown (g user))
      → All (MfaSound Shown) users
      → AllSome (update_users down q g users)
  update_sound down q g users keeps h =
      if_both AllSome down none (some (update_where q g users)) tt
        (All-update_where (MfaSound Shown) q g keeps users h)

  pub kept_sound :
      (users : List User) (o : Option (List User))
      → All (MfaSound Shown) users
      → AllSome o
      → All (MfaSound Shown) (kept users o)
  kept_sound users none h o = h
  kept_sound users (some users') h o = o

  pub login_kept :
      (call : Call) (user : User) (tokens : TokenPair) (b : Bool) (w : World rd)
      → Sound w
      → Sound (with_login rd sg cr u issuer call user tokens b w)
  unfolding update_last_login
  login_kept call user tokens b w h =
      let o =
        update_last_login call.faults.write_user call.now user.id user.organization_id w.users in
      kept_sound w.users o h (
        update_sound call.faults.write_user (user_of user.id user.organization_id)
          (λ row. record row { last_login = some call.now }) w.users
          (λ row s. record { shown = s.shown; none_kept = s.none_kept }) h)

  pub delete_kept :
      (call : Call) (key : String) (w : World rd) → Sound w → Sound (delete_token rd call key w)
  unfolding delete_token
  delete_kept call key w h =
      if_both Sound call.faults.redis_del w (record w { redis = rd.del key w.redis }) h h

  -- storing a token, and sending a mail
  abbrev pub SomeWorld : Option (World rd) → Type 0
  SomeWorld none = Unit
  SomeWorld (some w) = Sound w

  pub set_kept :
      (call : Call) (key v : String) (ttl : ℕ) (w : World rd)
      → Sound w
      → SomeWorld (set_token rd call key v ttl w)
  unfolding set_token
  set_kept call key v ttl w h =
      if_both SomeWorld call.faults.redis_set none
        (some (record w { redis = rd.set call.now key v ttl w.redis })) tt h

  issued-Sound :
      (call : Call) (user : User) (w : World rd) (o : Option TokenPair)
      → Sound w
      → Out (login_issued rd sg cr u issuer call user w o)
  issued-Sound call user w none h = h
  issued-Sound call user w (some tokens) h = login_kept call user tokens user.mfa_enabled w h

  stored-Sound :
      (call : Call) (w : World rd) (o : Option (World rd))
      → Sound w
      → SomeWorld o
      → Out (mfa_stored rd sg cr u issuer call w o)
  stored-Sound call w none h o = h
  stored-Sound call w (some w') h o = o

  password-Sound :
      (call : Call) (password : String) (w : World rd) (o : Option User)
      → Sound w
      → Out (check_password rd sg cr u issuer call password w o)
  password-Sound call password w none h = h
  password-Sound call password w (some user) h =
      let value = String.◌++◌ user.id (String.◌++◌ ":" user.organization_id) in
      if_both Out (cr.compare user.password_hash password)
        (login_user rd sg cr u issuer call user w) (refused 401 "invalid_credentials", w)
        (if_both Out (str_eq user.status "suspended") (refused 403 "account_suspended", w) _ h
          (if_both Out (not (str_eq user.status "active")) (refused 403 "account_inactive", w) _ h
            (if_both Out user.mfa_enabled _ _
              (stored-Sound call w (set_token rd call (mfa_login_key call.token) value 300 w) h
                (set_kept call (mfa_login_key call.token) value 300 w h))
              (issued-Sound call user w (tokens_for rd sg cr u issuer call w user) h))))
        h

  pub login-MfaSound :
      (call : Call) (body : Option LoginRequest) (w : World rd)
      → Sound w
      → Out (login rd sg cr u issuer call body w)
  unfolding login
  login-MfaSound call none w h = h
  login-MfaSound call (some req) w h =
      if_both Out (text_eq (normalized u req.email) [] || str_eq req.password "")
        (refused 400 "validation_error", w) _ h
        (password-Sound call req.password w
          (get_user_by_email call.faults.read_user (normalized u req.email) "" w.users) h)

  pub send_kept :
      (call : Call) (user : User) (w : World rd) → Sound w → Sound (send_mail rd cr u call user w)
  unfolding send_mail
  send_kept call user w h = if_both Sound call.faults.mail w _ h h

  or_kept :
      (w : World rd) (o : Option (World rd)) → Sound w → SomeWorld o → Sound (or_world rd cr u w o)
  or_kept w none h o = h
  or_kept w (some w') h o = o

  -- the table after a row was added
  AllInserted : Inserted (List User) → Type 0
  AllInserted (inserted users) = All (MfaSound Shown) users
  AllInserted conflict = Unit
  AllInserted failed = Unit

  inserted-Sound :
      (call : Call) (user : User) (w : World rd) (o : Inserted (List User))
      → Sound w
      → AllInserted o
      → Out (register_inserted rd cr u call user w o)
  unfolding AllInserted
  inserted-Sound call user w conflict h o = h
  inserted-Sound call user w failed h o = h
  inserted-Sound call user w (inserted users') h o =
      let w' = record w { users = users' } in
      send_kept call user
        (or_world rd cr u w'
          (set_token rd call (email_verification_key call.token) user.id 86400 w'))
        (or_kept w' (set_token rd call (email_verification_key call.token) user.id 86400 w') o
          (set_kept call (email_verification_key call.token) user.id 86400 w' o))

  create_sound :
      (down : Bool) (user : User) (users : List User)
      → MfaSound Shown user
      → All (MfaSound Shown) users
      → AllInserted (create_user down user users)
  unfolding AllInserted create_user
  create_sound down user users s h =
      if_both AllInserted down failed _ tt
        (if_both AllInserted (any (conflicts user) users) conflict _ tt (s, h))

  hashed-Sound :
      (user_id : String) (call : Call) (req : RegisterRequest) (w : World rd) (o : Option String)
      → Sound w
      → Out (register_hashed rd cr u user_id call req w o)
  hashed-Sound user_id call req w none h = h
  hashed-Sound user_id call req w (some hash) h =
      let user = new_user u user_id hash req in
      inserted-Sound call user w (create_user call.faults.write_user user w.users) h (
        create_sound call.faults.write_user user w.users
          (record { shown = λ e. ground arith; none_kept = λ e. refl }) h)

  found-Sound :
      (salt : ℕ) (user_id : String) (call : Call) (req : RegisterRequest) (w : World rd)
      (o : Option User)
      → Sound w
      → Out (register_found rd cr u salt user_id call req w o)
  found-Sound salt user_id call req w (some existing) h = h
  found-Sound salt user_id call req w none h =
      hashed-Sound user_id call req w (cr.generate_from_password salt req.password) h

  pub register-MfaSound :
      (salt : ℕ) (user_id : String) (call : Call) (body : Option RegisterRequest) (w : World rd)
      → Sound w
      → Out (register rd cr u salt user_id call body w)
  unfolding register
  register-MfaSound salt user_id call none w h = h
  register-MfaSound salt user_id call (some req) w h =
      found-Sound salt user_id call req w
        (get_user_by_email call.faults.read_user (normalized u req.email) req.organization_id
          w.users)
        h
