-- ===== src/Accounts/Mfa/SoundRecovery.antt =====
-- The same of the second step of a login, and of the handlers that send mails and use their tokens.
use monkeys_identity.Base.{ℕ, true, not, String, Text, List, Option, none, some, str_eq, if_both}
use monkeys_identity.Platform.{Unicode}
use monkeys_identity.Redis.{Redis}
use monkeys_identity.Middleware.Auth.{split}
use monkeys_identity.Accounts.{User, World, Call, Crypto, Reply, refused, answered}
use monkeys_identity.Accounts.Users.{
  user_in, update_password, update_email_verification, get_user_by_id, get_user_by_email,
}
use monkeys_identity.Accounts.Keys.{set_token, get_token, delete_token}
use monkeys_identity.Accounts.Tokens.{Signer, TokenPair}
use monkeys_identity.Accounts.Login.{
  LoginMfaRequest, login_mfa_verify, with_login, tokens_for, mfa_issued, mfa_user, mfa_parts,
  mfa_value, stored_user, LoginResponse, mfa_login_key,
}
use monkeys_identity.Accounts.Recovery.{
  ResetPasswordRequest, email_verification_key, password_reset_key, forgot_stored, forgot_found,
  resend_stored, resend_found, reset_updated, reset_hashed, reset_found, verify_updated,
  verify_found, invalidate_user_sessions, forgot_password, reset_password, verify_email,
  resend_verification,
}
use monkeys_identity.Accounts.Mfa.Sound.{
  Sound, AllSome, SomeWorld, update_sound, login_kept, delete_kept, set_kept, send_kept,
}

module _ (Shown : (id secret : String) → Type 0) (rd : Redis) (sg : Signer) (cr : Crypto)
    (u : Unicode) (issuer : String) where
  abbrev S : World rd → Type 0
  S = Sound Shown rd sg cr u issuer

  abbrev O : {A : Type 0} → Reply A × World rd → Type 0
  O r = S r.1

  issued_sound :
      (call : Call) (req : LoginMfaRequest) (user : User) (w : World rd) (o : Option TokenPair)
      → S w
      → O (mfa_issued rd sg cr u issuer call req user w o)
  issued_sound call req user w none h = h
  issued_sound call req user w (some tokens) h =
      delete_kept Shown rd sg cr u issuer call (mfa_login_key req.mfa_token)
        (with_login rd sg cr u issuer call user tokens true w)
        (login_kept Shown rd sg cr u issuer call user tokens true w h)

  user_sound :
      (call : Call) (req : LoginMfaRequest) (w : World rd) (o : Option User)
      → S w
      → O (mfa_user rd sg cr u issuer call req w o)
  user_sound call req w none h = h
  user_sound call req w (some user) h =
      if_both (O {A = LoginResponse}) (not (cr.verify_totp call.now req.code user.totp_secret))
        (refused 401 "Invalid MFA code", w) _ h
        (issued_sound call req user w (tokens_for rd sg cr u issuer call w user) h)

  parts_sound :
      (call : Call) (req : LoginMfaRequest) (w : World rd) (o : Option (String × String))
      → S w
      → O (mfa_parts rd sg cr u issuer call req w o)
  parts_sound call req w none h = h
  parts_sound call req w (some (id, org_id)) h =
      user_sound call req w (get_user_by_id call.faults.read_user id org_id w.users) h

  value_sound :
      (call : Call) (req : LoginMfaRequest) (w : World rd) (o : Option String)
      → S w
      → O (mfa_value rd sg cr u issuer call req w o)
  value_sound call req w none h = h
  value_sound call req w (some val) h = parts_sound call req w (stored_user (split b':' val)) h

  pub login_mfa_verify-MfaSound :
      (call : Call) (body : Option LoginMfaRequest) (w : World rd)
      → S w
      → O (login_mfa_verify rd sg cr u issuer call body w)
  unfolding login_mfa_verify
  login_mfa_verify-MfaSound call none w h = h
  login_mfa_verify-MfaSound call (some req) w h =
      value_sound call req w (get_token rd call (mfa_login_key req.mfa_token) w) h

  forgot_stored_sound :
      (call : Call) (user : User) (w : World rd) (o : Option (World rd))
      → S w
      → SomeWorld Shown rd sg cr u issuer o
      → O (forgot_stored rd cr u call user w o)
  forgot_stored_sound call user w none h o = h
  forgot_stored_sound call user w (some w') h o = send_kept Shown rd sg cr u issuer call user w' o

  forgot_sound :
      (call : Call) (w : World rd) (o : Option User) → S w → O (forgot_found rd cr u call w o)
  forgot_sound call w none h = h
  forgot_sound call w (some user) h =
      forgot_stored_sound call user w
        (set_token rd call (password_reset_key call.token) user.id 3600 w) h
        (set_kept Shown rd sg cr u issuer call (password_reset_key call.token) user.id 3600 w h)

  pub forgot_password-MfaSound :
      (call : Call) (body : Option Text) (w : World rd)
      → S w
      → O (forgot_password rd cr u call body w)
  unfolding forgot_password
  forgot_password-MfaSound call none w h = h
  forgot_password-MfaSound call (some email) w h =
      forgot_sound call w (get_user_by_email call.faults.read_user email "" w.users) h

  resend_stored_sound :
      (call : Call) (user : User) (w : World rd) (o : Option (World rd))
      → S w
      → SomeWorld Shown rd sg cr u issuer o
      → O (resend_stored rd cr u call user w o)
  resend_stored_sound call user w none h o = h
  resend_stored_sound call user w (some w') h o = send_kept Shown rd sg cr u issuer call user w' o

  resend_sound :
      (call : Call) (w : World rd) (o : Option User) → S w → O (resend_found rd cr u call w o)
  resend_sound call w none h = h
  resend_sound call w (some user) h =
      if_both (O {A = String}) user.email_verified (answered "Email is already verified", w) _ h
        (resend_stored_sound call user w
          (set_token rd call (email_verification_key call.token) user.id 86400 w) h
          (set_kept Shown rd sg cr u issuer call (email_verification_key call.token) user.id 86400 w
            h))

  pub resend_verification-MfaSound :
      (call : Call) (body : Option Text) (w : World rd)
      → S w
      → O (resend_verification rd cr u call body w)
  unfolding resend_verification
  resend_verification-MfaSound call none w h = h
  resend_verification-MfaSound call (some email) w h =
      resend_sound call w (get_user_by_email call.faults.read_user email "" w.users) h

  sweep_kept :
      (call : Call) (user_id : String) (w : World rd)
      → S w
      → S (invalidate_user_sessions rd cr u call user_id w)
  unfolding invalidate_user_sessions
  sweep_kept call user_id w h = if_both S call.faults.redis_keys w _ h h

  updated_sound :
      (call : Call) (token user_id : String) (w : World rd) (o : Option (List User))
      → S w
      → AllSome Shown rd sg cr u issuer o
      → O (reset_updated rd cr u call token user_id w o)
  updated_sound call token user_id w none h o = h
  updated_sound call token user_id w (some users') h o =
      sweep_kept call user_id
        (delete_token rd call (password_reset_key token) (record w { users = users' }))
        (delete_kept Shown rd sg cr u issuer call (password_reset_key token)
          (record w { users = users' }) o)

  hashed_sound :
      (call : Call) (token user_id : String) (w : World rd) (o : Option String)
      → S w
      → O (reset_hashed rd cr u call token user_id w o)
  unfolding update_password
  hashed_sound call token user_id w none h = h
  hashed_sound call token user_id w (some hash) h =
      updated_sound call token user_id w
        (update_password call.faults.write_user user_id hash "" w.users) h
        (update_sound Shown rd sg cr u issuer call.faults.write_user (user_in user_id "")
          (λ row. record row { password_hash = hash }) w.users
          (λ row s. record { shown = s.shown; none_kept = s.none_kept }) h)

  reset_sound :
      (salt : ℕ) (call : Call) (req : ResetPasswordRequest) (w : World rd) (o : Option String)
      → S w
      → O (reset_found rd cr u salt call req w o)
  reset_sound salt call req w none h = h
  reset_sound salt call req w (some user_id) h =
      if_both (O {A = String}) (str_eq user_id "") (refused 400 "Invalid or expired reset token", w)
        _ h
        (hashed_sound call req.token user_id w (cr.generate_from_password salt req.new_password) h)

  pub reset_password-MfaSound :
      (salt : ℕ) (call : Call) (body : Option ResetPasswordRequest) (w : World rd)
      → S w
      → O (reset_password rd cr u salt call body w)
  unfolding reset_password
  reset_password-MfaSound salt call none w h = h
  reset_password-MfaSound salt call (some req) w h =
      reset_sound salt call req w (get_token rd call (password_reset_key req.token) w) h

  verified_sound :
      (call : Call) (token : String) (w : World rd) (o : Option (List User))
      → S w
      → AllSome Shown rd sg cr u issuer o
      → O (verify_updated rd cr u call token w o)
  verified_sound call token w none h o = h
  verified_sound call token w (some users') h o =
      delete_kept Shown rd sg cr u issuer call (email_verification_key token)
        (record w { users = users' }) o

  verify_sound :
      (call : Call) (token : String) (w : World rd) (o : Option String)
      → S w
      → O (verify_found rd cr u call token w o)
  unfolding update_email_verification
  verify_sound call token w none h = h
  verify_sound call token w (some user_id) h =
      verified_sound call token w
        (update_email_verification call.faults.write_user user_id true "" w.users) h
        (update_sound Shown rd sg cr u issuer call.faults.write_user (user_in user_id "")
          (λ row. record row { email_verified = true }) w.users
          (λ row s. record { shown = s.shown; none_kept = s.none_kept }) h)

  pub verify_email-MfaSound :
      (call : Call) (body : Option String) (w : World rd)
      → S w
      → O (verify_email rd cr u call body w)
  unfolding verify_email
  verify_email-MfaSound call none w h = h
  verify_email-MfaSound call (some token) w h =
      verify_sound call token w (get_token rd call (email_verification_key token) w) h
