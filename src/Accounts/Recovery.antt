-- ===== src/Accounts/Recovery.antt =====
-- `Register`, `ForgotPassword`, `ResetPassword`, `VerifyEmail` and `ResendVerification` of
-- internal/handlers/auth.go, and the one-time tokens of internal/queries/auth.go.
pub mod Laws
pub mod Once
use Prim.Native.String
use monkeys_identity.Base.{
  ℕ, Bool, true, false, not, ◌&&◌, ◌||◌, String, Text, List, [], ◌∷◌, Option, none, some, str_eq,
  if◌then◌else◌,
}
use monkeys_identity.Platform.{Unicode}
use monkeys_identity.Redis.{Redis}
use monkeys_identity.Accounts.{User, World, Faults, Call, Crypto, Mail, Reply, refused, answered}
use monkeys_identity.Accounts.Users.{
  Inserted, inserted, conflict, failed, get_user_by_email, create_user, update_password,
  update_email_verification,
}
use monkeys_identity.Accounts.Keys.{set_token, get_token, delete_token}
use monkeys_identity.Accounts.Login.{normalized}

pub record RegisterRequest : Type 0 where
  pub username : String
  pub email : Text
  pub password : String
  pub display_name : String
  pub organization_id : String

pub record ResetPasswordRequest : Type 0 where
  pub token : String
  pub new_password : String

abbrev pub password_reset_key : String → String
password_reset_key token = String.◌++◌ "password_reset:" token

abbrev pub email_verification_key : String → String
email_verification_key token = String.◌++◌ "email_verification:" token

abbrev pub new_user : Unicode → (id hash : String) → RegisterRequest → User
new_user u id hash req = record {
  id = id;
  username = req.username;
  email = normalized u req.email;
  display_name = req.display_name;
  organization_id = req.organization_id;
  password_hash = hash;
  status = "active";
  email_verified = false;
  mfa_enabled = false;
  mfa_methods = [];
  totp_secret = "";
  mfa_backup_codes = [];
  last_login = none;
  deleted_at = none;
}

module _ (rd : Redis) (cr : Crypto) (u : Unicode) where
  unfoldable pub send_mail : Call → User → World rd → World rd
  send_mail call user w = if call.faults.mail then w else record w {
    outbox =
        record { recipient = user.email; username = user.username; token = call.token } ∷ w.outbox;
  }

  -- the world after a call whose error is dropped
  abbrev pub or_world : World rd → Option (World rd) → World rd
  or_world w none = w
  or_world w (some w') = w'

  abbrev pub register_inserted :
      Call → User → World rd → Inserted (List User) → Reply String × World rd
  register_inserted call user w conflict =
      (refused 409 "A user with this email or username already exists", w)
  register_inserted call user w failed = (refused 500 "Failed to create user account", w)
  register_inserted call user w (inserted users') = (
    answered user.id,
    let w' = record w { users = users' } in
        send_mail call user
          (or_world w' (set_token rd call (email_verification_key call.token) user.id 86400 w')),
  )

  abbrev pub register_hashed :
      (user_id : String)
      → Call
      → RegisterRequest
      → World rd
      → Option String
      → Reply String × World rd
  register_hashed user_id call req w none = (refused 500 "Failed to process password", w)
  register_hashed user_id call req w (some hash) =
      let user = new_user u user_id hash req in
      register_inserted call user w (create_user call.faults.write_user user w.users)

  abbrev pub register_found :
      (salt : ℕ) (user_id : String)
      → Call
      → RegisterRequest
      → World rd
      → Option User
      → Reply String × World rd
  register_found salt user_id call req w (some existing) =
      (refused 409 "User with this email already exists", w)
  register_found salt user_id call req w none =
      register_hashed user_id call req w (cr.generate_from_password salt req.password)

  -- The answer is the id of the new user.
  unfoldable pub register :
      (salt : ℕ) (user_id : String)
      → Call
      → Option RegisterRequest
      → World rd
      → Reply String × World rd
  unfolding get_user_by_email create_user set_token send_mail
  register salt user_id call none w = (refused 400 "Invalid request format", w)
  register salt user_id call (some req) w =
      register_found salt user_id call req w (
        get_user_by_email call.faults.read_user (normalized u req.email) req.organization_id
          w.users)

  abbrev pub forgot_stored : Call → User → World rd → Option (World rd) → Reply String × World rd
  forgot_stored call user w none = (refused 500 "Failed to process password reset request", w)
  forgot_stored call user w (some w') = (
    answered "If an account with that email exists, a password reset link has been sent",
    send_mail call user w',
  )

  abbrev pub forgot_found : Call → World rd → Option User → Reply String × World rd
  forgot_found call w none =
      (answered "If an account with that email exists, a password reset link has been sent", w)
  forgot_found call w (some user) =
      forgot_stored call user w (set_token rd call (password_reset_key call.token) user.id 3600 w)

  -- The address is used as it was typed.
  unfoldable pub forgot_password : Call → Option Text → World rd → Reply String × World rd
  unfolding get_user_by_email set_token send_mail
  forgot_password call none w = (refused 400 "Invalid request format", w)
  forgot_password call (some email) w =
      forgot_found call w (get_user_by_email call.faults.read_user email "" w.users)

  -- HGET of the owner, and DEL of the key if it is the user
  abbrev pub delete_owned : Call → (user_id key : String) → rd.Store → Option String → rd.Store
  delete_owned call user_id key store none = store
  delete_owned call user_id key store (some owner) =
      if str_eq owner user_id && not call.faults.redis_del then rd.del key store else store

  -- Of the keys "session:*", those whose hash names the user are deleted.
  unfoldable pub delete_session_keys : Call → (user_id : String) → List String → rd.Store → rd.Store
  delete_session_keys call user_id [] store = store
  delete_session_keys call user_id (key ∷ keys) store = delete_session_keys call user_id keys (
      delete_owned call user_id key store
        (if call.faults.redis_get then none else rd.hget call.now key "user_id" store))

  unfoldable pub invalidate_user_sessions : Call → (user_id : String) → World rd → World rd
  unfolding delete_session_keys
  invalidate_user_sessions call user_id w = if call.faults.redis_keys then w else record w {
    redis = delete_session_keys call user_id (rd.keys call.now "session:" w.redis) w.redis;
  }

  abbrev pub reset_updated :
      Call → (token user_id : String) → World rd → Option (List User) → Reply String × World rd
  reset_updated call token user_id w none = (refused 500 "Failed to update password", w)
  reset_updated call token user_id w (some users') = (
    answered "Password updated successfully",
    invalidate_user_sessions call user_id
        (delete_token rd call (password_reset_key token) (record w { users = users' })),
  )

  abbrev pub reset_hashed :
      Call → (token user_id : String) → World rd → Option String → Reply String × World rd
  reset_hashed call token user_id w none = (refused 500 "Failed to process new password", w)
  reset_hashed call token user_id w (some hash) =
      reset_updated call token user_id w
        (update_password call.faults.write_user user_id hash "" w.users)

  abbrev pub reset_found :
      (salt : ℕ) → Call → ResetPasswordRequest → World rd → Option String → Reply String × World rd
  reset_found salt call req w none = (refused 400 "Invalid or expired reset token", w)
  reset_found salt call req w (some user_id) =
      if str_eq user_id ""
      then (refused 400 "Invalid or expired reset token", w)
      else reset_hashed call req.token user_id w (cr.generate_from_password salt req.new_password)

  unfoldable pub reset_password :
      (salt : ℕ) → Call → Option ResetPasswordRequest → World rd → Reply String × World rd
  unfolding get_token update_password delete_token invalidate_user_sessions
  reset_password salt call none w = (refused 400 "Invalid request format", w)
  reset_password salt call (some req) w =
      reset_found salt call req w (get_token rd call (password_reset_key req.token) w)

  abbrev pub verify_updated :
      Call → (token : String) → World rd → Option (List User) → Reply String × World rd
  verify_updated call token w none = (refused 500 "Failed to verify email", w)
  verify_updated call token w (some users') = (
    answered "Email verified successfully",
    delete_token rd call (email_verification_key token) (record w { users = users' }),
  )

  abbrev pub verify_found :
      Call → (token : String) → World rd → Option String → Reply String × World rd
  verify_found call token w none = (refused 400 "Invalid or expired verification token", w)
  verify_found call token w (some user_id) =
      verify_updated call token w
        (update_email_verification call.faults.write_user user_id true "" w.users)

  unfoldable pub verify_email : Call → Option String → World rd → Reply String × World rd
  unfolding get_token update_email_verification delete_token
  verify_email call none w = (refused 400 "Invalid request format", w)
  verify_email call (some token) w =
      verify_found call token w (get_token rd call (email_verification_key token) w)

  abbrev pub resend_stored : Call → User → World rd → Option (World rd) → Reply String × World rd
  resend_stored call user w none = (refused 500 "Failed to process verification request", w)
  resend_stored call user w (some w') = (
    answered
        "If an account with that email exists and is unverified, a verification email has been sent",
    send_mail call user w',
  )

  abbrev pub resend_found : Call → World rd → Option User → Reply String × World rd
  resend_found call w none = (
    answered
        "If an account with that email exists and is unverified, a verification email has been sent",
    w,
  )
  resend_found call w (some user) =
      if user.email_verified
      then (answered "Email is already verified", w)
      else resend_stored call user w
          (set_token rd call (email_verification_key call.token) user.id 86400 w)

  unfoldable pub resend_verification : Call → Option Text → World rd → Reply String × World rd
  unfolding get_user_by_email set_token send_mail
  resend_verification call none w = (refused 400 "Invalid request format", w)
  resend_verification call (some email) w =
      resend_found call w (get_user_by_email call.faults.read_user email "" w.users)
