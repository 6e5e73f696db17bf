-- ===== src/Accounts/Login.antt =====
-- `Login`, `LoginMFAVerify` and `RefreshToken` of internal/handlers/auth.go.
pub mod Laws
pub mod Mfa
pub mod Refresh
use Prim.Native.String
use monkeys_identity.Base.{
  ℕ, ◌+◌, Bool, true, false, not, ◌&&◌, ◌||◌, String, Text, text_eq, List, [], ◌∷◌, Option, none,
  some, str_eq, if◌then◌else◌,
}
use monkeys_identity.Platform.{Unicode, to_lower, trim_space}
use monkeys_identity.Redis.{Redis}
use monkeys_identity.Sessions.{Session, create_session, or_same}
use monkeys_identity.Middleware.Auth.{split}
use monkeys_identity.Accounts.{
  User, World, Faults, Call, Crypto, Reply, refused, answered, panicked, kept,
}
use monkeys_identity.Accounts.Users.{get_user_by_email, get_user_by_id, update_last_login}
use monkeys_identity.Accounts.Keys.{set_token, get_token, delete_token}
use monkeys_identity.Accounts.Roles.{get_primary_role_for_user}
use monkeys_identity.Accounts.Tokens.{
  MapClaims, Signer, TokenPair, access_lifetime, or_user, generate_tokens,
}

pub record LoginRequest : Type 0 where
  pub email : Text
  pub password : String

pub record LoginMfaRequest : Type 0 where
  pub mfa_token : String
  pub code : String

-- What a login answers. The second step does not say the role.
pub data LoginResponse : Type 0 where
  mfa_required : String → LoginResponse
  logged_in : TokenPair → User → Option String → LoginResponse

abbrev pub normalized : Unicode → Text → Text
normalized u email = trim_space (to_lower u email)

abbrev pub mfa_login_key : String → String
mfa_login_key token = String.◌++◌ "mfa_login:" token

abbrev pub new_session : Call → User → TokenPair → Bool → Session
new_session call user tokens verified = record {
  id = call.access_id;
  session_token = tokens.access_token;
  principal_id = user.id;
  principal_type = "user";
  organization_id = user.organization_id;
  mfa_verified = verified;
  ip_address = some call.ip;
  user_agent = some call.user_agent;
  device_fingerprint = none;
  issued_at = call.now;
  expires_at = call.now + tokens.expires_in;
  last_used_at = call.now;
  status = "active";
}

-- The value is "userID:orgID".
abbrev pub stored_user : List String → Option (String × String)
stored_user (user_id ∷ org_id ∷ []) = some (user_id, org_id)
stored_user _ = none

module _ (rd : Redis) (sg : Signer) (cr : Crypto) (u : Unicode) (issuer : String) where
  -- The last writes of a login; their failures are dropped.
  abbrev pub with_login : Call → User → TokenPair → Bool → World rd → World rd
  with_login call user tokens verified w =
      let session = new_session call user tokens verified in
      record w {
        sessions = or_same w.sessions (create_session call.faults.write_session session w.sessions);
        users = kept w.users (
            update_last_login call.faults.write_user call.now user.id user.organization_id w.users);
      }

  abbrev pub tokens_for : Call → World rd → User → Option TokenPair
  tokens_for call w user =
      generate_tokens sg issuer call.faults.read_role call.now w.roles w.role_assignments user
        call.access_id call.refresh_id

  abbrev pub mfa_stored : Call → World rd → Option (World rd) → Reply LoginResponse × World rd
  mfa_stored call w none = (refused 500 "server_error", w)
  mfa_stored call w (some w') = (answered (mfa_required call.token), w')

  abbrev pub login_issued :
      Call → User → World rd → Option TokenPair → Reply LoginResponse × World rd
  login_issued call user w none = (refused 500 "token_error", w)
  login_issued call user w (some tokens) = (
    answered (
        logged_in tokens user (
          some (
            or_user (
              get_primary_role_for_user call.faults.read_role user.id user.organization_id w.roles
                w.role_assignments)))),
    with_login call user tokens user.mfa_enabled w,
  )

  -- with the password checked
  abbrev pub login_user : Call → User → World rd → Reply LoginResponse × World rd
  login_user call user w =
      if str_eq user.status "suspended"
      then (refused 403 "account_suspended", w)
      else if not (str_eq user.status "active")
      then (refused 403 "account_inactive", w)
      else if user.mfa_enabled
      then mfa_stored call w (
          set_token rd call (mfa_login_key call.token)
            (String.◌++◌ user.id (String.◌++◌ ":" user.organization_id)) 300 w)
      else login_issued call user w (tokens_for call w user)

  -- with the row that was found
  abbrev pub check_password :
      Call → (password : String) → World rd → Option User → Reply LoginResponse × World rd
  check_password call password w none = (refused 401 "invalid_credentials", w)
  check_password call password w (some user) =
      if cr.compare user.password_hash password
      then login_user call user w
      else (refused 401 "invalid_credentials", w)

  unfoldable pub login : Call → Option LoginRequest → World rd → Reply LoginResponse × World rd
  unfolding get_user_by_email generate_tokens get_primary_role_for_user create_session
      update_last_login set_token
  login call none w = (refused 400 "invalid_request", w)
  login call (some req) w =
      let email = normalized u req.email in
      if text_eq email [] || str_eq req.password ""
      then (refused 400 "validation_error", w)
      else check_password call req.password w
          (get_user_by_email call.faults.read_user email "" w.users)

  abbrev pub mfa_issued :
      Call → LoginMfaRequest → User → World rd → Option TokenPair → Reply LoginResponse × World rd
  mfa_issued call req user w none = (refused 500 "Failed to generate tokens", w)
  mfa_issued call req user w (some tokens) = (
    answered (logged_in tokens user none),
    delete_token rd call (mfa_login_key req.mfa_token) (with_login call user tokens true w),
  )

  -- with the user found: the status is not looked at
  abbrev pub complete_mfa :
      Call → LoginMfaRequest → User → World rd → Reply LoginResponse × World rd
  complete_mfa call req user w =
      if not (cr.verify_totp call.now req.code user.totp_secret)
      then (refused 401 "Invalid MFA code", w)
      else mfa_issued call req user w (tokens_for call w user)

  abbrev pub mfa_user :
      Call → LoginMfaRequest → World rd → Option User → Reply LoginResponse × World rd
  mfa_user call req w none = (refused 401 "User not found", w)
  mfa_user call req w (some user) = complete_mfa call req user w

  abbrev pub mfa_parts :
      Call → LoginMfaRequest → World rd → Option (String × String) → Reply LoginResponse × World rd
  mfa_parts call req w none = (refused 500 "Internal server error", w)
  mfa_parts call req w (some (user_id, org_id)) =
      mfa_user call req w (get_user_by_id call.faults.read_user user_id org_id w.users)

  abbrev pub mfa_value :
      Call → LoginMfaRequest → World rd → Option String → Reply LoginResponse × World rd
  mfa_value call req w none = (refused 401 "Invalid or expired MFA token", w)
  mfa_value call req w (some val) = mfa_parts call req w (stored_user (split b':' val))

  unfoldable pub login_mfa_verify :
      Call → Option LoginMfaRequest → World rd → Reply LoginResponse × World rd
  unfolding split get_user_by_id generate_tokens get_primary_role_for_user create_session
      update_last_login get_token delete_token
  login_mfa_verify call none w = (refused 400 "Invalid request format", w)
  login_mfa_verify call (some req) w =
      mfa_value call req w (get_token rd call (mfa_login_key req.mfa_token) w)

  -- the access token and its lifetime
  unfoldable pub refresh_token :
      (jwt_secret : String) → Call → Option String → World rd → Reply (String × ℕ)
  unfolding get_user_by_id generate_tokens get_primary_role_for_user
  refresh_token jwt_secret call none w = refused 400 "Invalid request format"
  refresh_token jwt_secret call (some token) w = elim (sg.parse jwt_secret call.now token) [
    | none ↦ refused 401 "Invalid refresh token"
    | some claims ↦ elim claims.user_id [
      | none ↦ panicked
      | some user_id ↦ elim claims.organization_id [
        | none ↦ panicked
        | some org_id ↦ elim (get_user_by_id call.faults.read_user user_id org_id w.users) [
          | none ↦ refused 401 "User not found"
          | some user ↦ elim (tokens_for call w user) [
            | none ↦ refused 500 "Failed to generate new token"
            | some tokens ↦ answered (tokens.access_token, tokens.expires_in)
          ]
        ]
      ]
    ]
  ]
