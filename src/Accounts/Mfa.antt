-- ===== src/Accounts/Mfa.antt =====
-- `SetupMFA`, `VerifyMFA`, `GenerateBackupCodes` and `DisableMFA` of internal/handlers/auth.go. The
-- secret that the TOTP library draws and the ten backup codes are arguments.
pub mod Sound
pub mod SoundRecovery
pub mod SoundMfa
pub mod Reach
use Prim.Native.String
use monkeys_identity.Base.{not, String, List, Option, none, some, if◌then◌else◌}
use monkeys_identity.Redis.{Redis}
use monkeys_identity.Accounts.{User, World, Call, Crypto, Reply, refused, answered, panicked}
use monkeys_identity.Accounts.Keys.{set_token, get_token, delete_token}
use monkeys_identity.Accounts.Users.{get_user_by_id, enable_mfa, disable_mfa, update_backup_codes}

abbrev pub mfa_setup_key : String → String
mfa_setup_key user_id = String.◌++◌ "mfa_setup:" user_id

module _ (rd : Redis) (cr : Crypto) where
  -- Type assertions on the two locals, which panic where one is not set.
  abbrev pub with_caller :
      {A : Type 0}
      → World rd
      → Option String
      → Option String
      → (String → String → Reply A × World rd)
      → Reply A × World rd
  with_caller w (some user_id) (some org_id) k = k user_id org_id
  with_caller w none _ k = (panicked, w)
  with_caller w (some user_id) none k = (panicked, w)

  -- The error of a missing row is "sql: no rows in result set", without the words "not found" that
  -- the handlers look for, so that it is answered as every other error of the database.
  abbrev pub with_user :
      {A : Type 0} → World rd → Option User → (User → Reply A × World rd) → Reply A × World rd
  with_user w none k = (refused 500 "Failed to retrieve user", w)
  with_user w (some user) k = k user

  abbrev pub setup_stored :
      (secret : String) → World rd → Option (World rd) → Reply String × World rd
  setup_stored secret w none = (refused 500 "Failed to initiate MFA setup", w)
  setup_stored secret w (some w') = (answered secret, w')

  abbrev pub setup_generated :
      Call → (user_id : String) → World rd → Option String → Reply String × World rd
  setup_generated call user_id w none = (refused 500 "Failed to generate MFA secret", w)
  setup_generated call user_id w (some secret) =
      setup_stored secret w (set_token rd call (mfa_setup_key user_id) secret 600 w)

  -- The answer is the secret.
  unfoldable pub setup_mfa : (generated : Option String) → Call → World rd → Reply String × World rd
  unfolding get_user_by_id set_token
  setup_mfa generated call w = with_caller w call.user_id call.organization_id (λ user_id org_id.
      with_user w (get_user_by_id call.faults.read_user user_id org_id w.users) (λ user.
        if user.mfa_enabled
        then (refused 409 "MFA is already enabled for this account", w)
        else setup_generated call user_id w generated))

  abbrev pub verify_enabled :
      (codes : List String)
      → Call
      → (user_id : String) → World rd
      → Option (List User)
      → Reply (List String) × World rd
  verify_enabled codes call user_id w none = (refused 500 "Failed to complete MFA setup", w)
  verify_enabled codes call user_id w (some users') =
      (answered codes, delete_token rd call (mfa_setup_key user_id) (record w { users = users' }))

  abbrev pub verify_secret :
      (codes : List String)
      → Call
      → (passcode user_id org_id : String) → World rd
      → Option String
      → Reply (List String) × World rd
  verify_secret codes call passcode user_id org_id w none = (refused 401 "Invalid MFA code", w)
  verify_secret codes call passcode user_id org_id w (some secret) =
      if cr.verify_totp call.now passcode secret
      then verify_enabled codes call user_id w
          (enable_mfa call.faults.write_user user_id org_id secret codes w.users)
      else (refused 401 "Invalid MFA code", w)

  -- The answer is the backup codes.
  unfoldable pub verify_mfa :
      (codes : List String) → Call → Option String → World rd → Reply (List String) × World rd
  unfolding enable_mfa get_token delete_token
  verify_mfa codes call none w = (refused 400 "Invalid request format", w)
  verify_mfa codes call (some passcode) w =
      with_caller w call.user_id call.organization_id (λ user_id org_id.
        verify_secret codes call passcode user_id org_id w
          (get_token rd call (mfa_setup_key user_id) w))

  abbrev pub codes_stored :
      (codes : List String) → World rd → Option (List User) → Reply (List String) × World rd
  codes_stored codes w none = (refused 500 "Failed to generate backup codes", w)
  codes_stored codes w (some users') = (answered codes, record w { users = users' })

  unfoldable pub generate_backup_codes :
      (codes : List String) → Call → World rd → Reply (List String) × World rd
  unfolding get_user_by_id update_backup_codes
  generate_backup_codes codes call w =
      with_caller w call.user_id call.organization_id (λ user_id org_id.
        with_user w (get_user_by_id call.faults.read_user user_id org_id w.users) (λ user.
          if user.mfa_enabled
          then codes_stored codes w
              (update_backup_codes call.faults.write_user user_id org_id codes w.users)
          else (refused 400 "MFA is not enabled. Please set up MFA first.", w)))

  abbrev pub disable_stored : World rd → Option (List User) → Reply String × World rd
  disable_stored w none = (refused 500 "Failed to disable MFA", w)
  disable_stored w (some users') =
      (answered "Multi-factor authentication has been disabled", record w { users = users' })

  abbrev pub disable_checked :
      Call → (user_id org_id : String) → World rd → Option String → Reply String × World rd
  disable_checked call user_id org_id w none = (refused 400 "Invalid request format", w)
  disable_checked call user_id org_id w (some password) =
      with_user w (get_user_by_id call.faults.read_user user_id org_id w.users) (λ user.
        if not user.mfa_enabled
        then (refused 400 "MFA is not currently enabled", w)
        else if cr.compare user.password_hash password
        then disable_stored w (disable_mfa call.faults.write_user user_id org_id w.users)
        else (refused 401 "Invalid password", w))

  -- `DisableMFA`; the body is the password.
  unfoldable pub disable_mfa_handler : Call → Option String → World rd → Reply String × World rd
  unfolding get_user_by_id disable_mfa
  disable_mfa_handler call body w =
      with_caller w call.user_id call.organization_id
        (λ user_id org_id. disable_checked call user_id org_id w body)
