-- ===== src/Accounts/Tests.antt =====
-- Tests of the accounts, and the theorems at concrete inputs.
use monkeys_identity.Base.{
  ℕ, true, false, String, codes, [], ◌∷◌, none, some, str_eq, ◌≡◌, refl, arith, eq_iff, All, find,
  ◌⊎◌,
}
use monkeys_identity.Platform.{ascii, to_lower, trim_space}
use monkeys_identity.Redis.Table.{table, read}
use monkeys_identity.Accounts.{User, World, Faults, Call, Crypto, refused, answered, panicked}
use monkeys_identity.Accounts.Tokens.{Signer, TokenPair, generate_tokens}
use monkeys_identity.Accounts.Users.{get_user_by_email, get_user_by_id}
use monkeys_identity.Accounts.Keys.{delete_token}
use monkeys_identity.Accounts.Login.{
  LoginRequest, mfa_required, logged_in, login, login_mfa_verify, refresh_token, tokens_for,
  with_login, normalized, mfa_login_key,
}
use monkeys_identity.Accounts.Login.Laws.{LoggedIn, login_sound}
use monkeys_identity.Accounts.Login.Mfa.{login_mfa_round_trip, login_mfa_verify_once}
use monkeys_identity.Accounts.Login.Refresh.{refresh_token_unusable}
use monkeys_identity.Accounts.Recovery.{forgot_password, reset_password}
use monkeys_identity.Accounts.Recovery.Laws.{forgot_password_uniform}
use monkeys_identity.Accounts.Recovery.Once.{reset_password_once}
use monkeys_identity.Accounts.Mfa.{setup_mfa, verify_mfa}
use monkeys_identity.Accounts.Mfa.Sound.{MfaSound}
use monkeys_identity.Accounts.Mfa.Reach.{
  at_start, after, by_setup_mfa, by_verify_mfa, Ever, MfaSound-Reachable,
}

-- Every token is signed as its id, and nothing is parsed with a secret.
abbrev sg : Signer
sg = record {
  sign = λ claims. claims.jti;
  parse = λ secret t token. none;
  parse_unverified = λ token. none;
  parse_signed = λ claims claims' secret token t signed parsed. ground arith;
}

abbrev cr : Crypto
cr = record {
  generate_from_password = λ salt password. some password;
  compare = str_eq;
  verify_totp = λ t passcode secret. str_eq passcode secret;
  compare_generate = λ salt password hash e. ground (arith, eq_iff hash password);
}

abbrev reachable : Faults
reachable = record {
  read_user = false;
  write_user = false;
  read_role = false;
  read_session = false;
  write_session = false;
  redis_get = false;
  redis_set = false;
  redis_del = false;
  redis_keys = false;
  mail = false;
}

abbrev call_at : ℕ → Call
call_at now = record {
  now = now;
  ip = "::1";
  user_agent = "curl";
  authorization = "Bearer t";
  user_id = some "u1";
  organization_id = some "acme";
  token = "m";
  access_id = "a1";
  refresh_id = "r1";
  faults = reachable;
}

abbrev ann : User
ann = record {
  id = "u1";
  username = "ann";
  email = codes "ann@a";
  display_name = "Ann";
  organization_id = "acme";
  password_hash = "pw";
  status = "active";
  email_verified = false;
  mfa_enabled = false;
  mfa_methods = [];
  totp_secret = "";
  mfa_backup_codes = [];
  last_login = none;
  deleted_at = none;
}

abbrev bob : User
bob = record ann {
  id = "u2";
  username = "bob";
  email = codes "bob@a";
  mfa_enabled = true;
  mfa_methods = "totp" ∷ [];
  totp_secret = "123456";
}

abbrev world : World table
world = record {
  users = ann ∷ bob ∷ [];
  roles = [];
  role_assignments = [];
  sessions = [];
  redis = [];
  outbox = [];
}

abbrev pair : TokenPair
pair = record { access_token = "a1"; refresh_token = "r1"; expires_in = 3600 }

abbrev typed : LoginRequest
typed = record { email = codes " Ann@A"; password = "pw" }

-- The typed address is normalized; an unverified address is no obstacle.
logs_in : login table sg cr ascii "iss" (call_at 5) (some typed) world ≡ (
  answered (logged_in pair ann (some "user")),
  with_login table sg cr ascii "iss" (call_at 5) ann pair false world,
)
unfolding login trim_space to_lower find
logs_in = refl

login_sound_example :
    LoggedIn table sg cr ascii "iss"
      (call_at 5)
      typed
      world
      (with_login table sg cr ascii "iss" (call_at 5) ann pair false world)
      pair
      ann
login_sound_example =
    login_sound table sg cr ascii "iss" (call_at 5) typed world
      (with_login table sg cr ascii "iss" (call_at 5) ann pair false world) pair ann (some "user")
      logs_in

abbrev bobs : LoginRequest
bobs = record { email = codes "bob@a"; password = "pw" }

abbrev asked : World table
asked = (login table sg cr ascii "iss" (call_at 5) (some bobs) world).1

bob_found : get_user_by_email false (normalized ascii bobs.email) "" world.users ≡ some bob
unfolding get_user_by_email trim_space to_lower find
bob_found = refl

bob_asked :
    (login table sg cr ascii "iss" (call_at 5) (some bobs) world).0 ≡ answered (mfa_required "m")
unfolding login trim_space to_lower find
bob_asked = refl

bob_by_id : get_user_by_id false "u2" "acme" asked.users ≡ some bob
unfolding get_user_by_id login trim_space to_lower find
bob_by_id = refl

bob_tokens : tokens_for table sg cr ascii "iss" (call_at 100) asked bob ≡ some pair
unfolding generate_tokens
bob_tokens = refl

login_mfa_round_trip_example :
    login_mfa_verify table sg cr ascii "iss"
      (call_at 100)
      (some (record { mfa_token = "m"; code = "123456" }))
      asked
    ≡ (
      answered (logged_in pair bob none),
      delete_token table
          (call_at 100)
          (mfa_login_key "m")
          (with_login table sg cr ascii "iss" (call_at 100) bob pair true asked),
    )
login_mfa_round_trip_example =
    login_mfa_round_trip table sg cr ascii "iss" (call_at 5) (call_at 100) bobs "123456" bob bob
      pair world asked bob_found bob_asked refl refl refl (ground arith) (ground arith) refl
      bob_by_id refl bob_tokens

abbrev verified : World table
verified =
    delete_token table (call_at 100) (mfa_login_key "m")
      (with_login table sg cr ascii "iss" (call_at 100) bob pair true asked)

bob_verified :
    login_mfa_verify table sg cr ascii "iss"
      (call_at 100)
      (some (record { mfa_token = "m"; code = "123456" }))
      asked
    ≡ (answered (logged_in pair bob none), verified)
bob_verified =
    login_mfa_round_trip table sg cr ascii "iss" (call_at 5) (call_at 100) bobs "123456" bob bob
      pair world asked bob_found bob_asked refl refl refl (ground arith) (ground arith) refl
      bob_by_id refl bob_tokens

login_mfa_verify_once_example :
    login_mfa_verify table sg cr ascii "iss"
      (call_at 101)
      (some (record { mfa_token = "m"; code = "123456" }))
      verified
    ≡ (refused 401 "Invalid or expired MFA token", verified)
login_mfa_verify_once_example =
    login_mfa_verify_once table sg cr ascii "iss" (call_at 100) (call_at 101)
      (record { mfa_token = "m"; code = "123456" }) "123456" (logged_in pair bob none) asked
      verified verified bob_verified refl refl

ann_tokens : tokens_for table sg cr ascii "iss" (call_at 5) world ann ≡ some pair
unfolding generate_tokens
ann_tokens = refl

refresh_token_unusable_example :
    (refresh_token table sg cr ascii "iss" "key" (call_at 6) (some "r1") world
      ≡ refused 401 "Invalid refresh token")
    ⊎ (refresh_token table sg cr ascii "iss" "key" (call_at 6) (some "r1") world ≡ panicked)
refresh_token_unusable_example =
    refresh_token_unusable table sg cr ascii "iss" "key" (call_at 5) (call_at 6) ann pair world
      world ann_tokens

abbrev forgotten : World table
forgotten = (forgot_password table cr ascii (call_at 5) (some (codes "ann@a")) world).1

forgot_password_uniform_example :
    ((forgot_password table cr ascii (call_at 5) (some (codes "eve@a")) world).0
      ≡ answered "If an account with that email exists, a password reset link has been sent")
    × (((forgot_password table cr ascii (call_at 5) (some (codes "eve@a")) world).1.outbox ≡ [])
        ⊎ ((name : String) × ((forgot_password table cr ascii
                (call_at 5)
                (some (codes "eve@a"))
                world).1.outbox
              ≡ record { recipient = codes "eve@a"; username = name; token = "m" } ∷ [])))
forgot_password_uniform_example =
    forgot_password_uniform table cr ascii (call_at 5) (codes "eve@a") world refl

abbrev reset_world : World table
reset_world =
    (reset_password table cr ascii 1 (call_at 100)
      (some (record { token = "m"; new_password = "new" })) forgotten).1

resets :
    reset_password table cr ascii 1
      (call_at 100)
      (some (record { token = "m"; new_password = "new" }))
      forgotten
    ≡ (answered "Password updated successfully", reset_world)
unfolding reset_password forgot_password find read
resets = refl

reset_password_once_example :
    reset_password table cr ascii 2
      (call_at 101)
      (some (record { token = "m"; new_password = "other" }))
      reset_world
    ≡ (refused 400 "Invalid or expired reset token", reset_world)
reset_password_once_example =
    reset_password_once table cr ascii 1 2 (call_at 100) (call_at 101)
      (record { token = "m"; new_password = "new" }) "other" "Password updated successfully"
      forgotten reset_world reset_world resets refl refl

-- Before the start a secret "123456" was confirmed.
abbrev Before : String → String → Type 0
Before id secret = secret ≡ "123456"

start_sound : All (MfaSound Before) world.users
start_sound = (
  record { shown = λ e. ground arith; none_kept = λ e. refl },
  (record { shown = λ e. refl; none_kept = λ e. ground arith }, tt),
)

abbrev set_up : World table
set_up = (setup_mfa table cr (some "s") (call_at 5) world).1

abbrev enabled : World table
enabled = (verify_mfa table cr ("c" ∷ []) (call_at 9) (some "s") set_up).1

MfaSound-Reachable_example :
    All (MfaSound (Ever table sg cr ascii "iss" Before world enabled)) enabled.users
MfaSound-Reachable_example =
    MfaSound-Reachable table sg cr ascii "iss" Before world enabled start_sound (
      after set_up enabled (after world set_up at_start (by_setup_mfa (some "s") (call_at 5)))
        (by_verify_mfa ("c" ∷ []) (call_at 9) (some "s")))
