-- ===== src/Accounts.antt =====
-- The accounts: internal/queries/auth.go and internal/handlers/auth.go. The tables are lists of rows,
-- Redis is an interface, times are seconds, and `Faults` says which calls fail. What is written to
-- the audit trail and to the cookie is left out.
pub mod Users
pub mod Keys
pub mod Roles
pub mod Tokens
pub mod Login
pub mod Logout
pub mod Recovery
pub mod Mfa
pub mod Admin
mod Tests
use monkeys_identity.Base.{ℕ, Bool, true, String, List, Option, none, some, Text, ◌≡◌}
use monkeys_identity.Redis.{Redis}
use monkeys_identity.Sessions.{Session}

-- The columns of `users` that these queries read or write; a NULL text is "".
pub record User : Type 0 where
  pub id : String
  pub username : String
  pub email : Text
  pub display_name : String
  pub organization_id : String
  pub password_hash : String
  pub status : String
  pub email_verified : Bool
  pub mfa_enabled : Bool
  pub mfa_methods : List String
  pub totp_secret : String
  pub mfa_backup_codes : List String
  pub last_login : Option ℕ
  pub deleted_at : Option ℕ

-- The columns of `roles` and `role_assignments`.
pub record Role : Type 0 where
  pub id : String
  pub name : String
  pub organization_id : String
  pub is_system_role : Bool
  pub status : String
  pub created_at : ℕ
  pub deleted_at : Option ℕ

pub record Assignment : Type 0 where
  pub role_id : String
  pub principal_id : String
  pub principal_type : String
  pub expires_at : Option ℕ

-- A mail that was sent: to whom, and the token in its link.
pub record Mail : Type 0 where
  pub recipient : Text
  pub username : String
  pub token : String

module _ (rd : Redis) where
  pub record World : Type 0 where
    pub users : List User
    pub roles : List Role
    pub role_assignments : List Assignment
    pub sessions : List Session
    pub redis : rd.Store
    pub outbox : List Mail

-- Which calls fail.
pub record Faults : Type 0 where
  pub read_user : Bool
  pub write_user : Bool
  pub read_role : Bool
  pub read_session : Bool
  pub write_session : Bool
  pub redis_get : Bool
  pub redis_set : Bool
  pub redis_del : Bool
  pub redis_keys : Bool
  pub mail : Bool

-- What a call reads besides its body: the time, the request, the locals that the middleware set,
-- and the identifiers that uuid.New returns in it.
pub record Call : Type 0 where
  pub now : ℕ
  pub ip : String
  pub user_agent : String
  pub authorization : String
  pub user_id : Option String
  pub organization_id : Option String
  pub token : String
  pub access_id : String
  pub refresh_id : String
  pub faults : Faults

-- bcrypt with its random salt, and the check of a one-time code at a time. A password that is too
-- long has no hash.
pub record Crypto : Type 0 where
  pub generate_from_password : ℕ → String → Option String
  pub compare : (hash password : String) → Bool
  pub verify_totp : ℕ → (code secret : String) → Bool
  pub compare_generate :
      (salt : ℕ) (password hash : String)
      → generate_from_password salt password ≡ some hash
      → compare hash password ≡ true

-- What a handler answers: a status with an error, a value, or a panic.
pub data Reply (A : Type 0) : Type 0 where
  refused : ℕ → String → Reply A
  answered : A → Reply A
  panicked : Reply A

-- the rows after a statement whose failure is dropped
abbrev pub kept {ℓ} : {A : Type ℓ} → A → Option A → A
kept rows none = rows
kept rows (some rows') = rows'
