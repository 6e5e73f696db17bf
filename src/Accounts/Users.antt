-- ===== src/Accounts/Users.antt =====
-- The statements of internal/queries/auth.go on the table of users.
use monkeys_identity.Base.{
  ℕ, Bool, true, false, not, ◌&&◌, ◌||◌, String, Text, text_eq, List, [], ◌∷◌, Option, none, some,
  str_eq, any, find, update_where, if◌then◌else◌,
}
use monkeys_identity.Accounts.{User}

abbrev pub is_live : Option ℕ → Bool
is_live none = true
is_live (some _) = false

-- " AND organization_id = $2", where an organization is given
abbrev pub in_org : String → User → Bool
in_org org_id user = str_eq org_id "" || str_eq user.organization_id org_id

abbrev pub with_email : Text → String → User → Bool
with_email email org_id user =
    text_eq user.email email && is_live user.deleted_at && in_org org_id user

abbrev pub with_id : String → String → User → Bool
with_id id org_id user = str_eq user.id id && is_live user.deleted_at && in_org org_id user

-- The lookups, which take the first row that fits; SQL leaves their order open. A missing row and a failure of the database are the same to the handlers.
unfoldable pub get_user_by_email : Bool → Text → String → List User → Option User
get_user_by_email down email org_id users =
    if down then none else find (with_email email org_id) users

unfoldable pub get_user_by_id : Bool → String → String → List User → Option User
get_user_by_id down id org_id users = if down then none else find (with_id id org_id) users

-- A row that the partial indexes hold: WHERE status != 'deleted'
abbrev pub indexed : User → Bool
indexed user = not (str_eq user.status "deleted")

-- The constraints of the table: the key, and, among the rows that are not deleted, the unique name
-- and address within an organization.
abbrev pub conflicts : User → User → Bool
conflicts user row =
    str_eq row.id user.id
    || (indexed user
        && indexed row
        && str_eq row.organization_id user.organization_id
        && (str_eq row.username user.username || text_eq row.email user.email))

-- What an INSERT ends in.
pub data Inserted (A : Type 0) : Type 0 where
  inserted : A → Inserted A
  conflict : Inserted A
  failed : Inserted A

unfoldable pub create_user : Bool → User → List User → Inserted (List User)
create_user down user users =
    if down
    then failed
    else if any (conflicts user) users
    then conflict
    else inserted (user ∷ users)

-- Statements of the form UPDATE users SET … WHERE …; `none` is a failure.
abbrev pub update_users : Bool → (User → Bool) → (User → User) → List User → Option (List User)
update_users down p g users = if down then none else some (update_where p g users)

-- WHERE id = $2 AND organization_id = $3
abbrev pub user_of : String → String → User → Bool
user_of id org_id user = str_eq user.id id && str_eq user.organization_id org_id

-- WHERE id = $4, with " AND organization_id = $5" where an organization is given
abbrev pub user_in : String → String → User → Bool
user_in id org_id user = str_eq user.id id && in_org org_id user

unfoldable pub update_last_login : Bool → ℕ → String → String → List User → Option (List User)
update_last_login down now id org_id =
    update_users down (user_of id org_id) (λ user. record user { last_login = some now })

unfoldable pub update_password : Bool → (id hash org_id : String) → List User → Option (List User)
update_password down id hash org_id =
    update_users down (user_in id org_id) (λ user. record user { password_hash = hash })

unfoldable pub update_email_verification :
    Bool → String → Bool → String → List User → Option (List User)
update_email_verification down id verified org_id =
    update_users down (user_in id org_id) (λ user. record user { email_verified = verified })

unfoldable pub enable_mfa :
    Bool → (id org_id secret : String) → List String → List User → Option (List User)
enable_mfa down id org_id secret codes = update_users down (user_of id org_id) (λ user.
    record user {
      mfa_enabled = true;
      mfa_methods = "totp" ∷ [];
      totp_secret = secret;
      mfa_backup_codes = codes;
    })

unfoldable pub disable_mfa : Bool → (id org_id : String) → List User → Option (List User)
disable_mfa down id org_id = update_users down (user_of id org_id) (λ user. record user {
  mfa_enabled = false;
  mfa_methods = [];
  totp_secret = "";
  mfa_backup_codes = [];
})

unfoldable pub update_backup_codes :
    Bool → (id org_id : String) → List String → List User → Option (List User)
update_backup_codes down id org_id codes =
    update_users down (user_of id org_id) (λ user. record user { mfa_backup_codes = codes })
