-- ===== src/Accounts/Roles.antt =====
-- `GetPrimaryRoleForUser` and `CheckAdminExists`: joins of the assignments with the roles.
pub mod Laws
use monkeys_identity.Base.{
  ℕ, Bool, true, false, not, ◌&&◌, ◌||◌, String, List, [], ◌∷◌, ◌++◌, Option, none, some, str_eq,
  leb, any, filter, find, if◌then◌else◌,
}
use monkeys_identity.Accounts.{Role, Assignment}
use monkeys_identity.Accounts.Users.{is_live}

-- ra.principal_id = $1 AND ra.principal_type = 'user'; the expiry is not looked at.
abbrev pub assigned_to : String → Assignment → Bool
assigned_to user_id a = str_eq a.principal_id user_id && str_eq a.principal_type "user"

-- ra.role_id = r.id AND r.organization_id = $2; neither are the status and the deletion.
abbrev pub joins : String → Assignment → Role → Bool
joins org_id a r = str_eq a.role_id r.id && str_eq r.organization_id org_id

unfoldable pub roles_of : String → String → List Role → List Assignment → List Role
unfolding filter
roles_of user_id org_id roles [] = []
roles_of user_id org_id roles (a ∷ rows) =
    let rest = roles_of user_id org_id roles rows in
    if assigned_to user_id a then filter (joins org_id a) roles ++ rest else rest

abbrev pub earlier : Role → Option Role → Role
earlier r none = r
earlier r (some q) = if leb r.created_at q.created_at then r else q

-- ORDER BY r.created_at ASC LIMIT 1
unfoldable pub oldest : List Role → Option Role
oldest [] = none
oldest (r ∷ rs) = some (earlier r (oldest rs))

abbrev name_of : Option Role → String
name_of none = ""
name_of (some r) = r.name

-- "" where there is no role; `none` is a failure.
unfoldable pub get_primary_role_for_user :
    Bool → (user_id org_id : String) → List Role → List Assignment → Option String
unfolding roles_of oldest
get_primary_role_for_user down user_id org_id roles rows =
    if down then none else some (name_of (oldest (roles_of user_id org_id roles rows)))

abbrev pub is_admin_role : Assignment → Role → Bool
is_admin_role a r = str_eq a.role_id r.id && str_eq r.name "admin" && is_live r.deleted_at

unfoldable pub check_admin_exists : Bool → List Role → List Assignment → Option Bool
check_admin_exists down roles rows =
    if down
    then none
    else some (any (λ a. str_eq a.principal_type "user" && any (is_admin_role a) roles) rows)
