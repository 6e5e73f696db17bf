-- ===== src/Accounts/Admin.antt =====
-- `CreateAdminUser` of internal/handlers/auth.go, and the transaction of internal/queries/auth.go
-- that it runs: either every statement succeeds, or the tables stay as they are.
pub mod Laws
mod Tests
use Prim.Native.String
use monkeys_identity.Base.{
  ℕ, Bool, true, false, not, ◌&&◌, ◌||◌, String, Text, List, [], ◌∷◌, Option, none, some, str_eq,
  any, find, update_where, if◌then◌else◌,
}
use monkeys_identity.Platform.{Unicode}
use monkeys_identity.Accounts.{User, Role, Assignment, Crypto, Reply, refused, answered}
use monkeys_identity.Accounts.Users.{
  is_live, get_user_by_email, create_user, Inserted, inserted, conflict, failed,
}
use monkeys_identity.Accounts.Roles.{check_admin_exists}
use monkeys_identity.Accounts.Login.{normalized}
use monkeys_identity.Accounts.Recovery.{RegisterRequest, new_user}

pub record Organization : Type 0 where
  pub id : String
  pub slug : String
  pub deleted_at : Option ℕ

pub record AdminPolicy : Type 0 where
  pub id : String
  pub name : String
  pub organization_id : String
  pub document : String
  pub status : String
  pub deleted_at : Option ℕ

pub record RolePolicy : Type 0 where
  pub role_id : String
  pub policy_id : String

pub record Tables : Type 0 where
  pub organizations : List Organization
  pub users : List User
  pub roles : List Role
  pub role_assignments : List Assignment
  pub policies : List AdminPolicy
  pub role_policies : List RolePolicy

-- The time and the identifiers that are drawn, and which calls fail.
pub record Bootstrap : Type 0 where
  pub now : ℕ
  pub user_id : String
  pub organization_id : String
  pub role_id : String
  pub policy_id : String
  pub read : Bool
  pub transaction : Bool

abbrev pub same_organization : Organization → Organization → Bool
same_organization o p = str_eq p.id o.id || str_eq p.slug o.slug

-- INSERT INTO organizations, with the key and the unique slug; `none` is an error.
abbrev pub insert_organization : Organization → Tables → Option Tables
insert_organization o t =
    if any (same_organization o) t.organizations
    then none
    else some (record t { organizations = o ∷ t.organizations })

abbrev pub organization_exists : String → Tables → Bool
organization_exists id t = any (λ o. str_eq o.id id && is_live o.deleted_at) t.organizations

-- Without an organization a new one; an organization that is not there is created too.
unfoldable pub ensure_organization : Bootstrap → (org_id : String) → Tables → Option Tables
ensure_organization b org_id t =
    if str_eq org_id ""
    then insert_organization
        (record {
          id = b.organization_id;
          slug = String.◌++◌ "admin-org-" (String.slice b.organization_id 0 8);
          deleted_at = none;
        })
        t
    else if organization_exists org_id t
    then some t
    else insert_organization
        (record { id = org_id; slug = String.◌++◌ "org-" org_id; deleted_at = none }) t

abbrev pub chosen : Bootstrap → String → String
chosen b org_id = if str_eq org_id "" then b.organization_id else org_id

abbrev pub admin_of : String → Role → Bool
admin_of org_id r = str_eq r.name "admin" && str_eq r.organization_id org_id

abbrev pub restored : Role → Role
restored r = record r { status = "active"; deleted_at = none; is_system_role = true }

-- INSERT INTO roles … ON CONFLICT (name, organization_id) DO UPDATE
unfoldable pub ensure_admin_role : Bootstrap → (org_id : String) → List Role → List Role
ensure_admin_role b org_id roles =
    if any (admin_of org_id) roles
    then update_where (admin_of org_id) restored roles
    else record {
      id = b.role_id;
      name = "admin";
      organization_id = org_id;
      is_system_role = true;
      status = "active";
      created_at = b.now;
      deleted_at = none;
    }
      ∷ roles

abbrev pub full_access : String
full_access =
    "{\"Version\":\"2024-01-01\",\"Statement\":[{\"Effect\":\"Allow\",\"Action\":[\"*\"],\"Resource\":[\"*\"]}]}"

-- The row that the unique organization and name of a policy conflict with. That constraint is not
-- partial, so that ON CONFLICT … WHERE … picks it, and it holds the deleted rows too.
abbrev pub full_access_of : String → AdminPolicy → Bool
full_access_of org_id p = str_eq p.organization_id org_id && str_eq p.name "FullAccess"

-- The policies, and the id of the one that was written. A deleted policy stays deleted.
unfoldable pub ensure_admin_policy :
    Bootstrap → (org_id : String) → List AdminPolicy → List AdminPolicy × String
ensure_admin_policy b org_id policies = elim (find (full_access_of org_id) policies) [
  | none ↦ (
    record {
      id = b.policy_id;
      name = "FullAccess";
      organization_id = org_id;
      document = full_access;
      status = "active";
      deleted_at = none;
    }
        ∷ policies,
    b.policy_id,
  )
  | some p ↦ (
    update_where (full_access_of org_id) (λ q. record q { document = full_access }) policies,
    p.id,
  )
]

-- ON CONFLICT DO NOTHING
unfoldable pub ensure_role_has_policy :
    (role_id policy_id : String) → List RolePolicy → List RolePolicy
ensure_role_has_policy role_id policy_id rows =
    if any (λ r. str_eq r.role_id role_id && str_eq r.policy_id policy_id) rows
    then rows
    else record { role_id = role_id; policy_id = policy_id } ∷ rows

abbrev pub assignment : (role_id user_id : String) → Assignment
assignment role_id user_id = record {
  role_id = role_id;
  principal_id = user_id;
  principal_type = "user";
  expires_at = none;
}

abbrev pub same_assignment : Assignment → Assignment → Bool
same_assignment a c =
    str_eq c.role_id a.role_id
    && str_eq c.principal_id a.principal_id
    && str_eq c.principal_type a.principal_type

-- with the role, its policy and the assignment
abbrev pub assign_admin : Bootstrap → User → Tables → Option Role → Option Tables
assign_admin b user t none = none
assign_admin b user t (some r) =
    let (policies', policy_id) = ensure_admin_policy b user.organization_id t.policies in
    if any (same_assignment (assignment r.id user.id)) t.role_assignments
    then none
    else some (record t {
      policies = policies';
      role_policies = ensure_role_has_policy r.id policy_id t.role_policies;
      role_assignments = assignment r.id user.id ∷ t.role_assignments;
    })

abbrev pub with_roles : Bootstrap → User → Tables → Inserted (List User) → Option Tables
with_roles b user t conflict = none
with_roles b user t failed = none
with_roles b user t (inserted users') =
    let roles' = ensure_admin_role b user.organization_id t.roles in
    assign_admin b user (record t { users = users'; roles = roles' })
      (find (admin_of user.organization_id) roles')

abbrev pub with_organization : Bootstrap → User → Option Tables → Option Tables
with_organization b user none = none
with_organization b user (some t) = with_roles b user t (create_user false user t.users)

-- The transaction; `none` rolls it back.
unfoldable pub create_admin_user : Bootstrap → User → Tables → Option Tables
unfolding ensure_organization create_user ensure_admin_role ensure_admin_policy
    ensure_role_has_policy
create_admin_user b user t =
    if b.transaction
    then none
    else with_organization b (record user { organization_id = chosen b user.organization_id })
        (ensure_organization b user.organization_id t)

module _ (cr : Crypto) (u : Unicode) where
  abbrev pub admin_written : User → Tables → Option Tables → Reply String × Tables
  admin_written user t none = (refused 500 "Failed to create admin user", t)
  admin_written user t (some t') = (answered user.id, t')

  abbrev pub admin_hashed :
      Bootstrap → RegisterRequest → Tables → Option String → Reply String × Tables
  admin_hashed b req t none = (refused 500 "Failed to process password", t)
  admin_hashed b req t (some hash) =
      let user = record (new_user u b.user_id hash req) { email_verified = true } in
      admin_written user t (create_admin_user b user t)

  abbrev pub admin_new :
      (salt : ℕ) → Bootstrap → RegisterRequest → Tables → Option User → Reply String × Tables
  admin_new salt b req t (some existing) = (refused 409 "User with this email already exists", t)
  admin_new salt b req t none = admin_hashed b req t (cr.generate_from_password salt req.password)

  abbrev pub admin_checked :
      (salt : ℕ) → Bootstrap → RegisterRequest → Tables → Option Bool → Reply String × Tables
  admin_checked salt b req t none = (refused 500 "Failed to verify system state", t)
  admin_checked salt b req t (some true) =
      (refused 409 "Admin user already exists in the system", t)
  admin_checked salt b req t (some false) =
      admin_new salt b req t
        (get_user_by_email b.read (normalized u req.email) req.organization_id t.users)

  -- The answer is the id of the new user.
  unfoldable pub create_admin :
      (salt : ℕ) → Bootstrap → Option RegisterRequest → Tables → Reply String × Tables
  unfolding check_admin_exists get_user_by_email create_admin_user
  create_admin salt b none t = (refused 400 "Invalid request format", t)
  create_admin salt b (some req) t =
      admin_checked salt b req t (check_admin_exists b.read t.roles t.role_assignments)
