-- ===== src/Directory/RoleHandlers.antt =====
-- The handlers of roles of internal/handlers/handlers.go, but for the list. An answer is what the
-- success carries.
use monkeys_identity.Base.{
  ℕ, Bool, true, false, not, ◌||◌, String, List, Option, none, some, str_eq, if◌then◌else◌, Result,
  ok, err,
}
use monkeys_identity.Accounts.{Reply, refused, answered}
use monkeys_identity.Directory.{Role, RoleAssignment, PolicyRow, Tables, Call, local, parsed, named}
use monkeys_identity.Directory.Roles.{
  RoleError, role_not_found, not_found_or_deleted, already_attached, not_attached,
  role_or_policy_not_found, role_or_principal_not_found, assignment_not_found, Ended, create_role,
  get_role, update_role, delete_role, attach_policy_to_role, detach_policy_from_role, assign_role,
  unassign_role, get_role_policies, get_role_assignments,
}

abbrev pub or_default : String → String → String
or_default given default = if str_eq given "" then default else given

abbrev pub or_some : Option String → String → Option String
or_some none default = some default
or_some (some given) default = some given

abbrev pub path_or_root : Option String → Option String
path_or_root none = some "/"
path_or_root (some path) = some (or_default path "/")

-- with the defaults of a creation, and its id
abbrev pub new_role : (id : String) → Role → Role
new_role id r = record r {
  id = id;
  role_type = or_default r.role_type "custom";
  max_session_duration = or_some r.max_session_duration "12 hours";
  trust_policy = or_default r.trust_policy "{}";
  assume_role_policy = or_default r.assume_role_policy "{}";
  tags = or_default r.tags "{}";
  path = path_or_root r.path;
  status = or_default r.status "active";
}

abbrev pub created : Role → Ended → Reply Role × Tables
created r (none, t) = (answered r, t)
created r (some error, t) = (refused 500 "Failed to create role", t)

-- The organization is the body's; the text "role already exists" is no error of the query.
unfoldable pub create : (id : String) → Call → Option Role → Tables → Reply Role × Tables
unfolding create_role
create id call body t = parsed t body (λ r.
    if str_eq r.name ""
    then (refused 400 "Role name is required", t)
    else if str_eq r.organization_id ""
    then (refused 400 "Organization ID is required", t)
    else created (new_role id r) (create_role call (new_role id r) t))

abbrev pub is_missing : RoleError → Bool
is_missing role_not_found = true
is_missing not_found_or_deleted = true
is_missing _ = false

-- after GetRole
abbrev pub fetched :
    {A : Type 0}
    → (missing failure : String) → Tables
    → Result RoleError Role
    → (Role → Reply A × Tables)
    → Reply A × Tables
fetched missing failure t (err error) later =
    if is_missing error then (refused 404 missing, t) else (refused 500 failure, t)
fetched missing failure t (ok r) later = later r

-- after UpdateRole or DeleteRole
abbrev pub changed : {A : Type 0} → (failure : String) → A → Ended → Reply A × Tables
changed failure value (none, t) = (answered value, t)
changed failure value (some error, t) =
    if is_missing error
    then (refused 404 "Role not found or already deleted", t)
    else (refused 500 failure, t)

abbrev pub no_role_id : String
no_role_id = "Role ID is required"

unfoldable pub show : (id : String) → Call → Tables → Reply Role × Tables
unfolding get_role
show id call t = named t id no_role_id (
    local t call.organization_id (λ org_id.
      fetched "Role not found" "Failed to retrieve role" t (get_role call id org_id t)
        (λ r. (answered r, t))))

abbrev pub described : Role → Option String → Role
described r none = r
described r (some description) = record r { description = some description }

-- The name is always the body's, and the answer is the body.
abbrev pub merged : Role → Role → Role
merged updates existing = described (record existing { name = updates.name }) updates.description

unfoldable pub update : (id : String) → Call → Option Role → Tables → Reply Role × Tables
unfolding get_role update_role
update id call body t = named t id no_role_id (
    parsed t body (λ updates. local t call.organization_id (λ org_id.
      fetched "Role not found or already deleted" "Failed to update role" t
        (get_role call id org_id t)
        (λ existing.
          changed "Failed to update role" (record updates { id = id })
            (update_role call (merged updates existing) org_id t)))))

abbrev pub deleting :
    (id : String) → Call → (org_id : String) → Tables → Role → Reply String × Tables
deleting id call org_id t r =
    if str_eq r.name "admin"
    then (refused 403 "The admin role cannot be deleted", t)
    else changed "Failed to delete role" id (delete_role call id org_id t)

unfoldable pub delete : (id : String) → Call → Tables → Reply String × Tables
unfolding get_role delete_role
delete id call t = named t id no_role_id (
    local t call.organization_id (λ org_id.
      fetched "Role not found or already deleted" "Failed to delete role" t
        (get_role call id org_id t) (deleting id call org_id t)))

abbrev pub listed : {A : Type 0} → String → Tables → Result RoleError A → Reply A × Tables
listed failure t (err error) = (refused 500 failure, t)
listed failure t (ok rows) = (answered rows, t)

unfoldable pub show_policies : (id : String) → Call → Tables → Reply (List PolicyRow) × Tables
unfolding get_role get_role_policies
show_policies id call t = named t id no_role_id (
    local t call.organization_id (λ org_id.
      fetched "Role not found" "Failed to retrieve role policies" t (get_role call id org_id t)
        (λ r. listed "Failed to retrieve role policies" t (get_role_policies call id org_id t))))

unfoldable pub show_assignments :
    (id : String) → Call → Tables → Reply (List RoleAssignment) × Tables
unfolding get_role get_role_assignments
show_assignments id call t = named t id no_role_id (
    local t call.organization_id (λ org_id.
      fetched "Role not found" "Failed to retrieve role assignments" t (get_role call id org_id t)
        (λ r.
          listed "Failed to retrieve role assignments" t (get_role_assignments call id org_id t))))

pub record AttachRequest : Type 0 where
  pub policy_id : String
  pub attached_by : String

abbrev pub or_user : String → Option String → String
or_user given none = given
or_user given (some user_id) = or_default given user_id

-- whether it was attached
abbrev pub attached : Ended → Reply Bool × Tables
attached (none, t) = (answered true, t)
attached (some already_attached, t) = (answered false, t)
attached (some role_or_policy_not_found, t) = (refused 404 "Role or policy not found", t)
attached (some _, t) = (refused 500 "Failed to attach policy to role", t)

unfoldable pub attach : (id : String) → Call → Option AttachRequest → Tables → Reply Bool × Tables
unfolding attach_policy_to_role
attach id call body t = named t id no_role_id (
    parsed t body (λ req.
      if str_eq req.policy_id ""
      then (refused 400 "policy_id is required", t)
      else local t call.organization_id (λ org_id. attached (
          attach_policy_to_role call id req.policy_id org_id (or_user req.attached_by call.user_id)
            t))))

abbrev pub detached : Ended → Reply Bool × Tables
detached (none, t) = (answered true, t)
detached (some not_attached, t) = (refused 404 "Policy not attached to role", t)
detached (some _, t) = (refused 500 "Failed to detach policy from role", t)

unfoldable pub detach : (id policy_id : String) → Call → Tables → Reply Bool × Tables
unfolding detach_policy_from_role
detach id policy_id call t =
    if str_eq id "" || str_eq policy_id ""
    then (refused 400 "Role ID and policy ID are required", t)
    else local t call.organization_id
        (λ org_id. detached (detach_policy_from_role call id policy_id org_id t))

pub record AssignRequest : Type 0 where
  pub principal_id : String
  pub principal_type : String
  pub expires_at : String
  pub conditions : String

abbrev pub allowed_principal_type : String → Bool
allowed_principal_type type = str_eq type "user" || str_eq type "service_account"

abbrev pub text_of : Option String → String
text_of none = ""
text_of (some text) = text

abbrev pub assignment_made : RoleAssignment → Ended → Reply RoleAssignment × Tables
assignment_made a (none, t) = (answered a, t)
assignment_made a (some role_or_principal_not_found, t) =
    (refused 404 "Role or principal not found", t)
assignment_made a (some _, t) = (refused 500 "Failed to assign role", t)

abbrev pub new_assignment : (id : String) → Call → AssignRequest → Option ℕ → RoleAssignment
new_assignment id call req expires_at = record {
  role_id = id;
  principal_id = req.principal_id;
  principal_type = req.principal_type;
  assigned_by = text_of call.user_id;
  expires_at = expires_at;
  conditions = or_default req.conditions "{}";
}

abbrev pub assign_until :
    (id : String) → Call → AssignRequest → Tables → Option ℕ → Reply RoleAssignment × Tables
assign_until id call req t expires_at = local t call.organization_id (λ org_id.
    let a = new_assignment id call req expires_at in
    assignment_made a (assign_role call a org_id t))

-- time.Parse with RFC 3339
module _ (parse_time : String → Option ℕ) where
  abbrev pub assign_parsed :
      (id : String) → Call → AssignRequest → Tables → Option ℕ → Reply RoleAssignment × Tables
  assign_parsed id call req t none = (refused 400 "expires_at must be RFC3339 format", t)
  assign_parsed id call req t (some time) = assign_until id call req t (some time)

  unfoldable pub assign :
      (id : String) → Call → Option AssignRequest → Tables → Reply RoleAssignment × Tables
  unfolding assign_role
  assign id call body t = named t id no_role_id (
      parsed t body (λ req.
        if str_eq req.principal_id "" || str_eq req.principal_type ""
        then (refused 400 "principal_id and principal_type are required", t)
        else if not (allowed_principal_type req.principal_type)
        then (refused 400 "principal_type must be 'user' or 'service_account'", t)
        else if str_eq req.expires_at ""
        then assign_until id call req t none
        else assign_parsed id call req t (parse_time req.expires_at)))

abbrev pub unassigned : Ended → Reply Bool × Tables
unassigned (none, t) = (answered true, t)
unassigned (some assignment_not_found, t) = (refused 404 "Role assignment not found", t)
unassigned (some _, t) = (refused 500 "Failed to unassign role", t)

unfoldable pub unassign : (id principal_id : String) → Call → Tables → Reply Bool × Tables
unfolding unassign_role
unassign id principal_id call t =
    if str_eq id "" || str_eq principal_id ""
    then (refused 400 "Role ID and principal ID are required", t)
    else local t call.organization_id
        (λ org_id. unassigned (unassign_role call id principal_id org_id t))
