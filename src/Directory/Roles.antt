-- ===== src/Directory/Roles.antt =====
-- The statements of internal/queries/role.go.
use monkeys_identity.Base.{
  ℕ, Bool, false, not, ◌&&◌, ◌||◌, String, Text, List, ◌∷◌, Option, none, some, str_eq, codes, any,
  find, filter, update_where, if◌then◌else◌, Result, ok, err,
}
use monkeys_identity.Platform.{contains}
use monkeys_identity.Directory.{Role, RolePolicy, RoleAssignment, PolicyRow, Tables, Call}

-- `failed` is any other text.
pub data RoleError : Type 0 where
  role_not_found not_found_or_deleted already_attached not_attached : RoleError
  role_or_policy_not_found role_or_principal_not_found assignment_not_found failed : RoleError

-- What a statement answers, `none` being no error, and what it leaves.
abbrev pub Ended : Type 0
Ended = Option RoleError × Tables

abbrev pub system_org : String
system_org = "00000000-0000-0000-0000-000000000000"

-- id = $1 AND organization_id = $2
abbrev pub role_in : (id organization_id : String) → Role → Bool
role_in id organization_id r = str_eq r.id id && str_eq r.organization_id organization_id

abbrev pub live_role_in : (id organization_id : String) → Role → Bool
live_role_in id organization_id r = role_in id organization_id r && not (str_eq r.status "deleted")

abbrev pub has_role : (id organization_id : String) → Tables → Bool
has_role id organization_id t = any (role_in id organization_id) t.roles

-- the key, and UNIQUE (organization_id, name)
abbrev pub same_name : Role → Role → Bool
same_name r q =
    str_eq q.id r.id || (str_eq q.organization_id r.organization_id && str_eq q.name r.name)

abbrev pub inserted_role : Role → Tables → Option Text → Ended
inserted_role r t (some failure) = (some failed, t)
inserted_role r t none =
    if any (same_name r) t.roles then (some failed, t) else (none, record t { roles = r ∷ t.roles })

unfoldable pub create_role : Call → Role → Tables → Ended
create_role call r t = inserted_role r t call.write_fails

-- a role of the organization, or of the system
abbrev pub visible_role : (id organization_id : String) → Role → Bool
visible_role id organization_id r =
    str_eq r.id id
    && (str_eq r.organization_id organization_id || str_eq r.organization_id system_org)
    && not (str_eq r.status "deleted")

abbrev pub found_role : Option Role → Result RoleError Role
found_role none = err role_not_found
found_role (some r) = ok r

unfoldable pub get_role : Call → (id organization_id : String) → Tables → Result RoleError Role
get_role call id organization_id t =
    if call.read_fails
    then err failed
    else found_role (find (visible_role id organization_id) t.roles)

-- another role of the organization with the name
abbrev pub name_taken : Role → (organization_id : String) → Role → Bool
name_taken r organization_id q =
    not (str_eq q.id r.id) && str_eq q.organization_id organization_id && str_eq q.name r.name

abbrev pub rewritten : Role → Role → Role
rewritten r row = record row {
  name = r.name;
  description = r.description;
  role_type = r.role_type;
  max_session_duration = r.max_session_duration;
  trust_policy = r.trust_policy;
  assume_role_policy = r.assume_role_policy;
  tags = r.tags;
  path = r.path;
  permissions_boundary = r.permissions_boundary;
  status = r.status;
}

-- An UPDATE of the roles, where a row is written.
abbrev pub write_roles :
    (id organization_id : String) → (conflict : Bool) → (Role → Role) → Tables → Option Text → Ended
write_roles id organization_id conflict g t (some failure) = (some failed, t)
write_roles id organization_id conflict g t none =
    if any (live_role_in id organization_id) t.roles
    then if conflict
      then (some failed, t)
      else (none, record t { roles = update_where (live_role_in id organization_id) g t.roles })
    else (some not_found_or_deleted, t)

unfoldable pub update_role : Call → Role → (organization_id : String) → Tables → Ended
update_role call r organization_id t =
    write_roles r.id organization_id (any (name_taken r organization_id) t.roles) (rewritten r) t
      call.write_fails

abbrev pub deleted : ℕ → Role → Role
deleted now r = record r { status = "deleted"; deleted_at = some now }

unfoldable pub delete_role : Call → (id organization_id : String) → Tables → Ended
delete_role call id organization_id t =
    write_roles id organization_id false (deleted call.now) t call.write_fails

-- the rows of role_policies with this role, or with this policy too
abbrev pub attached_to : (role_id policy_id : String) → RolePolicy → Bool
attached_to role_id policy_id rp = str_eq rp.role_id role_id && str_eq rp.policy_id policy_id

abbrev pub policy_in : (id organization_id : String) → PolicyRow → Bool
policy_in id organization_id p = str_eq p.id id && str_eq p.organization_id organization_id

-- "failed to …" around an error that does not speak of a foreign key
abbrev pub foreign_key : RoleError → Text → RoleError
foreign_key missing failure = if contains failure (codes "foreign key") then missing else failed

-- INSERT … SELECT … ON CONFLICT DO NOTHING: no row is written either if the role or the policy is
-- missing in the organization.
abbrev pub attaching :
    (role_id policy_id organization_id attached_by : String) → Tables → Option Text → Ended
attaching role_id policy_id organization_id attached_by t (some failure) =
    (some (foreign_key role_or_policy_not_found failure), t)
attaching role_id policy_id organization_id attached_by t none =
    if has_role role_id organization_id t
      && any (policy_in policy_id organization_id) t.policies
      && not (any (attached_to role_id policy_id) t.role_policies)
    then (
      none,
      record t {
        role_policies =
            record { role_id = role_id; policy_id = policy_id; attached_by = attached_by }
            ∷ t.role_policies;
      },
    )
    else (some already_attached, t)

unfoldable pub attach_policy_to_role :
    Call → (role_id policy_id organization_id attached_by : String) → Tables → Ended
unfolding contains
attach_policy_to_role call role_id policy_id organization_id attached_by t =
    attaching role_id policy_id organization_id attached_by t call.write_fails

abbrev pub detaching : (role_id policy_id organization_id : String) → Tables → Option Text → Ended
detaching role_id policy_id organization_id t (some failure) = (some failed, t)
detaching role_id policy_id organization_id t none =
    if has_role role_id organization_id t && any (attached_to role_id policy_id) t.role_policies
    then (
      none,
      record t {
        role_policies = filter (λ rp. not (attached_to role_id policy_id rp)) t.role_policies;
      },
    )
    else (some not_attached, t)

unfoldable pub detach_policy_from_role :
    Call → (role_id policy_id organization_id : String) → Tables → Ended
detach_policy_from_role call role_id policy_id organization_id t =
    detaching role_id policy_id organization_id t call.write_fails

-- The key of an assignment.
abbrev pub assignment_of : (role_id principal_id principal_type : String) → RoleAssignment → Bool
assignment_of role_id principal_id principal_type a =
    str_eq a.role_id role_id
    && str_eq a.principal_id principal_id
    && str_eq a.principal_type principal_type

abbrev pub reassigned : RoleAssignment → RoleAssignment → RoleAssignment
reassigned a row = record row {
  assigned_by = a.assigned_by;
  expires_at = a.expires_at;
  conditions = a.conditions;
}

-- INSERT … SELECT … ON CONFLICT DO UPDATE; without a row, RETURNING fails.
abbrev pub assigning : RoleAssignment → (organization_id : String) → Tables → Option Text → Ended
assigning a organization_id t (some failure) =
    (some (foreign_key role_or_principal_not_found failure), t)
assigning a organization_id t none =
    let of = assignment_of a.role_id a.principal_id a.principal_type in
    if not (has_role a.role_id organization_id t)
    then (some failed, t)
    else if any of t.role_assignments
    then (none, record t { role_assignments = update_where of (reassigned a) t.role_assignments })
    else (none, record t { role_assignments = a ∷ t.role_assignments })

unfoldable pub assign_role : Call → RoleAssignment → (organization_id : String) → Tables → Ended
unfolding contains
assign_role call a organization_id t = assigning a organization_id t call.write_fails

-- whatever the type of the principal
abbrev pub assigned_to : (role_id principal_id : String) → RoleAssignment → Bool
assigned_to role_id principal_id a = str_eq a.role_id role_id && str_eq a.principal_id principal_id

abbrev pub unassigning :
    (role_id principal_id organization_id : String) → Tables → Option Text → Ended
unassigning role_id principal_id organization_id t (some failure) = (some failed, t)
unassigning role_id principal_id organization_id t none =
    if has_role role_id organization_id t
      && any (assigned_to role_id principal_id) t.role_assignments
    then (
      none,
      record t {
        role_assignments =
            filter (λ a. not (assigned_to role_id principal_id a)) t.role_assignments;
      },
    )
    else (some assignment_not_found, t)

unfoldable pub unassign_role :
    Call → (role_id principal_id organization_id : String) → Tables → Ended
unassign_role call role_id principal_id organization_id t =
    unassigning role_id principal_id organization_id t call.write_fails

-- The policies of a role, and its assignments; the order by time is left out.
abbrev pub shows_policies : (role_id organization_id : String) → Tables → Bool
shows_policies role_id organization_id t =
    any
      (λ r.
        str_eq r.id role_id
        && (str_eq r.organization_id organization_id || str_eq r.organization_id system_org))
      t.roles

unfoldable pub get_role_policies :
    Call → (role_id organization_id : String) → Tables → Result RoleError (List PolicyRow)
get_role_policies call role_id organization_id t =
    if call.read_fails
    then err failed
    else ok (
        filter
          (λ p.
            str_eq p.status "active"
            && shows_policies role_id organization_id t
            && any (attached_to role_id p.id) t.role_policies)
          t.policies)

unfoldable pub get_role_assignments :
    Call → (role_id organization_id : String) → Tables → Result RoleError (List RoleAssignment)
get_role_assignments call role_id organization_id t =
    if call.read_fails
    then err failed
    else ok (
        filter (λ a. str_eq a.role_id role_id && has_role role_id organization_id t)
          t.role_assignments)
