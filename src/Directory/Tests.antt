-- ===== src/Directory/Tests.antt =====
-- Tests of the roles and the groups, and the theorems at concrete inputs.
use monkeys_identity.Base.{
  ℕ, Bool, true, false, String, [], ◌∷◌, Option, none, some, str_eq, find, ok, ◌≡◌, refl, arith,
  not,
}
use monkeys_identity.Platform.{ascii}
use monkeys_identity.Authz.Value.{Fields}
use monkeys_identity.Accounts.{answered}
use monkeys_identity.Policies.Check.{PermissionCheckRequest, check_permission}
use monkeys_identity.Directory.{Role, RoleAssignment, PolicyRow, Group, Tables, Call}
use monkeys_identity.Directory.Roles.{assign_role, unassign_role}
use monkeys_identity.Directory.RoleHandlers.{create, update, delete, attach}
use monkeys_identity.Directory.GroupHandlers.{MemberRequest, add_member}
use monkeys_identity.Directory.GroupHandlers
use monkeys_identity.Directory.Grants.{granted, get_principal_policies}
use monkeys_identity.Directory.Effects.{granted-earlier, assign_role-granted, unassign_role-granted}
use monkeys_identity.Directory.Gaps.{delete-get_principal_policies, rename_then_delete}
use monkeys_identity.Directory.Members.{is_answered, add_member-none}
use monkeys_identity.Directory.Isolation.{well_attached}
use monkeys_identity.Directory.Isolation.Statements.{by_assign, Statement-isolated}
use monkeys_identity.Directory.Attached.{Statement-well_attached}
use monkeys_identity.Directory.Checks.{Statement-check_permission}

abbrev call : Call
call = record {
  now = 5;
  user_id = some "root";
  organization_id = some "o";
  read_fails = false;
  write_fails = none;
}

abbrev role_named : String → String → Role
role_named id name = record {
  id = id;
  name = name;
  description = none;
  organization_id = "o";
  role_type = "custom";
  max_session_duration = some "12 hours";
  trust_policy = "{}";
  assume_role_policy = "{}";
  tags = "{}";
  is_system_role = true;
  path = some "/";
  permissions_boundary = none;
  status = "active";
  deleted_at = none;
}

abbrev admin : Role
admin = role_named "r1" "admin"

abbrev policy : PolicyRow
policy = record {
  id = "p1";
  name = "All";
  organization_id = "o";
  document = "d";
  status = "active";
}

abbrev group : Group
group = record {
  id = "g1";
  name = "team";
  description = "";
  organization_id = "o";
  parent_group_id = none;
  group_type = "standard";
  attributes = "{}";
  max_members = 10;
  status = "active";
  deleted_at = none;
}

abbrev tables : Tables
tables = record {
  roles = admin ∷ [];
  role_policies = record { role_id = "r1"; policy_id = "p1"; attached_by = "root" } ∷ [];
  role_assignments = [];
  policies = policy ∷ [];
  groups = group ∷ [];
  group_memberships = [];
}

abbrev assignment : RoleAssignment
assignment = record {
  role_id = "r1";
  principal_id = "ann";
  principal_type = "user";
  assigned_by = "root";
  expires_at = some 9;
  conditions = "{}";
}

abbrev assigned : Tables
assigned = record tables { role_assignments = assignment ∷ [] }

-- The policies of a user before and after an assignment, and after its end.
before : get_principal_policies none 5 tables "ann" "user" "o" ≡ ok []
unfolding get_principal_policies
before = refl

during :
    get_principal_policies none 5 assigned "ann" "user" "o"
    ≡ ok (record { id = "p1"; name = "All"; document = "d" } ∷ [])
unfolding get_principal_policies
during = refl

afterwards : get_principal_policies none 9 assigned "ann" "user" "o" ≡ ok []
unfolding get_principal_policies
afterwards = refl

-- A policy that is not there is said to be attached already.
attach_missing :
    (attach "r1" call (some (record { policy_id = "none"; attached_by = "" })) tables).0
    ≡ answered false
unfolding attach
attach_missing = refl

-- A role of any organization can be created.
create_elsewhere :
    (create "r2" call (some (record (role_named "" "owner") { organization_id = "x" })) tables).0
    ≡ answered (record (role_named "r2" "owner") { organization_id = "x" })
unfolding create
create_elsewhere = refl

granted-earlier_example : granted 5 "ann" "user" "o" assigned policy ≡ true
unfolding granted
granted-earlier_example = granted-earlier 5 8 (ground arith) "ann" "user" "o" assigned policy refl

assign_role-granted_example :
    granted 6 "ann" "user" "o" (assign_role call assignment "o" tables).1 policy ≡ true
unfolding assign_role
assign_role-granted_example =
    assign_role-granted call assignment "o" tables policy 6 refl (ground arith) refl refl refl

unassign_role-granted_example :
    granted 6 "ann" "user" "o" (unassign_role call "r1" "ann" "o" assigned).1 policy ≡ false
unfolding unassign_role
unassign_role-granted_example =
    unassign_role-granted call "r1" "ann" "user" "o" assigned policy 6 refl refl refl

abbrev other_role : Role
other_role = role_named "r2" "editor"

abbrev two_roles : Tables
two_roles = record assigned { roles = admin ∷ other_role ∷ [] }

delete-get_principal_policies_example :
    (get_principal_policies none 5 (delete "r2" call two_roles).1 "ann" "user" "o"
      ≡ get_principal_policies none 5 two_roles "ann" "user" "o")
    × (get_principal_policies none 5 (GroupHandlers.delete "r2" call two_roles).1 "ann" "user" "o"
        ≡ get_principal_policies none 5 two_roles "ann" "user" "o")
delete-get_principal_policies_example =
    delete-get_principal_policies none 5 "ann" "user" "o" "r2" call two_roles

rename_then_delete_example :
    (delete "r1" call (update "r1" call (some (role_named "" "x")) assigned).1).0 ≡ answered "r1"
unfolding find
rename_then_delete_example =
    rename_then_delete "r1" "o" call (role_named "" "x") admin assigned refl refl refl refl refl
      refl refl refl

abbrev not_empty : String → Bool
not_empty s = not (str_eq s "")

abbrev member : MemberRequest
member = record {
  principal_id = "ann";
  principal_type = "user";
  role_in_group = "";
  expires_at = "";
}

abbrev no_time : String → Option ℕ
no_time text = none

add_member-none_example :
    (is_answered (add_member not_empty no_time "g1" call (some member) tables).0 ≡ false)
    × ((add_member not_empty no_time "g1" call (some member) tables).1 ≡ tables)
add_member-none_example = add_member-none not_empty no_time tables refl "g1" call (some member)

Statement-isolated_example :
    get_principal_policies none 5 (assign_role call assignment "o" tables).1 "ann" "user" "x"
    ≡ get_principal_policies none 5 tables "ann" "user" "x"
unfolding well_attached
Statement-isolated_example =
    Statement-isolated "o" "x" none 5 "ann" "user" tables (assign_role call assignment "o" tables).1
      refl refl (by_assign call assignment)

Statement-well_attached_example : well_attached (assign_role call assignment "o" tables).1 ≡ true
unfolding well_attached
Statement-well_attached_example =
    Statement-well_attached "o" tables (assign_role call assignment "o" tables).1 refl
      (by_assign call assignment)

abbrev no_documents : String → Option Fields
no_documents text = none

abbrev request : PermissionCheckRequest
request = record {
  principal_id = "ann";
  principal_type = "user";
  organization_id = "x";
  resource = "d1";
  action = "read";
  context = none;
}

Statement-check_permission_example :
    check_permission ascii no_documents
      (get_principal_policies none 5 (assign_role call assignment "o" tables).1)
      "x"
      request
    ≡ check_permission ascii no_documents (get_principal_policies none 5 tables) "x" request
unfolding well_attached
Statement-check_permission_example =
    Statement-check_permission ascii no_documents "o" "x" none 5 request tables
      (assign_role call assignment "o" tables).1 refl refl refl (by_assign call assignment)
