-- ===== src/Directory.antt =====
-- The roles, their policies and assignments, and the groups: internal/queries/role.go,
-- internal/queries/group_queries.go with their handlers of internal/handlers/handlers.go, and the
-- query behind a permission check, `getPrincipalPolicies` of internal/queries/policy_queries.go.
-- Times are seconds, and the zero time of Go is 0.
pub mod Roles
pub mod Groups
pub mod Grants
pub mod RoleHandlers
pub mod GroupHandlers
pub mod Guard
pub mod Gaps
pub mod Effects
pub mod Members
pub mod Isolation
pub mod Attached
pub mod Checks
mod Tests
use monkeys_identity.Base.{ℕ, Bool, String, Text, List, Option, none, some, str_eq, if◌then◌else◌}
use monkeys_identity.Accounts.{Reply, refused, panicked}

-- But for the times of the creation and of the last update.
pub record Role : Type 0 where
  pub id : String
  pub name : String
  pub description : Option String
  pub organization_id : String
  pub role_type : String
  pub max_session_duration : Option String
  pub trust_policy : String
  pub assume_role_policy : String
  pub tags : String
  pub is_system_role : Bool
  pub path : Option String
  pub permissions_boundary : Option String
  pub status : String
  pub deleted_at : Option ℕ

pub record RolePolicy : Type 0 where
  pub role_id : String
  pub policy_id : String
  pub attached_by : String

pub record RoleAssignment : Type 0 where
  pub role_id : String
  pub principal_id : String
  pub principal_type : String
  pub assigned_by : String
  pub expires_at : Option ℕ
  pub conditions : String

-- The columns of `policies` that these queries read.
pub record PolicyRow : Type 0 where
  pub id : String
  pub name : String
  pub organization_id : String
  pub document : String
  pub status : String

pub record Group : Type 0 where
  pub id : String
  pub name : String
  pub description : String
  pub organization_id : String
  pub parent_group_id : Option String
  pub group_type : String
  pub attributes : String
  pub max_members : ℕ
  pub status : String
  pub deleted_at : Option ℕ

pub record GroupMembership : Type 0 where
  pub group_id : String
  pub principal_id : String
  pub principal_type : String
  pub role_in_group : String
  pub expires_at : Option ℕ
  pub added_by : String

pub record Tables : Type 0 where
  pub roles : List Role
  pub role_policies : List RolePolicy
  pub role_assignments : List RoleAssignment
  pub policies : List PolicyRow
  pub groups : List Group
  pub group_memberships : List GroupMembership

-- The time, the locals that the middleware set, and which statements fail, but for the constraints:
-- a writing one with the text of its error.
pub record Call : Type 0 where
  pub now : ℕ
  pub user_id : Option String
  pub organization_id : Option String
  pub read_fails : Bool
  pub write_fails : Option Text

-- c.Locals(…).(string), which panics where nothing was set
abbrev pub local :
    {A : Type 0} → Tables → Option String → (String → Reply A × Tables) → Reply A × Tables
local t none later = (panicked, t)
local t (some value) later = later value

-- c.BodyParser
abbrev pub parsed : {A B : Type 0} → Tables → Option B → (B → Reply A × Tables) → Reply A × Tables
parsed t none later = (refused 400 "Failed to parse request body", t)
parsed t (some body) later = later body

-- a parameter of the path
abbrev pub named :
    {A : Type 0} → Tables → (id message : String) → Reply A × Tables → Reply A × Tables
named t id message later = if str_eq id "" then (refused 400 message, t) else later
