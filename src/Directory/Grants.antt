-- ===== src/Directory/Grants.antt =====
-- `getPrincipalPolicies` of internal/queries/policy_queries.go: the policies behind a permission check.
use monkeys_identity.Base.{
  ℕ, Bool, true, ◌&&◌, ◌||◌, String, List, Option, none, some, str_eq, ltb, any, filter, map,
  Result, ok, err,
}
use monkeys_identity.Policies.Check.{Policy}
use monkeys_identity.Directory.{RoleAssignment, PolicyRow, GroupMembership, Tables}

-- expires_at IS NULL OR expires_at > NOW()
abbrev pub in_time : ℕ → Option ℕ → Bool
in_time now none = true
in_time now (some t) = ltb now t

-- roles assigned to the principal itself
abbrev pub direct :
    (now : ℕ) → (principal_id principal_type role_id : String) → RoleAssignment → Bool
direct now principal_id principal_type role_id a =
    str_eq a.role_id role_id
    && str_eq a.principal_id principal_id
    && str_eq a.principal_type principal_type
    && in_time now a.expires_at

abbrev pub is_member :
    (now : ℕ) → (principal_id principal_type group_id : String) → GroupMembership → Bool
is_member now principal_id principal_type group_id m =
    str_eq m.group_id group_id
    && str_eq m.principal_id principal_id
    && str_eq m.principal_type principal_type
    && in_time now m.expires_at

-- roles assigned to a group of the principal
abbrev pub through_group :
    (now : ℕ)
    → (principal_id principal_type role_id : String) → List GroupMembership
    → RoleAssignment
    → Bool
through_group now principal_id principal_type role_id members a =
    str_eq a.role_id role_id
    && str_eq a.principal_type "group"
    && in_time now a.expires_at
    && any (is_member now principal_id principal_type a.principal_id) members

unfoldable pub holds_role :
    (now : ℕ) → (principal_id principal_type : String) → Tables → (role_id : String) → Bool
holds_role now principal_id principal_type t role_id =
    any (direct now principal_id principal_type role_id) t.role_assignments
    || any (through_group now principal_id principal_type role_id t.group_memberships)
        t.role_assignments

-- SELECT DISTINCT … FROM policies JOIN role_policies JOIN principal_roles
unfoldable pub granted :
    (now : ℕ) → (principal_id principal_type organization_id : String) → Tables → PolicyRow → Bool
unfolding holds_role
granted now principal_id principal_type organization_id t p =
    str_eq p.status "active"
    && str_eq p.organization_id organization_id
    && any
        (λ rp. str_eq rp.policy_id p.id && holds_role now principal_id principal_type t rp.role_id)
        t.role_policies

abbrev pub as_policy : PolicyRow → Policy
as_policy p = record { id = p.id; name = p.name; document = p.document }

unfoldable pub get_principal_policies :
    (fails : Option String)
    → (now : ℕ) → Tables
    → (principal_id principal_type organization_id : String) → Result String (List Policy)
unfolding granted filter
get_principal_policies (some failure) now t principal_id principal_type organization_id =
    err failure
get_principal_policies none now t principal_id principal_type organization_id =
    ok (
      map as_policy (filter (granted now principal_id principal_type organization_id t) t.policies))
