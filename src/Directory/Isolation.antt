-- ===== src/Directory/Isolation.antt =====
-- What it takes that the statements on roles of one organization leave the grants of another one.
pub mod Rows
pub mod Statements
use monkeys_identity.Base.{
  ℕ, Bool, true, false, not, ◌&&◌, String, List, [], ◌∷◌, Option, none, some, str_eq, any, all,
  filter, update_where, map, ok, ◌≡◌, refl, ap, arith, eq_iff, Bool-cases, inl, inr, any_agree,
  any-filter_at, any-update_at, filter_agree,
}
use monkeys_identity.Directory.{Role, RolePolicy, RoleAssignment, PolicyRow, Tables, Call}
use monkeys_identity.Directory.Roles.{
  create_role, update_role, delete_role, attach_policy_to_role, detach_policy_from_role,
  assign_role, unassign_role, attaching, detaching, assigning, unassigning, has_role, role_in,
  policy_in, attached_to, assignment_of, assigned_to, reassigned, inserted_role, write_roles,
  live_role_in,
}
use monkeys_identity.Directory.Grants.{
  direct, through_group, holds_role, granted, get_principal_policies, as_policy,
}

abbrev pub distinct_roles : List Role → Bool
distinct_roles [] = true
distinct_roles (r ∷ rs) = not (any (λ q. str_eq q.id r.id) rs) && distinct_roles rs

abbrev pub distinct_policies : List PolicyRow → Bool
distinct_policies [] = true
distinct_policies (p ∷ ps) = not (any (λ q. str_eq q.id p.id) ps) && distinct_policies ps

-- The role and the policy of a row are of one organization.
abbrev pub of_one_org : List Role → List PolicyRow → RolePolicy → Bool
of_one_org roles policies rp =
    any (λ r. any (policy_in rp.policy_id r.organization_id) policies && str_eq r.id rp.role_id)
      roles

unfoldable pub well_attached : Tables → Bool
well_attached t =
    distinct_roles t.roles
    && distinct_policies t.policies
    && all (of_one_org t.roles t.policies) t.role_policies

pub nowhere :
    (id a : String) (policies : List PolicyRow)
    → any (λ q. str_eq q.id id) policies ≡ false
    → any (policy_in id a) policies ≡ false
nowhere id a [] h = refl
nowhere id a (p ∷ ps) h = ground (arith, h, nowhere id a ps)

pub no_role :
    (id a : String) (roles : List Role)
    → any (λ q. str_eq q.id id) roles ≡ false
    → any (role_in id a) roles ≡ false
no_role id a [] h = refl
no_role id a (r ∷ rs) h = ground (arith, h, no_role id a rs)

pub no_pair :
    (rp : RolePolicy) (roles : List Role) (policies : List PolicyRow)
    → any (λ q. str_eq q.id rp.role_id) roles ≡ false
    → of_one_org roles policies rp ≡ false
no_pair rp [] policies h = refl
no_pair rp (r ∷ rs) policies h = ground (arith, h, no_pair rp rs policies)

-- A policy of one organization is of no other one.
pub policy_elsewhere :
    (id a b : String) (policies : List PolicyRow)
    → str_eq a b ≡ false
    → distinct_policies policies ≡ true
    → any (policy_in id a) policies ≡ true
    → any (policy_in id b) policies ≡ false
policy_elsewhere id a b [] ne d h = refl
policy_elsewhere id a b (p ∷ ps) ne d h = elim (Bool-cases (str_eq p.id id)) [
  | inl e ↦
      let at_id : p.id ≡ id = ground (arith, e, eq_iff p.id id) in
      let free : any (λ q. str_eq q.id id) ps ≡ false = ground (arith, d, at_id) in
      ground (
        arith,
        h,
        e,
        free,
        nowhere id a ps,
        nowhere id b ps,
        eq_iff p.organization_id a,
        eq_iff p.organization_id b,
        eq_iff a b,
        ne,
      )
  | inr e ↦ ground (arith, h, e, d, policy_elsewhere id a b ps ne)
]

pub role_org :
    (a : String) (rp : RolePolicy) (roles : List Role) (policies : List PolicyRow)
    → distinct_roles roles ≡ true
    → any (role_in rp.role_id a) roles ≡ true
    → of_one_org roles policies rp ≡ true
    → any (policy_in rp.policy_id a) policies ≡ true
role_org a rp [] policies d h k = ground (arith, h)
role_org a rp (r ∷ rs) policies d h k = elim (Bool-cases (str_eq r.id rp.role_id)) [
  | inl e ↦
      let at_id : r.id ≡ rp.role_id = ground (arith, e, eq_iff r.id rp.role_id) in
      let free : any (λ q. str_eq q.id rp.role_id) rs ≡ false = ground (arith, d, at_id) in
      let org : r.organization_id ≡ a =
        ground (arith, h, e, free, no_role rp.role_id a rs, eq_iff r.organization_id a) in
      ground (arith, k, e, free, org, no_pair rp rs policies)
  | inr e ↦ ground (arith, h, k, e, d, role_org a rp rs policies)
]

pub elsewhere :
    (x role other : String)
    → str_eq x role ≡ true
    → str_eq role other ≡ false
    → str_eq x other ≡ false
elsewhere x role other e n = ground (arith, e, n, eq_iff x role, eq_iff x other, eq_iff role other)

pub every_row : (rows : List RoleAssignment) → all (λ x. true) rows ≡ true
every_row [] = refl
every_row (x ∷ rows) = every_row rows

-- Outside of the organization nothing is granted.
pub granted_agree :
    (now : ℕ) (pid type b : String) (t t' : Tables) (p : PolicyRow)
    → (p.organization_id ≡ b → granted now pid type b t' p ≡ granted now pid type b t p)
    → granted now pid type b t' p ≡ granted now pid type b t p
unfolding granted
granted_agree now pid type b t t' p h = elim (Bool-cases (str_eq p.organization_id b)) [
  | inl e ↦ h (ground (arith, e, eq_iff p.organization_id b))
  | inr e ↦ ground (arith, e)
]

pub flipped : (x y : String) → str_eq x y ≡ false → str_eq y x ≡ false
flipped x y h = ground (arith, h, eq_iff x y, eq_iff y x)
