-- ===== src/Directory/Isolation/Statements.antt =====
-- The statements on roles as a relation, and what they leave of the policies of a principal.
use monkeys_identity.Base.{
  ℕ, true, false, String, List, [], ◌∷◌, Option, none, some, str_eq, any, all, map, ok, ◌≡◌, refl,
  ap, arith, eq_iff, filter_agree,
}
use monkeys_identity.Directory.{Role, RoleAssignment, PolicyRow, Tables, Call}
use monkeys_identity.Directory.Roles.{
  create_role, update_role, delete_role, attach_policy_to_role, detach_policy_from_role,
  assign_role, unassign_role, policy_in,
}
use monkeys_identity.Directory.Grants.{granted, get_principal_policies, as_policy}
use monkeys_identity.Directory.Isolation.{well_attached, granted_agree}
use monkeys_identity.Directory.Isolation.Rows.{
  SameGrants, attaching-same, detaching-same, assigning-same, unassigning-same, write_roles-same,
  inserted-same,
}

-- One statement for the organization, but that a creation names its own one.
pub data Statement (a : String) (t : Tables) : Tables → Type 0 where
  by_create : (call : Call) (r : Role) → Statement a t (create_role call r t).1
  by_update : (call : Call) (r : Role) → Statement a t (update_role call r a t).1
  by_delete : (call : Call) (id : String) → Statement a t (delete_role call id a t).1
  by_attach :
      (call : Call) (id policy_id by : String)
      → Statement a t (attach_policy_to_role call id policy_id a by t).1
  by_detach :
      (call : Call) (id policy_id : String)
      → Statement a t (detach_policy_from_role call id policy_id a t).1
  by_assign : (call : Call) (x : RoleAssignment) → Statement a t (assign_role call x a t).1
  by_unassign :
      (call : Call) (id target : String) → Statement a t (unassign_role call id target a t).1

Statement-SameGrants :
    (a b : String) (apart : str_eq a b ≡ false) (t : Tables) (w : well_attached t ≡ true) (now : ℕ)
    (pid type : String) (t' : Tables)
    → Statement a t t'
    → SameGrants a b apart t w now pid type t'
unfolding create_role update_role delete_role attach_policy_to_role detach_policy_from_role
    assign_role unassign_role
Statement-SameGrants a b n t w now pid type _ (by_create call r) =
    inserted-same a b n t w now pid type r call.write_fails
Statement-SameGrants a b n t w now pid type _ (by_update call r) =
    write_roles-same a b n t w now pid type r.id a _ _ call.write_fails
Statement-SameGrants a b n t w now pid type _ (by_delete call id) =
    write_roles-same a b n t w now pid type id a false _ call.write_fails
Statement-SameGrants a b n t w now pid type _ (by_attach call id policy_id by) =
    attaching-same a b n t w now pid type id policy_id by call.write_fails
Statement-SameGrants a b n t w now pid type _ (by_detach call id policy_id) =
    detaching-same a b n t w now pid type id policy_id call.write_fails
Statement-SameGrants a b n t w now pid type _ (by_assign call x) =
    assigning-same a b n t w now pid type x call.write_fails
Statement-SameGrants a b n t w now pid type _ (by_unassign call id target) =
    unassigning-same a b n t w now pid type id target call.write_fails

-- Every row of a table is one of its rows.
all_self :
    (policies rows : List PolicyRow)
    → ((id org : String)
        → any (policy_in id org) rows ≡ true
        → any (policy_in id org) policies ≡ true)
    → all (λ p. any (policy_in p.id p.organization_id) policies) rows ≡ true
all_self policies [] f = refl
all_self policies (p ∷ rows) f = ground (
  arith,
  f p.id p.organization_id,
  eq_iff p.id p.id,
  eq_iff p.organization_id p.organization_id,
  all_self policies rows (λ id org h. f id org (ground (arith, h))),
)

-- test
pub Statement-isolated :
    (a b : String) (f : Option String) (now : ℕ) (principal_id principal_type : String)
    (t t' : Tables)
    → str_eq a b ≡ false
    → well_attached t ≡ true
    → Statement a t t'
    → get_principal_policies f now t' principal_id principal_type b
      ≡ get_principal_policies f now t principal_id principal_type b
unfolding get_principal_policies
Statement-isolated a b (some failure) now pid type t t' n w step = refl
Statement-isolated a b none now pid type t t' n w step =
    let (same, agree) = Statement-SameGrants a b n t w now pid type t' step in
    rw same (
      ap (λ rows. ok (map as_policy rows))
        (filter_agree (λ p. any (policy_in p.id p.organization_id) t.policies)
          (granted now pid type b t') (granted now pid type b t)
          (λ p h. granted_agree now pid type b t t' p (λ own. agree p (rw own at h))) t.policies
          (all_self t.policies t.policies (λ id org h. h))))
