-- ===== src/Directory/Attached.antt =====
-- The statements on roles keep the tables well attached.
use monkeys_identity.Base.{
  ℕ, Bool, true, false, not, ◌&&◌, String, List, [], ◌∷◌, Option, none, some, str_eq, any,
  update_where, ◌≡◌, refl, arith, eq_iff, Bool-cases, inl, inr, any-update_where, any_mono,
  all_mono, all-filter,
}
use monkeys_identity.Directory.{Role, RolePolicy, RoleAssignment, PolicyRow, Tables}
use monkeys_identity.Directory.Roles.{
  create_role, update_role, delete_role, attach_policy_to_role, detach_policy_from_role,
  assign_role, unassign_role, attaching, detaching, assigning, unassigning, role_in, policy_in,
  attached_to, inserted_role, write_roles, live_role_in, rewritten, deleted, same_name,
}
use monkeys_identity.Directory.Isolation.{well_attached, distinct_roles, of_one_org}
use monkeys_identity.Directory.Isolation.Statements.{
  Statement, by_create, by_update, by_delete, by_attach, by_detach, by_assign, by_unassign,
}

abbrev WellAttached : Tables → Type 0
WellAttached t = well_attached t ≡ true

abbrev KeepsKey : (Role → Role) → Type 0
KeepsKey g = (r : Role) → ((g r).id ≡ r.id) × ((g r).organization_id ≡ r.organization_id)

module _ (q : Role → Bool) (g : Role → Role) (keeps : KeepsKey g) where
  distinct-update_where :
      (rs : List Role) → distinct_roles rs ≡ true → distinct_roles (update_where q g rs) ≡ true
  unfolding update_where
  distinct-update_where [] h = refl
  distinct-update_where (r ∷ rs) h =
      let same =
        any-update_where (λ x. str_eq x.id r.id) q g (λ x. ground (arith, (keeps x).0)) rs in
      elim (Bool-cases (q r)) [
        | inl e ↦ rw (e, (keeps r).0) (ground (arith, h, same, distinct-update_where rs))
        | inr e ↦ rw e (ground (arith, h, same, distinct-update_where rs))
      ]

  of_one_org-update_where :
      (policies : List PolicyRow) (rp : RolePolicy) (rs : List Role)
      → of_one_org (update_where q g rs) policies rp ≡ of_one_org rs policies rp
  of_one_org-update_where policies rp rs =
      any-update_where
        (λ r. any (policy_in rp.policy_id r.organization_id) policies && str_eq r.id rp.role_id) q g
        (λ r. rw ((keeps r).0, (keeps r).1) refl) rs

  roles-kept :
      (t : Tables) → WellAttached t → WellAttached (record t { roles = update_where q g t.roles })
  unfolding well_attached
  roles-kept t h = ground (
    arith,
    h,
    distinct-update_where t.roles,
    all_mono (of_one_org t.roles t.policies) (of_one_org (update_where q g t.roles) t.policies)
        (λ rp e. ground (arith, e, of_one_org-update_where t.policies rp t.roles)) t.role_policies,
  )

write_roles-kept :
    (id org : String) (conflict : Bool) (g : Role → Role) (t : Tables) (f : Option (List ℕ))
    → KeepsKey g
    → WellAttached t
    → WellAttached (write_roles id org conflict g t f).1
write_roles-kept id org conflict g t (some failure) keeps h = h
write_roles-kept id org conflict g t none keeps h =
    ground (arith, h, roles-kept (live_role_in id org) g keeps t h)

inserted-kept :
    (r : Role) (t : Tables) (f : Option (List ℕ))
    → WellAttached t
    → WellAttached (inserted_role r t f).1
unfolding well_attached
inserted-kept r t (some failure) h = h
inserted-kept r t none h = elim (Bool-cases (any (λ q. str_eq q.id r.id) t.roles)) [
  | inl e ↦ ground (
    arith,
    h,
    any_mono (λ q. str_eq q.id r.id) (same_name r) (λ q k. ground (arith, k)) t.roles e,
  )
  | inr e ↦ ground (
    arith,
    h,
    e,
    all_mono (of_one_org t.roles t.policies) (of_one_org (r ∷ t.roles) t.policies)
        (λ rp k. ground (arith, k)) t.role_policies,
  )
]

-- A role and a policy of one organization.
attached-of_one_org :
    (role policy a by : String) (policies : List PolicyRow) (roles : List Role)
    → any (role_in role a) roles ≡ true
    → any (policy_in policy a) policies ≡ true
    → of_one_org roles policies (record { role_id = role; policy_id = policy; attached_by = by })
      ≡ true
attached-of_one_org role policy a by policies [] h k = ground (arith, h)
attached-of_one_org role policy a by policies (r ∷ rs) h k = elim (Bool-cases (role_in role a r)) [
  | inl e ↦
      let org : r.organization_id ≡ a = ground (arith, e, eq_iff r.organization_id a) in
      ground (arith, e, k, org)
  | inr e ↦ ground (arith, h, e, attached-of_one_org role policy a by policies rs)
]

attaching-kept :
    (role policy a by : String) (t : Tables) (f : Option (List ℕ))
    → WellAttached t
    → WellAttached (attaching role policy a by t f).1
unfolding well_attached
attaching-kept role policy a by t (some failure) h = h
attaching-kept role policy a by t none h =
    ground (arith, h, attached-of_one_org role policy a by t.policies t.roles)

detaching-kept :
    (role policy a : String) (t : Tables) (f : Option (List ℕ))
    → WellAttached t
    → WellAttached (detaching role policy a t f).1
unfolding well_attached
detaching-kept role policy a t (some failure) h = h
detaching-kept role policy a t none h = ground (
  arith,
  h,
  all-filter (of_one_org t.roles t.policies) (λ rp. not (attached_to role policy rp))
      t.role_policies,
)

assigning-kept :
    (x : RoleAssignment) (a : String) (t : Tables) (f : Option (List ℕ))
    → WellAttached t
    → WellAttached (assigning x a t f).1
unfolding well_attached
assigning-kept x a t (some failure) h = h
assigning-kept x a t none h = ground (arith, h)

unassigning-kept :
    (role target a : String) (t : Tables) (f : Option (List ℕ))
    → WellAttached t
    → WellAttached (unassigning role target a t f).1
unfolding well_attached
unassigning-kept role target a t (some failure) h = h
unassigning-kept role target a t none h = ground (arith, h)

-- Every statement on roles that runs for one organization keeps that the ids of roles and of
-- policies are distinct and that every policy is attached to roles of its own organization alone.
pub Statement-well_attached :
    (a : String) (t t' : Tables)
    → well_attached t ≡ true
    → Statement a t t'
    → well_attached t' ≡ true
unfolding create_role update_role delete_role attach_policy_to_role detach_policy_from_role
    assign_role unassign_role
Statement-well_attached a t _ h (by_create call r) = inserted-kept r t call.write_fails h
Statement-well_attached a t _ h (by_update call r) =
    write_roles-kept r.id a _ (rewritten r) t call.write_fails (λ x. (refl, refl)) h
Statement-well_attached a t _ h (by_delete call id) =
    write_roles-kept id a false (deleted call.now) t call.write_fails (λ x. (refl, refl)) h
Statement-well_attached a t _ h (by_attach call id policy_id by) =
    attaching-kept id policy_id a by t call.write_fails h
Statement-well_attached a t _ h (by_detach call id policy_id) =
    detaching-kept id policy_id a t call.write_fails h
Statement-well_attached a t _ h (by_assign call x) = assigning-kept x a t call.write_fails h
Statement-well_attached a t _ h (by_unassign call id target) =
    unassigning-kept id target a t call.write_fails h
