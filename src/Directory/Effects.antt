-- ===== src/Directory/Effects.antt =====
-- What an assignment, its end and the time do to the policies of a principal.
use monkeys_identity.Base.{
  ℕ, ◌≤◌, Bool, true, false, not, ◌&&◌, ◌||◌, String, List, [], ◌∷◌, Option, none, some, str_eq,
  any, all, update_where, ◌≡◌, refl, arith, eq_iff, Bool-cases, inl, inr, any_mono, any-filter_none,
}
use monkeys_identity.Directory.{
  RolePolicy, RoleAssignment, PolicyRow, GroupMembership, Tables, Call,
}
use monkeys_identity.Directory.Roles.{
  assigning, assign_role, assignment_of, reassigned, unassigning, unassign_role, assigned_to,
}
use monkeys_identity.Directory.Grants.{
  in_time, direct, is_member, through_group, holds_role, granted,
}

module _ (now later : ℕ) (order : now ≤ later) where
  in_time-earlier : (o : Option ℕ) → in_time later o ≡ true → in_time now o ≡ true
  in_time-earlier none h = refl
  in_time-earlier (some t) h = ground (arith, h)

  holds_role-earlier :
      (principal_id principal_type role_id : String) (t : Tables)
      → holds_role later principal_id principal_type t role_id ≡ true
      → holds_role now principal_id principal_type t role_id ≡ true
  unfolding holds_role
  holds_role-earlier pid type role t h = ground (
    arith,
    h,
    any_mono (direct later pid type role) (direct now pid type role)
        (λ a k. ground (arith, k, in_time-earlier a.expires_at)) t.role_assignments,
    any_mono (through_group later pid type role t.group_memberships)
        (through_group now pid type role t.group_memberships)
        (λ a k. ground (
          arith,
          k,
          in_time-earlier a.expires_at,
          any_mono (is_member later pid type a.principal_id) (is_member now pid type a.principal_id)
              (λ m k'. ground (arith, k', in_time-earlier m.expires_at)) t.group_memberships,
        ))
        t.role_assignments,
  )

  -- test
  pub granted-earlier :
      (principal_id principal_type organization_id : String) (t : Tables) (p : PolicyRow)
      → granted later principal_id principal_type organization_id t p ≡ true
      → granted now principal_id principal_type organization_id t p ≡ true
  unfolding granted
  granted-earlier pid type org t p h = ground (
    arith,
    h,
    any_mono (λ rp. str_eq rp.policy_id p.id && holds_role later pid type t rp.role_id)
        (λ rp. str_eq rp.policy_id p.id && holds_role now pid type t rp.role_id)
        (λ rp k. ground (arith, k, holds_role-earlier pid type rp.role_id t)) t.role_policies,
  )

-- The row that an assignment leaves.
any-updated :
    (a : RoleAssignment) (now : ℕ) (rows : List RoleAssignment)
    → in_time now a.expires_at ≡ true
    → any (assignment_of a.role_id a.principal_id a.principal_type) rows ≡ true
    → any
        (direct now a.principal_id a.principal_type a.role_id)
        (update_where (assignment_of a.role_id a.principal_id a.principal_type) (reassigned a) rows)
      ≡ true
unfolding update_where
any-updated a now [] h k = ground (arith, k)
any-updated a now (c ∷ rows) h k =
    elim (Bool-cases (assignment_of a.role_id a.principal_id a.principal_type c)) [
      | inl e ↦ rw e (ground (arith, h, e))
      | inr e ↦ rw e (ground (arith, h, e, k, any-updated a now rows))
    ]

assigning-direct :
    (a : RoleAssignment) (org_id : String) (t : Tables) (f : Option (List ℕ)) (now : ℕ)
    → in_time now a.expires_at ≡ true
    → (assigning a org_id t f).0 ≡ none
    → (any
          (direct now a.principal_id a.principal_type a.role_id)
          (assigning a org_id t f).1.role_assignments
        ≡ true)
      × ((assigning a org_id t f).1.role_policies ≡ t.role_policies)
assigning-direct a org_id t (some failure) now h k = ground (arith, k)
assigning-direct a org_id t none now h k = ground (
  arith,
  h,
  k,
  any-updated a now t.role_assignments,
  eq_iff a.role_id a.role_id,
  eq_iff a.principal_id a.principal_id,
  eq_iff a.principal_type a.principal_type,
)

-- After an assignment that succeeds, every active policy of the organization that is attached to
-- the role is granted to the principal, at every time before the assignment's expiry.
pub assign_role-granted :
    (call : Call) (a : RoleAssignment) (org_id : String) (t : Tables) (p : PolicyRow) (now : ℕ)
    → (assign_role call a org_id t).0 ≡ none
    → in_time now a.expires_at ≡ true
    → str_eq p.status "active" ≡ true
    → str_eq p.organization_id org_id ≡ true
    → any (λ rp. str_eq rp.policy_id p.id && str_eq rp.role_id a.role_id) t.role_policies ≡ true
    → granted now a.principal_id a.principal_type org_id (assign_role call a org_id t).1 p ≡ true
unfolding assign_role granted holds_role
assign_role-granted call a org_id t p now h k active within attached =
    let t' = (assigning a org_id t call.write_fails).1 in
    let (row, same) = assigning-direct a org_id t call.write_fails now k h in
    ground (
      arith,
      active,
      within,
      same,
      attached,
      any_mono (λ rp. str_eq rp.policy_id p.id && str_eq rp.role_id a.role_id)
          (λ rp.
            str_eq rp.policy_id p.id
            && holds_role now a.principal_id a.principal_type t' rp.role_id)
          (λ rp e.
            let at_role : rp.role_id ≡ a.role_id = ground (arith, e, eq_iff rp.role_id a.role_id) in
            rw at_role (ground (arith, e, row)))
          t.role_policies,
    )

unassigning-none :
    (role_id principal_id principal_type org_id : String) (t : Tables) (f : Option (List ℕ))
    (now : ℕ)
    → (unassigning role_id principal_id org_id t f).0 ≡ none
    → (any
          (direct now principal_id principal_type role_id)
          (unassigning role_id principal_id org_id t f).1.role_assignments
        ≡ false)
      × ((unassigning role_id principal_id org_id t f).1.role_policies ≡ t.role_policies)
      × ((unassigning role_id principal_id org_id t f).1.group_memberships ≡ t.group_memberships)
unassigning-none role_id pid type org_id t (some failure) now k = ground (arith, k)
unassigning-none role_id pid type org_id t none now k = ground (
  arith,
  k,
  any-filter_none (direct now pid type role_id) (λ a. not (assigned_to role_id pid a))
      (λ a e. ground (arith, e)) t.role_assignments,
)

any_none : {A : Type 0} (p : A → Bool) (xs : List A) → ((x : A) → p x ≡ false) → any p xs ≡ false
any_none p [] f = refl
any_none p (x ∷ xs) f = ground (arith, f x, any_none p xs f)

module _ (role_id pid type : String) (now : ℕ) where
  outside :
      (group_id : String) (rows : List GroupMembership)
      → any (λ m. str_eq m.principal_id pid && str_eq m.principal_type type) rows ≡ false
      → any (is_member now pid type group_id) rows ≡ false
  outside group_id [] h = refl
  outside group_id (m ∷ rows) h = ground (arith, h, outside group_id rows)

  no_member :
      (rows : List GroupMembership) (a : RoleAssignment)
      → any (λ m. str_eq m.principal_id pid && str_eq m.principal_type type) rows ≡ false
      → through_group now pid type role_id rows a ≡ false
  no_member rows a h = ground (arith, h, outside a.principal_id rows h)

  -- A policy that only this role has, which the principal does not hold.
  no_row :
      (p : PolicyRow) (assignments : List RoleAssignment) (members : List GroupMembership)
      (rows : List RolePolicy)
      → any (direct now pid type role_id) assignments ≡ false
      → any (through_group now pid type role_id members) assignments ≡ false
      → all (λ rp. not (str_eq rp.policy_id p.id) || str_eq rp.role_id role_id) rows ≡ true
      → any
          (λ rp.
            str_eq rp.policy_id p.id
            && (any (direct now pid type rp.role_id) assignments
                || any (through_group now pid type rp.role_id members) assignments))
          rows
        ≡ false
  no_row p assignments members [] h k only = refl
  no_row p assignments members (rp ∷ rows) h k only =
      elim (Bool-cases (str_eq rp.role_id role_id)) [
        | inl e ↦
            let at_role : rp.role_id ≡ role_id = ground (arith, e, eq_iff rp.role_id role_id) in
            rw at_role (ground (arith, h, k, only, no_row p assignments members rows h k))
        | inr e ↦ ground (arith, h, k, only, e, no_row p assignments members rows h k)
      ]

-- After the end of an assignment that succeeds, a policy that is attached to no other role is not
-- granted to the principal, at any time, if the principal is in no group.
pub unassign_role-granted :
    (call : Call) (role_id principal_id principal_type org_id : String) (t : Tables) (p : PolicyRow)
    (now : ℕ)
    → (unassign_role call role_id principal_id org_id t).0 ≡ none
    → all (λ rp. not (str_eq rp.policy_id p.id) || str_eq rp.role_id role_id) t.role_policies ≡ true
    → any
        (λ m. str_eq m.principal_id principal_id && str_eq m.principal_type principal_type)
        t.group_memberships
      ≡ false
    → granted now principal_id principal_type org_id
        (unassign_role call role_id principal_id org_id t).1
        p
      ≡ false
unfolding unassign_role granted holds_role
unassign_role-granted call role_id pid type org_id t p now k only outside =
    let t' = (unassigning role_id pid org_id t call.write_fails).1 in
    let (row, same, members) = unassigning-none role_id pid type org_id t call.write_fails now k in
    let nowhere : any (through_group now pid type role_id t'.group_memberships) t'.role_assignments
        ≡ false =
      any_none (through_group now pid type role_id t'.group_memberships) t'.role_assignments
        (λ a. no_member role_id pid type now t'.group_memberships a (rw members outside)) in
    let none_left : any
          (λ rp.
            str_eq rp.policy_id p.id
            && (any (direct now pid type rp.role_id) t'.role_assignments
                || any (through_group now pid type rp.role_id t'.group_memberships)
                    t'.role_assignments))
          t.role_policies
        ≡ false =
      no_row role_id pid type now p t'.role_assignments t'.group_memberships t.role_policies row
        nowhere only in
    ground (arith, same, none_left)
