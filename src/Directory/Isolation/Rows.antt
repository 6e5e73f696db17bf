-- ===== src/Directory/Isolation/Rows.antt =====
-- The rows that a statement of one organization changes, and the grants of another one.
use monkeys_identity.Base.{
  ℕ, Bool, true, false, not, ◌&&◌, String, List, ◌∷◌, Option, none, some, str_eq, any, all, filter,
  update_where, ◌≡◌, refl, arith, eq_iff, Bool-cases, inl, inr, any_agree, any-filter_at,
  any-update_at,
}
use monkeys_identity.Directory.{Role, RolePolicy, RoleAssignment, PolicyRow, Tables}
use monkeys_identity.Directory.Roles.{
  attaching, detaching, assigning, unassigning, has_role, policy_in, attached_to, assignment_of,
  assigned_to, reassigned, inserted_role, write_roles, live_role_in,
}
use monkeys_identity.Directory.Grants.{direct, through_group, holds_role, granted}
use monkeys_identity.Directory.Isolation.{
  of_one_org, well_attached, policy_elsewhere, role_org, elsewhere, every_row, flipped,
}

-- In well-attached tables, a role of `a` has no policy of `b`.
module _ (a b : String) (apart : str_eq a b ≡ false) (t : Tables) (w : well_attached t ≡ true) where
  foreign_policy :
      (id : String)
      → any (policy_in id b) t.policies ≡ true
      → any (policy_in id a) t.policies ≡ false
  unfolding well_attached
  foreign_policy id h = elim (Bool-cases (any (policy_in id a) t.policies)) [
    | inr e ↦ e
    | inl e ↦ ground (arith, h, policy_elsewhere id a b t.policies apart (ground (arith, w)) e)
  ]

  foreign_row :
      (role : String) (rp : RolePolicy) (p : PolicyRow)
      → has_role role a t ≡ true
      → any (policy_in p.id b) t.policies ≡ true
      → of_one_org t.roles t.policies rp ≡ true
      → str_eq rp.role_id role ≡ true
      → str_eq rp.policy_id p.id ≡ false
  unfolding well_attached
  foreign_row role rp p r h k e =
      let at_role : rp.role_id ≡ role = ground (arith, e, eq_iff rp.role_id role) in
      let here : any (policy_in rp.policy_id a) t.policies ≡ true =
        role_org a rp t.roles t.policies (ground (arith, w)) (rw at_role r) k in
      elim (Bool-cases (str_eq rp.policy_id p.id)) [
        | inr n ↦ n
        | inl y ↦
            let same : rp.policy_id ≡ p.id = ground (arith, y, eq_iff rp.policy_id p.id) in
            ground (arith, foreign_policy p.id h, rw same at here)
      ]

  module _ (now : ℕ) (pid type : String) where
    -- What the principal has of `b` is as before.
    abbrev pub SameGrants : Tables → Type 0
    SameGrants t' =
        (t'.policies ≡ t.policies)
        × ((p : PolicyRow)
            → any (policy_in p.id b) t.policies ≡ true
            → granted now pid type b t' p ≡ granted now pid type b t p)

    abbrev asks : Tables → PolicyRow → RolePolicy → Bool
    asks t' p rp = str_eq rp.policy_id p.id && holds_role now pid type t' rp.role_id

    pub attaching-same :
        (role policy by : String) (f : Option (List ℕ))
        → SameGrants (attaching role policy a by t f).1
    unfolding granted
    attaching-same role policy by (some failure) = (refl, λ p h. refl)
    attaching-same role policy by none = (
      ground arith,
      λ p h. elim (Bool-cases (str_eq policy p.id)) [
        | inl e ↦
            let same : policy ≡ p.id = ground (arith, e, eq_iff policy p.id) in
            ground (arith, foreign_policy p.id h, same)
        | inr e ↦ ground (arith, e)
      ],
    )

    rows_of_one_org : all (of_one_org t.roles t.policies) t.role_policies ≡ true
    unfolding well_attached
    rows_of_one_org = ground (arith, w)

    pub detaching-same :
        (role policy : String) (f : Option (List ℕ)) → SameGrants (detaching role policy a t f).1
    unfolding granted holds_role
    detaching-same role policy (some failure) = (refl, λ p h. refl)
    detaching-same role policy none = (
      ground arith,
      λ p h. elim (Bool-cases (has_role role a t)) [
        | inr e ↦ ground (arith, e)
        | inl e ↦ ground (
          arith,
          e,
          any-filter_at (of_one_org t.roles t.policies) (asks t p)
              (λ rp. not (attached_to role policy rp))
              (λ rp k n. ground (arith, foreign_row role rp p e h k, n)) t.role_policies
              rows_of_one_org,
        )
      ],
    )

    -- Other assignments, which agree on every role but this one.
    reassigned-same :
        (role : String) (t' : Tables) (p : PolicyRow)
        → has_role role a t ≡ true
        → any (policy_in p.id b) t.policies ≡ true
        → ((other : String)
            → str_eq role other ≡ false
            → holds_role now pid type t' other ≡ holds_role now pid type t other)
        → any (asks t' p) t.role_policies ≡ any (asks t p) t.role_policies
    reassigned-same role t' p r h same =
        any_agree (of_one_org t.roles t.policies) (asks t' p) (asks t p)
          (λ rp k. elim (Bool-cases (str_eq rp.role_id role)) [
            | inl e ↦ ground (arith, foreign_row role rp p r h k e)
            | inr e ↦ ground (arith, same rp.role_id (flipped rp.role_id role e))
          ])
          t.role_policies rows_of_one_org

    -- The same members, and assignments that differ in rows of this role alone.
    holds_other :
        (role other : String) (rows : List RoleAssignment)
        → ((P : RoleAssignment → Bool)
            → ((x : RoleAssignment) → str_eq x.role_id role ≡ true → P x ≡ false)
            → any P rows ≡ any P t.role_assignments)
        → str_eq role other ≡ false
        → holds_role now pid type (record t { role_assignments = rows }) other
          ≡ holds_role now pid type t other
    unfolding holds_role
    holds_other role other rows same n = ground (
      arith,
      same (direct now pid type other) (λ x e. ground (arith, elsewhere x.role_id role other e n)),
      same (through_group now pid type other t.group_memberships)
          (λ x e. ground (arith, elsewhere x.role_id role other e n)),
    )

    pub assigning-same :
        (x : RoleAssignment) (f : Option (List ℕ)) → SameGrants (assigning x a t f).1
    unfolding granted
    assigning-same x (some failure) = (refl, λ p h. refl)
    assigning-same x none =
        let of = assignment_of x.role_id x.principal_id x.principal_type in
        (
          ground arith,
          λ p h. elim (Bool-cases (has_role x.role_id a t)) [
            | inr e ↦ ground (arith, e)
            | inl e ↦
                let updated = update_where of (reassigned x) t.role_assignments in
                ground (
                  arith,
                  e,
                  reassigned-same x.role_id (record t { role_assignments = updated }) p e h
                      (λ other n.
                        holds_other x.role_id other updated
                          (λ P apart'.
                            any-update_at P of (reassigned x)
                              (λ y k. ground (arith, k, apart' y, apart' (reassigned x y)))
                              t.role_assignments)
                          n),
                  reassigned-same x.role_id (record t { role_assignments = x ∷ t.role_assignments })
                      p e h
                      (λ other n.
                        holds_other x.role_id other (x ∷ t.role_assignments)
                          (λ P apart'. ground (arith, apart' x, eq_iff x.role_id x.role_id)) n),
                )
          ],
        )

    pub unassigning-same :
        (role target : String) (f : Option (List ℕ)) → SameGrants (unassigning role target a t f).1
    unfolding granted
    unassigning-same role target (some failure) = (refl, λ p h. refl)
    unassigning-same role target none = (
      ground arith,
      λ p h. elim (Bool-cases (has_role role a t)) [
        | inr e ↦ ground (arith, e)
        | inl e ↦
            let kept_rows = filter (λ x. not (assigned_to role target x)) t.role_assignments in
            ground (
              arith,
              e,
              reassigned-same role (record t { role_assignments = kept_rows }) p e h
                  (λ other n.
                    holds_other role other kept_rows
                      (λ P apart'.
                        any-filter_at (λ x. true) P (λ x. not (assigned_to role target x))
                          (λ x k n'. ground (arith, n', apart' x)) t.role_assignments
                          (every_row t.role_assignments))
                      n),
            )
      ],
    )

    -- Roles are not looked at.
    roles-same : (rows : List Role) → SameGrants (record t { roles = rows })
    unfolding granted holds_role
    roles-same rows = (refl, λ p h. refl)

    pub write_roles-same :
        (id org : String) (conflict : Bool) (g : Role → Role) (f : Option (List ℕ))
        → SameGrants (write_roles id org conflict g t f).1
    write_roles-same id org conflict g (some failure) = (refl, λ p h. refl)
    write_roles-same id org conflict g none = (
      ground arith,
      λ p h. ground (arith, (roles-same (update_where (live_role_in id org) g t.roles)).1 p h),
    )

    pub inserted-same : (r : Role) (f : Option (List ℕ)) → SameGrants (inserted_role r t f).1
    inserted-same r (some failure) = (refl, λ p h. refl)
    inserted-same r none = (ground arith, λ p h. ground (arith, (roles-same (r ∷ t.roles)).1 p h))
