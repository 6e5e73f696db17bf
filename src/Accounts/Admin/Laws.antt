-- ===== src/Accounts/Admin/Laws.antt =====
-- The first administrator is the only one that the bootstrap makes.
use monkeys_identity.Base.{
  ℕ, Bool, true, false, String, List, ◌∷◌, Option, none, some, any, find, update_where,
  find-update_where, find_sound, any-found, Kept, any-Kept, ◌&&◌, str_eq, ◌≡◌, refl, ap, sym, ◌∙◌,
  arith, eq_iff, Bool-cases, Option-cases, inl, inr,
}
use monkeys_identity.Platform.{Unicode}
use monkeys_identity.Accounts.{User, Role, Crypto, refused, answered}
use monkeys_identity.Accounts.Users.{
  is_live, get_user_by_email, create_user, Inserted, inserted, conflict, failed,
}
use monkeys_identity.Accounts.Roles.{check_admin_exists, is_admin_role}
use monkeys_identity.Accounts.Login.{normalized}
use monkeys_identity.Accounts.Recovery.{RegisterRequest, new_user}
use monkeys_identity.Accounts.Admin.{
  Tables, Bootstrap, admin_of, restored, ensure_admin_role, assign_admin, with_roles,
  ensure_organization, create_admin_user, admin_written, admin_hashed, admin_new, admin_checked,
  create_admin, assignment, chosen, same_assignment,
}

-- An administrator is there, as the check sees it.
abbrev HasAdmin : Tables → Type 0
HasAdmin t = check_admin_exists false t.roles t.role_assignments ≡ some true

-- The role that is found after the role was ensured is not deleted.
ensured_live :
    (b : Bootstrap) (org_id : String) (roles : List Role) (r : Role)
    → find (admin_of org_id) (ensure_admin_role b org_id roles) ≡ some r
    → is_live r.deleted_at ≡ true
unfolding ensure_admin_role find
ensured_live b org_id roles r h = elim (Bool-cases (any (admin_of org_id) roles)) [
  | inr e ↦ ground (arith, e, eq_iff org_id org_id)
  | inl e ↦
      let found : find (admin_of org_id) (update_where (admin_of org_id) restored roles) ≡ some r =
        ground (arith, e) in
      let seen = sym (find-update_where (admin_of org_id) restored (λ x. refl) roles) ∙ found in
      elim (Option-cases (find (admin_of org_id) roles)) [
        | inl none_left ↦ ground (arith, seen, none_left)
        | inr (row, there) ↦ ground (arith, seen, there)
      ]
]

assigned-HasAdmin :
    (b : Bootstrap) (user : User) (t t' : Tables) (roles : List Role)
    → t.roles ≡ ensure_admin_role b user.organization_id roles
    → assign_admin b user t (find (admin_of user.organization_id) t.roles) ≡ some t'
    → HasAdmin t'
unfolding check_admin_exists
assigned-HasAdmin b user t t' roles same h =
    let org_id = user.organization_id in
    elim (Option-cases (find (admin_of org_id) t.roles)) [
      | inl e ↦ ground (arith, e)
      | inr (r, e) ↦
          let live = ensured_live b org_id roles r (ap (find (admin_of org_id)) (sym same) ∙ e) in
          let named = find_sound (admin_of org_id) t.roles r e in
          let listed =
            any-found (admin_of org_id) (is_admin_role (assignment r.id user.id)) r t.roles e
              (ground (arith, live, named, eq_iff r.id r.id)) in
          elim (Bool-cases (any (same_assignment (assignment r.id user.id)) t.role_assignments)) [
            | inl double ↦ ground (arith, e, double)
            | inr new ↦
                let kept : t.roles ≡ t'.roles = ground (arith, e, new) in
                let added : assignment r.id user.id ∷ t.role_assignments ≡ t'.role_assignments =
                  ground (arith, e, new) in
                rw (← kept) (rw (← added) (ground (arith, listed)))
          ]
    ]

inserted-HasAdmin :
    (b : Bootstrap) (user : User) (t t' : Tables) (o : Inserted (List User))
    → with_roles b user t o ≡ some t'
    → HasAdmin t'
inserted-HasAdmin b user t t' conflict h = ground arith
inserted-HasAdmin b user t t' failed h = ground arith
inserted-HasAdmin b user t t' (inserted users') h =
    assigned-HasAdmin b user
      (record t { users = users'; roles = ensure_admin_role b user.organization_id t.roles }) t'
      t.roles refl h

-- the transaction
transaction-HasAdmin :
    (b : Bootstrap) (user : User) (t t' : Tables)
    → create_admin_user b user t ≡ some t'
    → HasAdmin t'
unfolding create_admin_user
transaction-HasAdmin b user t t' h = elim (Bool-cases b.transaction) [
  | inl down ↦ ground (arith, down)
  | inr up ↦ elim (Option-cases (ensure_organization b user.organization_id t)) [
    | inl e ↦ ground (arith, up, e)
    | inr (t1, e) ↦
        inserted-HasAdmin b (record user { organization_id = chosen b user.organization_id }) t1 t'
          (create_user false (record user { organization_id = chosen b user.organization_id })
            t1.users)
          (ground (arith, up, e))
  ]
]

written-HasAdmin :
    (cr : Crypto) (u : Unicode) (id : String) (b : Bootstrap) (user : User) (t t' : Tables)
    (o : Option Tables)
    → create_admin_user b user t ≡ o
    → admin_written cr u user t o ≡ (answered id, t')
    → HasAdmin t'
written-HasAdmin cr u id b user t t' none e h = ground arith
written-HasAdmin cr u id b user t t' (some t1) e h =
    transaction-HasAdmin b user t t' (e ∙ ap some (ap (λ r. r.1) h))

hashed-HasAdmin :
    (cr : Crypto) (u : Unicode) (id : String) (b : Bootstrap) (req : RegisterRequest)
    (t t' : Tables) (o : Option String)
    → admin_hashed cr u b req t o ≡ (answered id, t')
    → HasAdmin t'
hashed-HasAdmin cr u id b req t t' none h = ground arith
hashed-HasAdmin cr u id b req t t' (some hash) h =
    let user = record (new_user u b.user_id hash req) { email_verified = true } in
    written-HasAdmin cr u id b user t t' (create_admin_user b user t) refl h

new-HasAdmin :
    (cr : Crypto) (u : Unicode) (salt : ℕ) (id : String) (b : Bootstrap) (req : RegisterRequest)
    (t t' : Tables) (o : Option User)
    → admin_new cr u salt b req t o ≡ (answered id, t')
    → HasAdmin t'
new-HasAdmin cr u salt id b req t t' (some existing) h = ground arith
new-HasAdmin cr u salt id b req t t' none h =
    hashed-HasAdmin cr u id b req t t' (cr.generate_from_password salt req.password) h

checked-HasAdmin :
    (cr : Crypto) (u : Unicode) (salt : ℕ) (id : String) (b : Bootstrap) (req : RegisterRequest)
    (t t' : Tables) (o : Option Bool)
    → admin_checked cr u salt b req t o ≡ (answered id, t')
    → HasAdmin t'
checked-HasAdmin cr u salt id b req t t' none h = ground arith
checked-HasAdmin cr u salt id b req t t' (some true) h = ground arith
checked-HasAdmin cr u salt id b req t t' (some false) h =
    new-HasAdmin cr u salt id b req t t'
      (get_user_by_email b.read (normalized u req.email) req.organization_id t.users) h

-- What the check has seen it sees as long as the rows are there.
HasAdmin-Kept :
    (t t' : Tables)
    → Kept t.roles t'.roles
    → Kept t.role_assignments t'.role_assignments
    → HasAdmin t
    → HasAdmin t'
unfolding check_admin_exists
HasAdmin-Kept t t' roles rows h = ap some (
    any-Kept (λ a. str_eq a.principal_type "user" && any (is_admin_role a) t.roles)
      (λ a. str_eq a.principal_type "user" && any (is_admin_role a) t'.roles) t.role_assignments
      t'.role_assignments
      (λ a e.
        let still =
          any-Kept (is_admin_role a) (is_admin_role a) t.roles t'.roles (λ r e'. e') roles
            (ground (arith, e)) in
        ground (arith, e, still))
      rows (ground (arith, h)))

-- After the bootstrap made an administrator, as long as the rows of the roles and of their
-- assignments that it left are there unchanged, whatever else is added or changed, a later call
-- of it with a body that parses, where the tables can be read, is refused with 409 and changes
-- nothing.
pub create_admin_once :
    (cr : Crypto) (u : Unicode) (salt salt' : ℕ) (b b' : Bootstrap) (req req' : RegisterRequest)
    (id : String) (t left later : Tables)
    → create_admin cr u salt b (some req) t ≡ (answered id, left)
    → Kept left.roles later.roles
    → Kept left.role_assignments later.role_assignments
    → b'.read ≡ false
    → create_admin cr u salt' b' (some req') later
      ≡ (refused 409 "Admin user already exists in the system", later)
unfolding create_admin
create_admin_once cr u salt salt' b b' req req' id t left later h roles rows up =
    let there = HasAdmin-Kept left later roles rows (
      checked-HasAdmin cr u salt id b req t left
        (check_admin_exists b.read t.roles t.role_assignments) h) in
    rw (up, there) refl
