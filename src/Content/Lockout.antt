-- ===== src/Content/Lockout.antt =====
-- Content whose owner has become a co-author.
use monkeys_identity.Base.{
  ℕ, Bool, true, false, not, ◌&&◌, ◌||◌, String, Text, List, [], ◌∷◌, Option, none, some, str_eq,
  any, all, find, filter, update_where, ok, ◌≡◌, refl, arith, eq_iff, Bool-cases, Option-cases, inl,
  inr, any-update_where, all-update_where, all-filter, all_mono, all-find, find_sound, find-any,
}
use monkeys_identity.Content.{ContentItem, ContentCollaborator, Store, Failing, Call}
use monkeys_identity.Content.Items.{
  create_content, get_content, update_content_status, add_collaborator, removing, write_items,
  item_of, collaborator_of, removable, has_item, with_status, get_collaborator_role, role_of,
  found_item,
}
use monkeys_identity.Content.Handlers.{content_role, is_owner, role_found, owner_or_none}
use monkeys_identity.Content.Owned.{KeepsOwner}

abbrev pub co_authored : String → ContentCollaborator → Bool
co_authored id c = not (str_eq c.content_id id) || str_eq c.role "co-author"

abbrev pub has_row : String → List ContentCollaborator → ContentItem → Bool
has_row id rows i = not (str_eq i.id id) || any (collaborator_of id i.owner_id) rows

-- The item is there, all its rows are of co-authors, and its owner has one of them.
unfoldable pub ownerless : String → Store → Bool
ownerless id s =
    has_item id s
    && all (co_authored id) s.content_collaborators
    && all (has_row id s.content_collaborators) s.content_items

abbrev Ownerless : String → Store → Type 0
Ownerless id s = ownerless id s ≡ true

module _ (id : String) where
  found-none :
      (user_id org_id role : String) (s : Store) (o : Option ContentItem)
      → Ownerless id s
      → find (item_of id org_id) s.content_items ≡ o
      → any (collaborator_of id user_id) s.content_collaborators ≡ false
      → owner_or_none user_id (found_item o) ≡ ok role
      → is_owner role ≡ false
  unfolding ownerless
  found-none user_id org_id role s none h e r k = ground (arith, k)
  found-none user_id org_id role s (some i) h e r k =
      elim (Bool-cases (str_eq i.owner_id user_id)) [
        | inl o ↦
            let same : i.owner_id ≡ user_id = ground (arith, o, eq_iff i.owner_id user_id) in
            let row : has_row id s.content_collaborators i ≡ true =
              all-find (has_row id s.content_collaborators) (item_of id org_id) s.content_items i
                (ground (arith, h)) e in
            let r' = rw (← same) at r in
            ground (arith, row, r', find_sound (item_of id org_id) s.content_items i e)
        | inr o ↦ let none_left : "" ≡ role = ground (arith, k, o) in rw (← none_left) refl
      ]

  row-none :
      (call : Call) (user_id role : String) (s : Store) (o : Option ContentCollaborator)
      → Ownerless id s
      → find (collaborator_of id user_id) s.content_collaborators ≡ o
      → role_found call id user_id s (ok (role_of o)) ≡ ok role
      → is_owner role ≡ false
  unfolding ownerless get_content
  row-none call user_id role s (some c) h e k =
      let at_row = find_sound (collaborator_of id user_id) s.content_collaborators c e in
      let co : co_authored id c ≡ true =
        all-find (co_authored id) (collaborator_of id user_id) s.content_collaborators c
          (ground (arith, h)) e in
      let r : c.role ≡ "co-author" = ground (arith, co, at_row, eq_iff c.role "co-author") in
      let k' = rw r at k in let same : "co-author" ≡ role = ground (arith, k') in rw (← same) refl
  row-none call user_id role s none h e k = elim (Option-cases call.organization_id) [
    | inl e' ↦ ground (arith, k, e')
    | inr (org_id, e') ↦ elim (Bool-cases call.failing.read_access) [
      | inl f ↦ ground (arith, k, e', f)
      | inr f ↦
          let no_row : any (collaborator_of id user_id) s.content_collaborators ≡ false =
            (elim (Bool-cases (any (collaborator_of id user_id) s.content_collaborators)) [
              | inl y ↦
                  let (c, y') = find-any (collaborator_of id user_id) s.content_collaborators y in
                  ground (arith, e, y')
              | inr y ↦ y
            ]) in
          found-none user_id org_id role s (find (item_of id org_id) s.content_items) h refl no_row
            (ground (arith, k, e', f))
    ]
  ]

  -- Nobody has the role of the owner.
  pub content_role-none :
      (call : Call) (role : String) (s : Store)
      → Ownerless id s
      → content_role call id s ≡ ok role
      → is_owner role ≡ false
  unfolding content_role get_collaborator_role
  content_role-none call role s h k = elim (Option-cases call.user_id) [
    | inl e ↦ ground (arith, k, e)
    | inr (user_id, e) ↦ elim (Bool-cases call.failing.read_role) [
      | inl f ↦ ground (arith, k, e, f)
      | inr f ↦
          row-none call user_id role s (find (collaborator_of id user_id) s.content_collaborators) h
            refl (ground (arith, k, e, f))
    ]
  ]

  module _ (q : ContentItem → Bool) (g : ContentItem → ContentItem) (keeps : KeepsOwner g) where
    items-kept :
        (s : Store)
        → Ownerless id s
        → Ownerless id (record s { content_items = update_where q g s.content_items })
    unfolding ownerless
    items-kept s h = ground (
      arith,
      h,
      any-update_where (λ j. str_eq j.id id) q g (λ i. ground (arith, (keeps i).0)) s.content_items,
      all-update_where (has_row id s.content_collaborators) q g
          (λ i e k. rw ((keeps i).0, (keeps i).1) k) s.content_items,
    )

  pub write_items-kept :
      (f : Failing) (id' org_id : String) (g : ContentItem → ContentItem) (s : Store)
      → KeepsOwner g
      → Ownerless id s
      → Ownerless id (write_items f id' org_id g s).1
  write_items-kept f id' org_id g s keeps h =
      ground (arith, h, items-kept (item_of id' org_id) g keeps s h)

  pub update_content_status-kept :
      (f : Failing) (now : ℕ) (id' org_id : String) (status : Text) (s : Store)
      → Ownerless id s
      → Ownerless id (update_content_status f now id' org_id status s).1
  unfolding update_content_status
  update_content_status-kept f now id' org_id status s h = ground (
    arith,
    h,
    write_items-kept f id' org_id (with_status now status) s (λ i. (ground arith, ground arith)) h,
  )

  -- Rows that are only added or rewritten as those of co-authors.
  rows-kept :
      (s : Store) (rows : List ContentCollaborator)
      → Ownerless id s
      → all (co_authored id) rows ≡ true
      → ((user_id : String)
          → any (collaborator_of id user_id) s.content_collaborators ≡ true
          → any (collaborator_of id user_id) rows ≡ true)
      → Ownerless id (record s { content_collaborators = rows })
  unfolding ownerless
  rows-kept s rows h co more = ground (
    arith,
    h,
    co,
    all_mono (has_row id s.content_collaborators) (has_row id rows)
        (λ i k. ground (arith, k, more i.owner_id)) s.content_items,
  )

  -- A row for this item as a co-author's, and any row for another item.
  pub add_collaborator-kept :
      (f : Failing) (id' user_id role invited_by : String) (s : Store)
      → not (str_eq id' id) || str_eq role "co-author" ≡ true
      → Ownerless id s
      → Ownerless id (add_collaborator f id' user_id role invited_by s).1
  unfolding add_collaborator ownerless
  add_collaborator-kept f id' user_id role invited_by s k h =
      let rows =
        update_where (collaborator_of id' user_id) (λ c. record c { role = role })
          s.content_collaborators in
      ground (
        arith,
        h,
        k,
        rows-kept s rows h
            (all-update_where (co_authored id) (collaborator_of id' user_id)
              (λ c. record c { role = role })
              (λ c e e'. ground (arith, e, e', k, eq_iff c.content_id id')) s.content_collaborators
              (ground (arith, h)))
            (λ user e. ground (
              arith,
              e,
              any-update_where (collaborator_of id user) (collaborator_of id' user_id)
                  (λ c. record c { role = role }) (λ c. refl) s.content_collaborators,
            )),
        rows-kept s
            (record { content_id = id'; user_id = user_id; role = role; invited_by = invited_by }
              ∷ s.content_collaborators)
            h (ground (arith, h, k)) (λ user e. ground (arith, e)),
      )

  any-filter_other :
      (id' target user_id : String) (rows : List ContentCollaborator)
      → str_eq id' id ≡ false
      → any (collaborator_of id user_id) rows ≡ true
      → any (collaborator_of id user_id) (filter (λ c. not (removable id' target c)) rows) ≡ true
  unfolding filter
  any-filter_other id' target user_id [] k h = ground (arith, h)
  any-filter_other id' target user_id (c ∷ rows) k h = ground (
    arith,
    h,
    k,
    any-filter_other id' target user_id rows k,
    eq_iff c.content_id id,
    eq_iff c.content_id id',
  )

  pub removing-kept :
      (id' target : String) (s : Store) (failure : Option Text)
      → str_eq id' id ≡ false
      → Ownerless id s
      → Ownerless id (removing id' target s failure).1
  unfolding ownerless
  removing-kept id' target s (some failure) k h = h
  removing-kept id' target s none k h =
      let rows = filter (λ c. not (removable id' target c)) s.content_collaborators in
      ground (
        arith,
        h,
        k,
        rows-kept s rows h
            (all-filter (co_authored id) (λ c. not (removable id' target c)) s.content_collaborators
              (ground (arith, h)))
            (λ user e. any-filter_other id' target user s.content_collaborators k e),
      )

  pub create_content-kept :
      (f : Failing) (item : ContentItem) (s : Store)
      → Ownerless id s
      → Ownerless id (create_content f item s).1
  unfolding create_content ownerless
  create_content-kept f item s h = elim (Bool-cases (str_eq item.id id)) [
    | inl e ↦
        let same : item.id ≡ id = ground (arith, e, eq_iff item.id id) in ground (arith, h, same)
    | inr e ↦ ground (arith, h, e)
  ]
