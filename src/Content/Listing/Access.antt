-- ===== src/Content/Listing/Access.antt =====
-- The list and the single item agree on who sees what.
use monkeys_identity.Base.{
  Bool, true, false, String, [], Option, none, some, str_eq, any, find, if◌then◌else◌, Result, ok,
  ◌≡◌, refl, ◌↔◌, ◌∙◌, arith, eq_iff, Bool-cases, inl, inr, find_sound, find-any, all-find,
  any-found,
}
use monkeys_identity.Accounts.{answered, refused}
use monkeys_identity.Content.{ContentItem, ContentCollaborator, Store, Call}
use monkeys_identity.Content.Items.{
  get_content, get_collaborator_role, item_of, collaborator_of, role_of,
}
use monkeys_identity.Content.Handlers.{
  show, content_role, owner_or_none, role_found, fallback_role, AccessFault, is_collaborator,
  no_access,
}
use monkeys_identity.Content.Owned.{well_formed, row_sound}
use monkeys_identity.Content.Listing.{visible}

-- The role that the check gives where every read succeeds.
abbrev role_given : String → ContentItem → Option ContentCollaborator → String
role_given user_id i none = if str_eq i.owner_id user_id then "owner" else ""
role_given user_id i (some c) = c.role

row_known :
    (id user_id : String) (s : Store) (c : ContentCollaborator)
    → well_formed s ≡ true
    → find (collaborator_of id user_id) s.content_collaborators ≡ some c
    → str_eq c.role "" ≡ false
unfolding well_formed
row_known id user_id s c w e = elim (Bool-cases (str_eq c.role "")) [
  | inr n ↦ n
  | inl n ↦
      let sound : row_sound s.content_items c ≡ true =
        all-find (row_sound s.content_items) (collaborator_of id user_id) s.content_collaborators c
          (ground (arith, w)) e in
      let empty : c.role ≡ "" = ground (arith, n, eq_iff c.role "") in
      let not_owner : str_eq c.role "owner" ≡ false = rw empty refl in
      let not_co_author : str_eq c.role "co-author" ≡ false = rw empty refl in
      ground (arith, sound, not_owner, not_co_author)
]

owner_or_none-given :
    (b : Bool)
    → if◌then◌else◌ {A = Result AccessFault String} b (ok "owner") (ok "")
      ≡ ok (if b then "owner" else "")
owner_or_none-given true = refl
owner_or_none-given false = refl

module _ (id org_id user_id : String) (call : Call) (s : Store) (i : ContentItem)
    (read_item : call.failing.read_item ≡ false) (read_access : call.failing.read_access ≡ false)
    (read_role : call.failing.read_role ≡ false) (user : call.user_id ≡ some user_id)
    (org : call.organization_id ≡ some org_id) (w : well_formed s ≡ true)
    (found : find (item_of id org_id) s.content_items ≡ some i) where
  fallback-given :
      fallback_role call id user_id s call.organization_id ≡ owner_or_none user_id (ok i)
  unfolding get_content
  fallback-given = rw org (ground (arith, read_access, found))

  role_found-given :
      (o : Option ContentCollaborator)
      → find (collaborator_of id user_id) s.content_collaborators ≡ o
      → role_found call id user_id s (ok (role_of o)) ≡ ok (role_given user_id i o)
  role_found-given none e = fallback-given ∙ owner_or_none-given (str_eq i.owner_id user_id)
  role_found-given (some c) e = rw (row_known id user_id s c w e) refl

  reads_row :
      (o : Option ContentCollaborator)
      → find (collaborator_of id user_id) s.content_collaborators ≡ o
      → get_collaborator_role call.failing id user_id s ≡ ok (role_of o)
  unfolding get_collaborator_role
  reads_row o e = rw e (ground (arith, read_role))

  content_role-given :
      (o : Option ContentCollaborator)
      → find (collaborator_of id user_id) s.content_collaborators ≡ o
      → content_role call id s ≡ ok (role_given user_id i o)
  unfolding content_role
  content_role-given o e = ground (arith, user, reads_row o e, role_found-given o e)

  shown_to :
      (o : Option ContentCollaborator)
      → find (collaborator_of id user_id) s.content_collaborators ≡ o
      → (show id call s).0 ≡ (
          if is_collaborator (role_given user_id i o)
          then answered (i, role_given user_id i o)
          else refused 403 no_access)
  unfolding show get_content
  shown_to o e = ground (arith, org, read_item, found, content_role-given o e)

  at_item : item_of id org_id i ≡ true
  at_item = find_sound (item_of id org_id) s.content_items i found

  at_id : i.id ≡ id
  at_id = ground (arith, at_item, eq_iff i.id id)

  one_row :
      (c : ContentCollaborator)
      → find (collaborator_of id user_id) s.content_collaborators ≡ some c
      → any (collaborator_of i.id user_id) s.content_collaborators ≡ true
  one_row c e = rw at_id (
      any-found (collaborator_of id user_id) (collaborator_of id user_id) c s.content_collaborators
        e (find_sound (collaborator_of id user_id) s.content_collaborators c e))

  no_rows :
      find (collaborator_of id user_id) s.content_collaborators ≡ none
      → any (collaborator_of i.id user_id) s.content_collaborators ≡ false
  no_rows e =
      rw at_id (elim (Bool-cases (any (collaborator_of id user_id) s.content_collaborators)) [
        | inl y ↦
            let (c, y') = find-any (collaborator_of id user_id) s.content_collaborators y in
            ground (arith, e, y')
        | inr y ↦ y
      ])

  visible-role :
      (o : Option ContentCollaborator)
      → find (collaborator_of id user_id) s.content_collaborators ≡ o
      → visible s.content_collaborators org_id user_id [] i
        ≡ is_collaborator (role_given user_id i o)
  visible-role none e = elim (Bool-cases (str_eq i.owner_id user_id)) [
    | inl o ↦ rw o (ground (arith, at_item, o))
    | inr o ↦ rw o (ground (arith, at_item, o, no_rows e))
  ]
  visible-role (some c) e = ground (arith, at_item, row_known id user_id s c w e, one_row c e)

  -- Where the tables are well formed and every read succeeds, an item of the caller's
  -- organization is in the caller's list without a filter exactly if the request for the single
  -- item answers with it.
  pub visible-show :
      (visible s.content_collaborators org_id user_id [] i ≡ true)
      ↔ ((role : String) × ((show id call s).0 ≡ answered (i, role)))
  visible-show =
      let o = find (collaborator_of id user_id) s.content_collaborators in
      (
        (λ h. (role_given user_id i o, ground (arith, h, shown_to o refl, visible-role o refl))),
        (λ (role, h). ground (arith, h, shown_to o refl, visible-role o refl)),
      )
