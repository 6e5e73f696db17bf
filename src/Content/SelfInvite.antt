-- ===== src/Content/SelfInvite.antt =====
-- An owner who invites himself.
use monkeys_identity.Base.{
  true, false, String, List, [], ◌∷◌, none, some, str_eq, any, all, ok, ◌≡◌, refl, arith, eq_iff,
  Bool-cases, inl, inr, update_where, any-update_where, update_where-none,
}
use monkeys_identity.Accounts.{answered, refused}
use monkeys_identity.Content.{ContentItem, ContentCollaborator, Store, Failing, Call}
use monkeys_identity.Content.Items.{Ended, add_collaborator, collaborator_of}
use monkeys_identity.Content.Handlers.{content_role, is_owner, finished}
use monkeys_identity.Content.Collaborators.{invite}
use monkeys_identity.Content.Owned.{well_formed, distinct, owns, row_sound}
use monkeys_identity.Content.Owner.{
  owned_by, owners_unique, content_role-Owner, guarded-passed, finished-answered,
}
use monkeys_identity.Content.Lockout.{ownerless, co_authored, has_row}

module _ (id : String) where
  rows_taken :
      (user_id : String) (items : List ContentItem) (c : ContentCollaborator)
      → distinct items ≡ true
      → any (owned_by id user_id) items ≡ true
      → collaborator_of id user_id c ≡ false
      → row_sound items c ≡ true
      → co_authored id c ≡ true
  rows_taken user_id items c d own other sound = elim (Bool-cases (str_eq c.content_id id)) [
    | inr e ↦ ground (arith, e)
    | inl e ↦ elim (Bool-cases (any (owns c) items)) [
      | inr e' ↦ ground (arith, e, e', sound)
      | inl e' ↦
          let at_id : c.content_id ≡ id = ground (arith, e, eq_iff c.content_id id) in
          let same = owners_unique id user_id c.user_id items d own (rw at_id at e') in
          ground (arith, e, same, other, eq_iff c.user_id user_id)
    ]
  ]

  module _ (user_id : String) where
    abbrev as_co_author : ContentCollaborator → ContentCollaborator
    as_co_author c = record c { role = "co-author" }

    rows_after :
        (items : List ContentItem) (rows : List ContentCollaborator)
        → distinct items ≡ true
        → any (owned_by id user_id) items ≡ true
        → all (row_sound items) rows ≡ true
        → all (co_authored id) (update_where (collaborator_of id user_id) as_co_author rows) ≡ true
    unfolding update_where
    rows_after items [] d own h = refl
    rows_after items (c ∷ rows) d own h = elim (Bool-cases (collaborator_of id user_id c)) [
      | inl e ↦ rw e (ground (arith, h, rows_after items rows d own))
      | inr e ↦
          rw e (ground (arith, h, rows_after items rows d own, rows_taken user_id items c d own e))
    ]

    -- No item has the id, so that no row is asked for.
    rows_free :
        (rows : List ContentCollaborator) (items : List ContentItem)
        → any (λ j. str_eq j.id id) items ≡ false
        → all (has_row id rows) items ≡ true
    rows_free rows [] h = refl
    rows_free rows (i ∷ is) h = ground (arith, h, rows_free rows is)

    owner_has_row :
        (rows : List ContentCollaborator) (items : List ContentItem)
        → distinct items ≡ true
        → any (owned_by id user_id) items ≡ true
        → any (collaborator_of id user_id) rows ≡ true
        → all (has_row id rows) items ≡ true
    owner_has_row rows [] d own h = refl
    owner_has_row rows (i ∷ is) d own h = elim (Bool-cases (str_eq i.id id)) [
      | inr e ↦ ground (arith, e, d, own, h, owner_has_row rows is)
      | inl e ↦
          let at_id : i.id ≡ id = ground (arith, e, eq_iff i.id id) in
          let free : any (λ j. str_eq j.id id) is ≡ false = ground (arith, d, at_id) in
          let same : user_id ≡ i.owner_id =
            owners_unique id user_id i.owner_id (i ∷ is) d own
              (ground (arith, e, eq_iff i.owner_id i.owner_id)) in
          ground (arith, h, same, rows_free rows is free)
    ]

    item_there :
        (items : List ContentItem)
        → any (owned_by id user_id) items ≡ true
        → any (λ j. str_eq j.id id) items ≡ true
    item_there [] h = ground (arith, h)
    item_there (i ∷ is) h = ground (arith, h, item_there is)

    add_self :
        (f : Failing) (invited_by : String) (s : Store)
        → well_formed s ≡ true
        → any (owned_by id user_id) s.content_items ≡ true
        → (add_collaborator f id user_id "co-author" invited_by s).0 ≡ none
        → ownerless id (add_collaborator f id user_id "co-author" invited_by s).1 ≡ true
    unfolding add_collaborator ownerless well_formed
    add_self f invited_by s w own h =
        let d : distinct s.content_items ≡ true = ground (arith, w) in
        let after = rows_after s.content_items s.content_collaborators d own (ground (arith, w)) in
        let rows' =
          update_where (collaborator_of id user_id) as_co_author s.content_collaborators in
        ground (
          arith,
          h,
          after,
          item_there s.content_items own,
          update_where-none (collaborator_of id user_id) as_co_author s.content_collaborators,
          any-update_where (collaborator_of id user_id) (collaborator_of id user_id) as_co_author
              (λ c. refl) s.content_collaborators,
          eq_iff id id,
          eq_iff user_id user_id,
          owner_has_row rows' s.content_items d own,
          owner_has_row
              (record {
                content_id = id;
                user_id = user_id;
                role = "co-author";
                invited_by = invited_by;
              }
                ∷ s.content_collaborators)
              s.content_items d own,
        )

  finished_store :
      {A : Type 0} (failure : String) (value : A) (e : Ended)
      → e.0 ≡ none
      → ownerless id e.1 ≡ true
      → ownerless id (finished failure value e).1 ≡ true
  finished_store failure value (none, s) n h = h
  finished_store failure value (some error, s) n h = h

  invited :
      (user_id role : String) (call : Call) (s : Store)
      → call.user_id ≡ some user_id
      → content_role call id s ≡ ok role
      → is_owner role ≡ true
      → str_eq user_id "" ≡ false
      → invite id call (some user_id) s
        ≡ finished "Failed to add collaborator" user_id
            (add_collaborator call.failing id user_id "co-author" user_id s)
  unfolding invite
  invited user_id role call s e r t n = rw (r, t) (rw (n, e) refl)

  invited_nobody :
      (user_id role : String) (call : Call) (s : Store)
      → content_role call id s ≡ ok role
      → is_owner role ≡ true
      → str_eq user_id "" ≡ true
      → invite id call (some user_id) s ≡ (refused 400 "user_id is required", s)
  unfolding invite
  invited_nobody user_id role call s r t n = rw (r, t) (rw n refl)

  invite_role :
      (user_id : String) (call : Call) (s : Store)
      → (invite id call (some user_id) s).0 ≡ answered user_id
      → (role : String) × (content_role call id s ≡ ok role) × (is_owner role ≡ true)
  unfolding invite
  invite_role user_id call s h =
      guarded-passed s _ is_owner _ (content_role call id s) _ user_id (λ b k. ground (arith, k)) h

  -- In well-formed tables, a caller whose invitation of himself succeeds leaves the item without
  -- an owner: every row of it is of a co-author, and its owner has one.
  pub invite-ownerless :
      (user_id : String) (call : Call) (s : Store)
      → well_formed s ≡ true
      → call.user_id ≡ some user_id
      → (invite id call (some user_id) s).0 ≡ answered user_id
      → ownerless id (invite id call (some user_id) s).1 ≡ true
  invite-ownerless user_id call s w e h =
      let (role, r, t) = invite_role user_id call s h in
      elim (Bool-cases (str_eq user_id "")) [
        | inl n ↦ let h' = rw (invited_nobody user_id role call s r t n) at h in ground (arith, h')
        | inr n ↦
            let end = add_collaborator call.failing id user_id "co-author" user_id s in
            let same = invited user_id role call s e r t n in
            let h' = rw same at h in
            let (done, same_answer) =
              finished-answered "Failed to add collaborator" user_id user_id end h' in
            rw same (
              finished_store "Failed to add collaborator" user_id end done (
                add_self user_id call.failing user_id s w
                  (content_role-Owner call id user_id role s w e r t) done))
      ]
