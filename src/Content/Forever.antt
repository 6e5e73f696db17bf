-- ===== src/Content/Forever.antt =====
-- Content without an owner stays so.
use monkeys_identity.Base.{
  true, String, Text, [], Option, none, some, str_eq, Result, ok, err, ◌≡◌, refl, arith, eq_iff,
  Bool-cases, inl, inr, text_eq,
}
use monkeys_identity.Platform.{Unicode, trim_space, to_lower}
use monkeys_identity.Accounts.{Reply}
use monkeys_identity.Content.{ContentItem, Store, Call}
use monkeys_identity.Content.Items.{
  Ended, create_content, get_content, update_content, rewritten, deleted, removing, delete_content,
  remove_collaborator,
}
use monkeys_identity.Content.Handlers.{
  CreateRequest, UpdateRequest, create, update, update_status, delete, content_role, is_owner,
  guarded, is_valid_content_type, chosen_type, created, new_item, merged, update_found,
}
use monkeys_identity.Content.Collaborators.{remove, invite, removed}
use monkeys_identity.Content.Guard.{local-keeps, parsed-keeps, guarded-keeps, finished-keeps}
use monkeys_identity.Content.Reach.{
  Step, by_create, by_update, by_update_status, by_delete, by_invite, by_remove, Reachable,
  at_start, after,
}
use monkeys_identity.Content.Lockout.{
  ownerless, content_role-none, write_items-kept, update_content_status-kept, add_collaborator-kept,
  removing-kept, create_content-kept,
}

module _ (id : String) where
  abbrev Ownerless : Store → Type 0
  Ownerless s = ownerless id s ≡ true

  -- The guard of an owner is not passed for this item.
  at_guard :
      (P : Store → Type 0) {A : Type 0} (unread : Reply A) (denied : String) (call : Call)
      (later : String → Reply A × Store) (s : Store)
      → Ownerless s
      → P s
      → P (guarded s unread is_owner denied (content_role call id s) later).1
  at_guard P unread denied call later s h p =
      guarded-keeps P s p unread is_owner denied (content_role call id s) later
        (λ role e t. absurd (ground (arith, t, content_role-none id call role s h e)))

  -- What is done by the owner alone leaves everything as it is.
  pub delete-none : (call : Call) (s : Store) → Ownerless s → (delete id call s).1 ≡ s
  unfolding delete
  delete-none call s h =
      local-keeps (λ s'. s' ≡ s) s refl call.organization_id _
        (λ org_id e. at_guard (λ s'. s' ≡ s) _ _ call _ s h refl)

  pub invite-none :
      (call : Call) (body : Option String) (s : Store) → Ownerless s → (invite id call body s).1 ≡ s
  unfolding invite
  invite-none call body s h = at_guard (λ s'. s' ≡ s) _ _ call _ s h refl

  module _ (u : Unicode) where
    pub remove-none :
        (target : String) (call : Call) (s : Store)
        → Ownerless s
        → (remove u id target call s).1 ≡ s
    unfolding remove
    remove-none target call s h = at_guard (λ s'. s' ≡ s) _ _ call _ s h refl

    created-kept :
        (call : Call) (item : ContentItem) (user_id : String) (s : Store)
        → Ownerless s
        → Ownerless (created u call item user_id (create_content call.failing item s)).1
    unfolding create_content ownerless
    created-kept call item user_id s h = elim (Bool-cases (str_eq item.id id)) [
      | inl e ↦
          let same : item.id ≡ id = ground (arith, e, eq_iff item.id id) in ground (arith, h, same)
      | inr e ↦ ground (
        arith,
        h,
        e,
        create_content-kept id call.failing item s h,
        add_collaborator-kept id call.failing item.id user_id "owner" user_id
            (create_content call.failing item s).1,
      )
    ]

    create-kept :
        (id' : String) (call : Call) (body : Option CreateRequest) (s : Store)
        → Ownerless s
        → Ownerless (create u id' call body s).1
    unfolding create
    create-kept id' call body s h = parsed-keeps Ownerless s h body _ (λ req.
        elim (Bool-cases (text_eq (trim_space req.title) [])) [
          | inl e ↦ rw e h
          | inr e ↦ elim (Bool-cases (is_valid_content_type (chosen_type u req.content_type))) [
            | inl e' ↦
                rw (e, e')
                  (local-keeps Ownerless s h call.user_id _ (λ user_id eu.
                    local-keeps Ownerless s h call.organization_id _ (λ org_id eo.
                      created-kept call (new_item u id' req user_id org_id) user_id s h)))
            | inr e' ↦ rw (e, e') h
          ]
        ])

    update_found-kept :
        (call : Call) (req : UpdateRequest) (org_id : String) (s : Store)
        (found : Result Text ContentItem)
        → Ownerless s
        → Ownerless (update_found u call req org_id s found).1
    unfolding update_content
    update_found-kept call req org_id s (err failure) h = h
    update_found-kept call req org_id s (ok item) h = finished-keeps Ownerless _ _ _ (
        write_items-kept id call.failing (merged u req item).id org_id
          (rewritten (merged u req item)) s (λ i. (refl, refl)) h)

    update-kept :
        (id' : String) (call : Call) (body : Option UpdateRequest) (s : Store)
        → Ownerless s
        → Ownerless (update u id' call body s).1
    unfolding update
    update-kept id' call body s h = local-keeps Ownerless s h call.organization_id _ (λ org_id eo.
        guarded-keeps Ownerless s h _ _ _ (content_role call id' s) _ (λ role e t.
          parsed-keeps Ownerless s h body _ (λ req.
            update_found-kept call req org_id s (get_content call.failing.read_item id' org_id s)
              h)))

    update_status-kept :
        (id' : String) (call : Call) (body : Option Text) (s : Store)
        → Ownerless s
        → Ownerless (update_status u id' call body s).1
    unfolding update_status
    update_status-kept id' call body s h =
        local-keeps Ownerless s h call.organization_id _ (λ org_id eo.
          guarded-keeps Ownerless s h _ _ _ (content_role call id' s) _ (λ role e t.
            parsed-keeps Ownerless s h body _ (λ given. ground (
              arith,
              h,
              update_content_status-kept id call.failing call.now id' org_id (to_lower u given) s h,
            ))))

    delete-kept :
        (id' : String) (call : Call) (s : Store) → Ownerless s → Ownerless (delete id' call s).1
    unfolding delete delete_content
    delete-kept id' call s h = local-keeps Ownerless s h call.organization_id _ (λ org_id eo.
        guarded-keeps Ownerless s h _ _ _ (content_role call id' s) _ (λ role e t.
          finished-keeps Ownerless _ _ _ (
            write_items-kept id call.failing id' org_id (deleted call.now) s (λ i. (refl, refl))
              h)))

    invite-kept :
        (id' : String) (call : Call) (body : Option String) (s : Store)
        → Ownerless s
        → Ownerless (invite id' call body s).1
    unfolding invite
    invite-kept id' call body s h =
        guarded-keeps Ownerless s h _ _ _ (content_role call id' s) _ (λ role e t.
          parsed-keeps Ownerless s h body _ (λ user_id. elim (Bool-cases (str_eq user_id "")) [
            | inl e' ↦ rw e' h
            | inr e' ↦ rw e' (
                local-keeps Ownerless s h call.user_id _ (λ invited_by eu.
                  finished-keeps Ownerless _ _ _ (
                    add_collaborator-kept id call.failing id' user_id "co-author" invited_by s
                      (ground arith) h)))
          ]))

    removed-kept : (e : Ended) → Ownerless e.1 → Ownerless (removed u e).1
    removed-kept (none, s) h = h
    removed-kept (some failure, s) h = ground (arith, h)

    remove-kept :
        (id' target : String) (call : Call) (s : Store)
        → Ownerless s
        → Ownerless (remove u id' target call s).1
    unfolding remove remove_collaborator
    remove-kept id' target call s h = elim (Bool-cases (str_eq id' id)) [
      | inl e ↦
          let same : id' ≡ id = ground (arith, e, eq_iff id' id) in
          rw same (at_guard Ownerless _ _ call _ s h h)
      | inr e ↦ guarded-keeps Ownerless s h _ _ _ (content_role call id' s) _ (λ role k t.
          removed-kept (removing id' target s call.failing.remove_collaborator)
            (removing-kept id id' target s call.failing.remove_collaborator e h))
    ]

    Step-kept : (s s' : Store) → Step u s s' → Ownerless s → Ownerless s'
    Step-kept s _ (by_create id' call body) h = create-kept id' call body s h
    Step-kept s _ (by_update id' call body) h = update-kept id' call body s h
    Step-kept s _ (by_update_status id' call body) h = update_status-kept id' call body s h
    Step-kept s _ (by_delete id' call) h = delete-kept id' call s h
    Step-kept s _ (by_invite id' call body) h = invite-kept id' call body s h
    Step-kept s _ (by_remove id' target call) h = remove-kept id' target call s h

    Reachable-kept : (start s : Store) → Ownerless start → Reachable u start s → Ownerless s
    Reachable-kept start _ h at_start = h
    Reachable-kept start _ h (after s s' r step) = Step-kept s s' step (Reachable-kept start s h r)

    -- From a store where an item has no owner, whatever requests follow each other, no request to
    -- delete it, to invite to it or to remove a collaborator of it ever changes the store again.
    pub ownerless_forever :
        (start s : Store)
        → ownerless id start ≡ true
        → Reachable u start s
        → (call : Call) (body : Option String) (target : String)
        → ((delete id call s).1 ≡ s)
          × ((invite id call body s).1 ≡ s)
          × ((remove u id target call s).1 ≡ s)
    ownerless_forever start s h r call body target =
        let h' = Reachable-kept start s h r in
        (delete-none call s h', invite-none call body s h', remove-none target call s h')
