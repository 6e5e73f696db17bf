-- ===== src/Content/Reach.antt =====
-- The requests that change the content as a step relation, and what holds in every store that they
-- lead to.
use monkeys_identity.Base.{
  true, String, Text, [], Option, none, some, str_eq, Result, ok, err, ◌≡◌, arith, eq_iff,
  Bool-cases, inl, inr, text_eq,
}
use monkeys_identity.Platform.{Unicode, trim_space, to_lower}
use monkeys_identity.Content.{ContentItem, Store, Call}
use monkeys_identity.Content.Items.{Ended, create_content, get_content, remove_collaborator}
use monkeys_identity.Content.Handlers.{
  CreateRequest, UpdateRequest, create, update, update_status, delete, content_role,
  is_valid_content_type, chosen_type, created, new_item, merged, update_found,
}
use monkeys_identity.Content.Collaborators.{remove, invite, removed}
use monkeys_identity.Content.Guard.{local-keeps, parsed-keeps, guarded-keeps, finished-keeps}
use monkeys_identity.Content.Owned.{
  well_formed, update_content-kept, delete_content-kept, update_content_status-kept,
  remove_collaborator-kept, add_collaborator-kept, create_content-kept, add_owner-kept,
}

module _ (u : Unicode) where
  -- One request, whoever sends it, whatever it carries and whichever calls fail.
  pub data Step (s : Store) : Store → Type 0 where
    by_create :
        (id : String) (call : Call) (body : Option CreateRequest)
        → Step s (create u id call body s).1
    by_update :
        (id : String) (call : Call) (body : Option UpdateRequest)
        → Step s (update u id call body s).1
    by_update_status :
        (id : String) (call : Call) (body : Option Text) → Step s (update_status u id call body s).1
    by_delete : (id : String) (call : Call) → Step s (delete id call s).1
    by_invite :
        (id : String) (call : Call) (body : Option String) → Step s (invite id call body s).1
    by_remove : (id target : String) (call : Call) → Step s (remove u id target call s).1

  pub data Reachable (start : Store) : Store → Type 0 where
    at_start : Reachable start start
    after : (s s' : Store) → Reachable start s → Step s s' → Reachable start s'

abbrev WellFormed : Store → Type 0
WellFormed s = well_formed s ≡ true

module _ (u : Unicode) where
  created-kept :
      (call : Call) (item : ContentItem) (s : Store)
      → WellFormed s
      → WellFormed (created u call item item.owner_id (create_content call.failing item s)).1
  unfolding create_content
  created-kept call item s h = ground (
    arith,
    h,
    eq_iff item.id item.id,
    eq_iff item.owner_id item.owner_id,
    create_content-kept call.failing item s h,
    add_owner-kept call.failing item (create_content call.failing item s).1,
  )

  create-kept :
      (id : String) (call : Call) (body : Option CreateRequest) (s : Store)
      → WellFormed s
      → WellFormed (create u id call body s).1
  unfolding create new_item
  create-kept id call body s h = parsed-keeps WellFormed s h body _ (λ req.
      elim (Bool-cases (text_eq (trim_space req.title) [])) [
        | inl e ↦ rw e h
        | inr e ↦ elim (Bool-cases (is_valid_content_type (chosen_type u req.content_type))) [
          | inl e' ↦
              rw (e, e')
                (local-keeps WellFormed s h call.user_id _ (λ user_id eu.
                  local-keeps WellFormed s h call.organization_id _
                    (λ org_id eo. created-kept call (new_item u id req user_id org_id) s h)))
          | inr e' ↦ rw (e, e') h
        ]
      ])

  update_found-kept :
      (call : Call) (req : UpdateRequest) (org_id : String) (s : Store)
      (found : Result Text ContentItem)
      → WellFormed s
      → WellFormed (update_found u call req org_id s found).1
  update_found-kept call req org_id s (err failure) h = h
  update_found-kept call req org_id s (ok item) h =
      finished-keeps WellFormed _ _ _
        (update_content-kept call.failing (merged u req item) org_id s h)

  update-kept :
      (id : String) (call : Call) (body : Option UpdateRequest) (s : Store)
      → WellFormed s
      → WellFormed (update u id call body s).1
  unfolding update
  update-kept id call body s h = local-keeps WellFormed s h call.organization_id _ (λ org_id eo.
      guarded-keeps WellFormed s h _ _ _ (content_role call id s) _ (λ role e t.
        parsed-keeps WellFormed s h body _ (λ req.
          update_found-kept call req org_id s (get_content call.failing.read_item id org_id s) h)))

  update_status-kept :
      (id : String) (call : Call) (body : Option Text) (s : Store)
      → WellFormed s
      → WellFormed (update_status u id call body s).1
  unfolding update_status
  update_status-kept id call body s h =
      local-keeps WellFormed s h call.organization_id _ (λ org_id eo.
        guarded-keeps WellFormed s h _ _ _ (content_role call id s) _ (λ role e t.
          parsed-keeps WellFormed s h body _ (λ given. ground (
            arith,
            h,
            update_content_status-kept call.failing call.now id org_id (to_lower u given) s h,
          ))))

  delete-kept :
      (id : String) (call : Call) (s : Store) → WellFormed s → WellFormed (delete id call s).1
  unfolding delete
  delete-kept id call s h = local-keeps WellFormed s h call.organization_id _ (λ org_id eo.
      guarded-keeps WellFormed s h _ _ _ (content_role call id s) _ (λ role e t.
        finished-keeps WellFormed _ _ _ (delete_content-kept call.failing call.now id org_id s h)))

  invite-kept :
      (id : String) (call : Call) (body : Option String) (s : Store)
      → WellFormed s
      → WellFormed (invite id call body s).1
  unfolding invite
  invite-kept id call body s h =
      guarded-keeps WellFormed s h _ _ _ (content_role call id s) _ (λ role e t.
        parsed-keeps WellFormed s h body _ (λ user_id. elim (Bool-cases (str_eq user_id "")) [
          | inl e' ↦ rw e' h
          | inr e' ↦ rw e' (
              local-keeps WellFormed s h call.user_id _ (λ invited_by eu.
                finished-keeps WellFormed _ _ _
                  (add_collaborator-kept call.failing id user_id invited_by s h)))
        ]))

  removed-kept : (e : Ended) → WellFormed e.1 → WellFormed (removed u e).1
  removed-kept (none, s) h = h
  removed-kept (some failure, s) h = ground (arith, h)

  remove-kept :
      (id target : String) (call : Call) (s : Store)
      → WellFormed s
      → WellFormed (remove u id target call s).1
  unfolding remove
  remove-kept id target call s h =
      guarded-keeps WellFormed s h _ _ _ (content_role call id s) _ (λ role e t.
        removed-kept (remove_collaborator call.failing id target s)
          (remove_collaborator-kept call.failing id target s h))

  Step-kept : (s s' : Store) → Step u s s' → WellFormed s → WellFormed s'
  Step-kept s _ (by_create id call body) h = create-kept id call body s h
  Step-kept s _ (by_update id call body) h = update-kept id call body s h
  Step-kept s _ (by_update_status id call body) h = update_status-kept id call body s h
  Step-kept s _ (by_delete id call) h = delete-kept id call s h
  Step-kept s _ (by_invite id call body) h = invite-kept id call body s h
  Step-kept s _ (by_remove id target call) h = remove-kept id target call s h

  -- Whatever requests to create, change, share and delete content follow each other, by whomever
  -- and whichever calls fail: if at the start the ids of the items are distinct and every
  -- collaborator is a co-author or, as the owner, the user who owns the item, then so it is
  -- afterwards.
  pub well_formed-Reachable :
      (start s : Store) → well_formed start ≡ true → Reachable u start s → well_formed s ≡ true
  well_formed-Reachable start _ h at_start = h
  well_formed-Reachable start _ h (after s s' r step) =
      Step-kept s s' step (well_formed-Reachable start s h r)
