-- ===== src/Directory/Gaps.antt =====
-- What deleting a role or a group leaves, and requests that cannot succeed.
use monkeys_identity.Base.{
  ℕ, Bool, true, false, String, List, Option, none, some, str_eq, any, find, update_where, Result,
  ok, ◌≡◌, refl, ◌∙◌, arith, eq_iff, Option-cases, inl, inr, find-update_at, find_sound, any-found,
}
use monkeys_identity.Policies.Check.{Policy}
use monkeys_identity.Accounts.{answered}
use monkeys_identity.Directory.{Role, Group, Tables, Call}
use monkeys_identity.Directory.Roles.{
  Ended, write_roles, delete_role, update_role, get_role, visible_role, live_role_in, name_taken,
  rewritten, deleted,
}
use monkeys_identity.Directory.Groups.{
  Ended as GroupEnded, deleted as group_deleted_at, write_groups, delete_group, group_in,
  no_group_in_organization, group_gone, group_not_found, name_conflict, membership_not_found,
  failed,
}
use monkeys_identity.Directory.RoleHandlers.{described, delete, update, deleting, merged, changed}
use monkeys_identity.Directory.GroupHandlers.{
  MemberRequest, add_member, add_until, add_parsed, new_membership, added, removed_group,
}
use monkeys_identity.Directory.Grants.{get_principal_policies, granted, holds_role}
use monkeys_identity.Directory.Guard.{local-keeps, if-keeps, fetched-keeps, changed-keeps}
use monkeys_identity.Directory.GroupHandlers

module _ (f : Option String) (now : ℕ) (principal_id principal_type org_id : String) where
  abbrev policies : Tables → Result String (List Policy)
  policies t = get_principal_policies f now t principal_id principal_type org_id

  policies_roles :
      (t : Tables) (rows : List Role) → policies (record t { roles = rows }) ≡ policies t
  unfolding get_principal_policies granted holds_role
  policies_roles t rows = elim (Option-cases f) [ inl e ↦ rw e refl | inr (failure, e) ↦ rw e refl ]

  policies_groups :
      (t : Tables) (rows : List Group) → policies (record t { groups = rows }) ≡ policies t
  unfolding get_principal_policies granted holds_role
  policies_groups t rows = elim (Option-cases f) [
    | inl e ↦ rw e refl
    | inr (failure, e) ↦ rw e refl
  ]

  write_roles-policies :
      (id organization_id : String) (conflict : Bool) (g : Role → Role) (t : Tables)
      (w : Option (List ℕ))
      → policies (write_roles id organization_id conflict g t w).1 ≡ policies t
  write_roles-policies id organization_id conflict g t (some failure) = refl
  write_roles-policies id organization_id conflict g t none =
      ground (arith, policies_roles t (update_where (live_role_in id organization_id) g t.roles))

  write_groups-policies :
      (id organization_id : String) (conflict : Bool) (g : Group → Group) (t : Tables)
      (w : Option (List ℕ))
      → policies (write_groups id organization_id conflict g t w).1 ≡ policies t
  write_groups-policies id organization_id conflict g t (some failure) = refl
  write_groups-policies id organization_id conflict g t none =
      ground (arith, policies_groups t (update_where (group_in id organization_id) g t.groups))

  role_deleted :
      (id : String) (call : Call) (t : Tables) → policies (delete id call t).1 ≡ policies t
  unfolding delete delete_role
  role_deleted id call t =
      if-keeps (λ t'. policies t' ≡ policies t) t refl (str_eq id "") _ _
        (λ n.
          local-keeps (λ t'. policies t' ≡ policies t) t refl call.organization_id _
            (λ org e.
              fetched-keeps (λ t'. policies t' ≡ policies t) t refl _ _ (get_role call id org t)
                (deleting id call org t)
                (λ r e'.
                  if-keeps (λ t'. policies t' ≡ policies t) t refl (str_eq r.name "admin") _ _
                    (λ m.
                      changed-keeps (λ t'. policies t' ≡ policies t) "Failed to delete role" id
                        (delete_role call id org t)
                        (write_roles-policies id org false (deleted call.now) t
                          call.write_fails)))))

  removed_group-policies :
      (id : String) (e : GroupEnded) (t : Tables)
      → policies e.1 ≡ policies t
      → policies (removed_group id e).1 ≡ policies t
  removed_group-policies id (none, t') t h = h
  removed_group-policies id (some group_not_found, t') t h = h
  removed_group-policies id (some group_gone, t') t h = h
  removed_group-policies id (some name_conflict, t') t h = h
  removed_group-policies id (some no_group_in_organization, t') t h = h
  removed_group-policies id (some membership_not_found, t') t h = h
  removed_group-policies id (some failed, t') t h = h

  group_deleted :
      (id : String) (call : Call) (t : Tables)
      → policies (GroupHandlers.delete id call t).1 ≡ policies t
  unfolding GroupHandlers.delete delete_group
  group_deleted id call t =
      if-keeps (λ t'. policies t' ≡ policies t) t refl (str_eq id "") _ _
        (λ n.
          local-keeps (λ t'. policies t' ≡ policies t) t refl call.organization_id _
            (λ org e.
              removed_group-policies id (delete_group call id org t) t (
                write_groups-policies id org false (group_deleted_at call.now) t call.write_fails)))

  -- Deleting a role, and deleting a group, changes the policies of no principal.
  pub delete-get_principal_policies :
      (id : String) (call : Call) (t : Tables)
      → (policies (delete id call t).1 ≡ policies t)
        × (policies (GroupHandlers.delete id call t).1 ≡ policies t)
  delete-get_principal_policies id call t = (role_deleted id call t, group_deleted id call t)

-- A role that is renamed, and deleted then.
module _ (id org_id : String) (call : Call) (updates r : Role) (t : Tables)
    (given : str_eq id "" ≡ false) (org : call.organization_id ≡ some org_id)
    (reads : call.read_fails ≡ false) (writes : call.write_fails ≡ none)
    (found : find (visible_role id org_id) t.roles ≡ some r)
    (own : str_eq r.organization_id org_id ≡ true) (other : str_eq updates.name "admin" ≡ false)
    (free : any (name_taken (merged updates r) org_id) t.roles ≡ false) where
  abbrev renamed : Role → Role
  renamed = rewritten (merged updates r)

  abbrev after : Tables
  after = record t { roles = update_where (live_role_in id org_id) renamed t.roles }

  visible : visible_role id org_id r ≡ true
  visible = find_sound (visible_role id org_id) t.roles r found

  same_id : r.id ≡ id
  same_id = ground (arith, visible, eq_iff r.id id)

  merged_as :
      (o : Option String)
      → ((described (record r { name = updates.name }) o).id ≡ r.id)
        × ((described (record r { name = updates.name }) o).status ≡ r.status)
        × ((described (record r { name = updates.name }) o).name ≡ updates.name)
  merged_as none = (refl, refl, refl)
  merged_as (some text) = (refl, refl, refl)

  there : any (live_role_in id org_id) t.roles ≡ true
  there =
      any-found (visible_role id org_id) (live_role_in id org_id) r t.roles found
        (ground (arith, visible, own))

  still_found : find (visible_role id org_id) after.roles ≡ some (renamed r)
  still_found =
      find-update_at (visible_role id org_id) (live_role_in id org_id) renamed
        (λ x e. ground (arith, e, visible, (merged_as updates.description).1)) t.roles
      ∙ rw found (ground (arith, visible, own))

  read_before : get_role call id org_id t ≡ ok r
  unfolding get_role
  read_before = ground (arith, reads, found)

  read_after : get_role call id org_id after ≡ ok (renamed r)
  unfolding get_role
  read_after = ground (arith, reads, still_found)

  updated : update_role call (merged updates r) org_id t ≡ (none, after)
  unfolding update_role
  updated =
      let at_id : (merged updates r).id ≡ id = (merged_as updates.description).0 ∙ same_id in
      rw (writes, free) (rw (at_id, there) refl)

  update_done : (update id call (some updates) t).1 ≡ after
  unfolding update
  update_done = rw (given, org) (rw (read_before) (rw updated refl))

  there_after : any (live_role_in id org_id) after.roles ≡ true
  there_after =
      any-found (visible_role id org_id) (live_role_in id org_id) (renamed r) after.roles
        still_found (ground (arith, visible, own, (merged_as updates.description).1))

  delete_done : (delete_role call id org_id after).0 ≡ none
  unfolding delete_role
  delete_done = rw (writes, there_after) refl

  changed_done : (e : Ended) → e.0 ≡ none → (changed "Failed to delete role" id e).0 ≡ answered id
  changed_done (none, t') h = refl
  changed_done (some error, t') h = ground (arith, h)

  deleted_now : (deleting id call org_id after (renamed r)).0 ≡ answered id
  deleted_now =
      rw ((merged_as updates.description).2, other)
        (changed_done (delete_role call id org_id after) delete_done)

  -- Where the database does not fail, a role of the caller's organization, whatever its name, is
  -- deleted by two requests: one that renames it to a name other than admin that is free, and one
  -- that deletes it.
  pub rename_then_delete : (delete id call (update id call (some updates) t).1).0 ≡ answered id
  unfolding delete
  rename_then_delete = rw update_done (rw (given, org) (rw read_after (deleted_now)))
