-- ===== src/Content/Refusals.antt =====
-- Answers of the handlers of content that no request gets.
use monkeys_identity.Base.{
  true, false, String, Text, Option, none, some, any, codes, if◌then◌else◌, ok, ◌≡◌, refl, inl, inr,
  arith, Bool-cases,
}
use monkeys_identity.Platform.{Unicode, to_lower, contains, has_prefix}
use monkeys_identity.Accounts.{refused, answered}
use monkeys_identity.Content.{Store, Call}
use monkeys_identity.Content.Items.{
  Ended, removable, remove_collaborator, update_content_status, not_removed, allowed_status,
}
use monkeys_identity.Content.Handlers.{
  content_role, is_collaborator, update_status, status_valid, finished, no_access,
}
use monkeys_identity.Content.Collaborators.{remove, removed}
use monkeys_identity.Content.Owner.{local-passed, guarded-passed, guarded-later, finished-answered}

module _ (u : Unicode) (id target : String) (call : Call) (s : Store) where
  names_owner : contains not_removed (codes "owner") ≡ true
  unfolding contains has_prefix
  names_owner = refl

  removed-none :
      (e : Ended)
      → e ≡ (some not_removed, s)
      → removed u e ≡ (refused 400 "Cannot remove the content owner", s)
  removed-none e same = rw (same, names_owner) refl

  -- An owner who removes someone that is no collaborator is answered that the owner cannot be
  -- removed.
  pub remove_nobody :
      content_role call id s ≡ ok "owner"
      → call.failing.remove_collaborator ≡ none
      → any (removable id target) s.content_collaborators ≡ false
      → remove u id target call s ≡ (refused 400 "Cannot remove the content owner", s)
  unfolding remove remove_collaborator
  remove_nobody r f n =
      rw r (removed-none (remove_collaborator call.failing id target s) (rw f (rw n refl)))

  status_written :
      (org_id : String) (status : Text)
      → (update_content_status call.failing call.now id org_id status s).0 ≡ none
      → allowed_status status ≡ true
  unfolding update_content_status
  status_written org_id status h = ground (arith, h)

  status_kept :
      (org_id : String) (given answer : Text)
      → (if status_valid u (to_lower u given)
          then finished "Failed to update content status"
              (to_lower u given)
              (update_content_status call.failing call.now id org_id (to_lower u given) s)
          else (refused 400 "Status must be draft, published, archived, private, or hidden", s)).0
        ≡ answered answer
      → allowed_status answer ≡ true
  status_kept org_id given answer h = elim (Bool-cases (status_valid u (to_lower u given))) [
    | inr e ↦ let h' = rw e at h in ground (arith, h')
    | inl e ↦
        let h' = rw e at h in
        let end = update_content_status call.failing call.now id org_id (to_lower u given) s in
        let (done, same) =
          finished-answered "Failed to update content status" (to_lower u given) answer end h' in
        rw (← same) (status_written org_id (to_lower u given) done)
  ]

  -- test
  pub update_status-allowed :
      (body : Option Text) (answer : Text)
      → (update_status u id call body s).0 ≡ answered answer
      → allowed_status answer ≡ true
  unfolding update_status
  update_status-allowed none answer h =
      let (org_id, o, h') = local-passed s call.organization_id _ answer h in
      let (role, r, t) =
        guarded-passed s _ is_collaborator _ (content_role call id s) _ answer
          (λ b k. ground (arith, k)) h' in
      let h'' =
        rw (guarded-later s is_collaborator _ no_access role (content_role call id s) _ r t) at
          h' in
      ground (arith, h'')
  update_status-allowed (some given) answer h =
      let (org_id, o, h') = local-passed s call.organization_id _ answer h in
      let (role, r, t) =
        guarded-passed s _ is_collaborator _ (content_role call id s) _ answer
          (λ b k. ground (arith, k)) h' in
      let h'' =
        rw (guarded-later s is_collaborator _ no_access role (content_role call id s) _ r t) at
          h' in
      status_kept org_id given answer h''
