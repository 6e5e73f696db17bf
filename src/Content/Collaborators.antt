-- ===== src/Content/Collaborators.antt =====
-- The handlers of collaborators of internal/handlers/content_handler.go.
use monkeys_identity.Base.{
  String, Text, List, Option, none, some, str_eq, codes, if◌then◌else◌, Result, ok, err,
}
use monkeys_identity.Platform.{Unicode, to_lower, contains}
use monkeys_identity.Accounts.{Reply, refused, answered}
use monkeys_identity.Content.{ContentCollaborator, Person, Store, Call, local, parsed}
use monkeys_identity.Content.Items.{
  Ended, add_collaborator, remove_collaborator, list_collaborators,
}
use monkeys_identity.Content.Handlers.{
  content_role, guarded, is_owner, is_collaborator, not_found, no_access, finished,
}

module _ (u : Unicode) where
  -- the branches of RemoveCollaborator on the text of the error
  abbrev pub removed : Ended → Reply (Unit {0}) × Store
  removed (none, s) = (answered tt, s)
  removed (some error, s) =
      if contains error (codes "owner")
      then (refused 400 "Cannot remove the content owner", s)
      else if contains (to_lower u error) (codes "not found")
      then (refused 404 "Collaborator not found", s)
      else (refused 500 "Failed to remove collaborator", s)

  unfoldable pub remove : (id target : String) → Call → Store → Reply (Unit {0}) × Store
  unfolding content_role remove_collaborator contains to_lower
  remove id target call s =
      guarded s not_found is_owner "Only the content owner can remove collaborators"
        (content_role call id s) (λ role. removed (remove_collaborator call.failing id target s))

-- invitedBy is a local again
unfoldable pub invite : (id : String) → Call → Option String → Store → Reply String × Store
unfolding content_role add_collaborator
invite id call body s =
    guarded s not_found is_owner "Only the content owner can invite collaborators"
      (content_role call id s)
      (λ role. parsed s body (λ user_id.
        if str_eq user_id ""
        then (refused 400 "user_id is required", s)
        else local s call.user_id (λ invited_by.
          finished "Failed to add collaborator" user_id
            (add_collaborator call.failing id user_id "co-author" invited_by s))))

abbrev pub collaborators_shown : {A : Type 0} → Store → Result Text A → Reply A × Store
collaborators_shown s (err failure) = (refused 500 "Failed to list collaborators", s)
collaborators_shown s (ok rows) = (answered rows, s)

unfoldable pub show_collaborators :
    (id : String) → Call → Store → Reply (List (ContentCollaborator × Person)) × Store
unfolding content_role list_collaborators
show_collaborators id call s =
    guarded s not_found is_collaborator no_access (content_role call id s)
      (λ role. collaborators_shown s (list_collaborators call.failing id s))
