-- ===== src/Directory/GroupHandlers.antt =====
-- The handlers of groups of internal/handlers/handlers.go, but for the list and the merged
-- permissions. An answer is what the success carries.
use monkeys_identity.Base.{
  ℕ, Bool, true, ◌||◌, String, List, Option, none, some, str_eq, if◌then◌else◌, Result, ok, err,
}
use monkeys_identity.Accounts.{Reply, refused, answered}
use monkeys_identity.Directory.{Group, GroupMembership, Tables, Call, local, parsed, named}
use monkeys_identity.Directory.RoleHandlers.{or_default}
use monkeys_identity.Directory.Groups.{
  GroupError, group_not_found, group_gone, name_conflict, no_group_in_organization,
  membership_not_found, Ended, create_group, get_group, update_group, delete_group,
  add_group_member, remove_group_member, list_group_members,
}

abbrev pub no_group_id : String
no_group_id = "Group ID is required"

abbrev pub new_group : (id org_id : String) → Group → Group
new_group id org_id g = record g {
  id = id;
  organization_id = org_id;
  group_type = or_default g.group_type "standard";
  attributes = or_default g.attributes "{}";
  status = or_default g.status "active";
}

abbrev pub created : Group → Ended → Reply Group × Tables
created g (none, t) = (answered g, t)
created g (some name_conflict, t) =
    (refused 409 "A group with this name already exists in the organization", t)
created g (some _, t) = (refused 500 "Failed to create group", t)

unfoldable pub create : (id : String) → Call → Option Group → Tables → Reply Group × Tables
unfolding create_group
create id call body t = parsed t body (λ g. local t call.organization_id (λ org_id.
    if str_eq g.name ""
    then (refused 400 "name is required", t)
    else created (new_group id org_id g) (create_group call (new_group id org_id g) t)))

-- after GetGroup
abbrev pub fetched :
    {A : Type 0}
    → (missing failure : String) → Tables
    → Result GroupError Group
    → (Group → Reply A × Tables)
    → Reply A × Tables
fetched missing failure t (err group_not_found) later = (refused 404 missing, t)
fetched missing failure t (err _) later = (refused 500 failure, t)
fetched missing failure t (ok g) later = later g

unfoldable pub show : (id : String) → Call → Tables → Reply Group × Tables
unfolding get_group
show id call t = named t id no_group_id (
    local t call.organization_id (λ org_id.
      fetched "Group not found" "Failed to get group" t (get_group call id org_id t)
        (λ g. (answered g, t))))

pub record UpdateRequest : Type 0 where
  pub name : Option String
  pub description : Option String
  pub max_members : Option ℕ
  pub status : Option String

abbrev pub or_given : {A : Type 0} → A → Option A → A
or_given old none = old
or_given old (some new) = new

abbrev pub merged : UpdateRequest → Group → Group
merged req g = record g {
  name = or_given g.name req.name;
  description = or_given g.description req.description;
  max_members = or_given g.max_members req.max_members;
  status = or_given g.status req.status;
}

abbrev pub changed : {A : Type 0} → (failure : String) → A → Ended → Reply A × Tables
changed failure value (none, t) = (answered value, t)
changed failure value (some group_gone, t) = (refused 404 "Group not found or deleted", t)
changed failure value (some name_conflict, t) =
    (refused 409 "A group with this name already exists in the organization", t)
changed failure value (some _, t) = (refused 500 failure, t)

unfoldable pub update : (id : String) → Call → Option UpdateRequest → Tables → Reply Group × Tables
unfolding get_group update_group
update id call body t = named t id no_group_id (
    local t call.organization_id (λ org_id.
      fetched "Group not found or deleted" "Failed to retrieve group" t (get_group call id org_id t)
        (λ g. parsed t body (λ req.
          let g' = record (merged req g) { id = id } in
          changed "Failed to update group" g' (update_group call g' org_id t)))))

-- DeleteGroup knows no conflict.
abbrev pub removed_group : (id : String) → Ended → Reply String × Tables
removed_group id (none, t) = (answered id, t)
removed_group id (some group_gone, t) = (refused 404 "Group not found or deleted", t)
removed_group id (some _, t) = (refused 500 "Failed to delete group", t)

unfoldable pub delete : (id : String) → Call → Tables → Reply String × Tables
unfolding delete_group
delete id call t =
    named t id no_group_id
      (local t call.organization_id (λ org_id. removed_group id (delete_group call id org_id t)))

abbrev pub members_shown :
    Tables → Result GroupError (List GroupMembership) → Reply (List GroupMembership) × Tables
members_shown t (err error) = (refused 500 "Failed to list group members", t)
members_shown t (ok rows) = (answered rows, t)

unfoldable pub show_members : (id : String) → Call → Tables → Reply (List GroupMembership) × Tables
unfolding list_group_members
show_members id call t =
    named t id no_group_id (
      local t call.organization_id
        (λ org_id. members_shown t (list_group_members call id org_id t)))

pub record MemberRequest : Type 0 where
  pub principal_id : String
  pub principal_type : String
  pub role_in_group : String
  pub expires_at : String

-- time.Time's zero where the request names no expiry
abbrev pub zero_time : ℕ
zero_time = 0

abbrev pub new_membership : (id : String) → MemberRequest → (expires : ℕ) → GroupMembership
new_membership id req expires = record {
  group_id = id;
  principal_id = req.principal_id;
  principal_type = req.principal_type;
  role_in_group = or_default req.role_in_group "member";
  expires_at = some expires;
  added_by = "";
}

-- isNotFoundErr looks for "not found" in the text of the error, which that of a write has not.
abbrev pub added : GroupMembership → Ended → Reply GroupMembership × Tables
added m (none, t) = (answered m, t)
added m (some no_group_in_organization, t) = (refused 404 "Group or principal not found", t)
added m (some _, t) = (refused 500 "Failed to add group member", t)

module _ (is_uuid : String → Bool) (parse_time : String → Option ℕ) where
  abbrev pub add_until :
      (id : String) → Call → MemberRequest → Tables → (expires : ℕ) → Reply GroupMembership × Tables
  add_until id call req t expires = local t call.organization_id (λ org_id.
      let m = new_membership id req expires in added m (add_group_member is_uuid call m org_id t))

  abbrev pub add_parsed :
      (id : String) → Call → MemberRequest → Tables → Option ℕ → Reply GroupMembership × Tables
  add_parsed id call req t none = (refused 400 "expires_at must be RFC3339", t)
  add_parsed id call req t (some time) = add_until id call req t time

  unfoldable pub add_member :
      (id : String) → Call → Option MemberRequest → Tables → Reply GroupMembership × Tables
  unfolding add_group_member
  add_member id call body t = named t id no_group_id (
      parsed t body (λ req.
        if str_eq req.principal_id "" || str_eq req.principal_type ""
        then (refused 400 "principal_id and principal_type are required", t)
        else if str_eq req.expires_at ""
        then add_until id call req t zero_time
        else add_parsed id call req t (parse_time req.expires_at)))

abbrev pub removed_member : Ended → Reply Bool × Tables
removed_member (none, t) = (answered true, t)
removed_member (some membership_not_found, t) = (refused 404 "Membership not found", t)
removed_member (some _, t) = (refused 500 "Failed to remove group member", t)

unfoldable pub remove_member :
    (id principal_id principal_type : String) → Call → Tables → Reply Bool × Tables
unfolding remove_group_member
remove_member id principal_id principal_type call t =
    if str_eq id "" || str_eq principal_id ""
    then (refused 400 "Group ID and principal ID are required", t)
    else local t call.organization_id (λ org_id.
      removed_member (remove_group_member call id org_id principal_id principal_type t))
