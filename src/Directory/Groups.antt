-- ===== src/Directory/Groups.antt =====
-- The statements of internal/queries/group_queries.go. `is_uuid` says which texts PostgreSQL reads
-- as a UUID.
use monkeys_identity.Base.{
  ℕ, Bool, false, not, ◌&&◌, String, Text, List, ◌∷◌, Option, none, some, str_eq, any, find, filter,
  update_where, if◌then◌else◌, Result, ok, err,
}
use monkeys_identity.Directory.{Group, GroupMembership, Tables, Call}

pub data GroupError : Type 0 where
  group_not_found group_gone name_conflict no_group_in_organization : GroupError
  membership_not_found failed : GroupError

abbrev pub Ended : Type 0
Ended = Option GroupError × Tables

-- id = $1 AND organization_id = $2 AND status != 'deleted'
abbrev pub group_in : (id organization_id : String) → Group → Bool
group_in id organization_id g =
    str_eq g.id id && str_eq g.organization_id organization_id && not (str_eq g.status "deleted")

abbrev pub same_group_name : Group → (organization_id : String) → Group → Bool
same_group_name g organization_id q =
    not (str_eq q.id g.id) && str_eq q.organization_id organization_id && str_eq q.name g.name

abbrev pub inserted_group : Group → Tables → Option Text → Ended
inserted_group g t (some failure) = (some failed, t)
inserted_group g t none =
    if any (λ q. str_eq q.id g.id) t.groups
    then (some failed, t)
    else if any (same_group_name g g.organization_id) t.groups
    then (some name_conflict, t)
    else (none, record t { groups = g ∷ t.groups })

unfoldable pub create_group : Call → Group → Tables → Ended
create_group call g t = inserted_group g t call.write_fails

abbrev pub found_group : Option Group → Result GroupError Group
found_group none = err group_not_found
found_group (some g) = ok g

unfoldable pub get_group : Call → (id organization_id : String) → Tables → Result GroupError Group
get_group call id organization_id t =
    if call.read_fails
    then err failed
    else found_group (find (group_in id organization_id) t.groups)

abbrev pub rewritten : Group → Group → Group
rewritten g row = record row {
  name = g.name;
  description = g.description;
  parent_group_id = g.parent_group_id;
  group_type = g.group_type;
  attributes = g.attributes;
  max_members = g.max_members;
  status = g.status;
}

-- An UPDATE of the groups, where a row is written.
abbrev pub write_groups :
    (id organization_id : String)
    → (conflict : Bool) → (Group → Group)
    → Tables
    → Option Text
    → Ended
write_groups id organization_id conflict g t (some failure) = (some failed, t)
write_groups id organization_id conflict g t none =
    if any (group_in id organization_id) t.groups
    then if conflict
      then (some name_conflict, t)
      else (none, record t { groups = update_where (group_in id organization_id) g t.groups })
    else (some group_gone, t)

unfoldable pub update_group : Call → Group → (organization_id : String) → Tables → Ended
update_group call g organization_id t =
    write_groups g.id organization_id (any (same_group_name g organization_id) t.groups)
      (rewritten g) t call.write_fails

abbrev pub deleted : ℕ → Group → Group
deleted now g = record g { status = "deleted"; deleted_at = some now }

unfoldable pub delete_group : Call → (id organization_id : String) → Tables → Ended
delete_group call id organization_id t =
    write_groups id organization_id false (deleted call.now) t call.write_fails

abbrev pub membership_of : (group_id principal_id principal_type : String) → GroupMembership → Bool
membership_of group_id principal_id principal_type m =
    str_eq m.group_id group_id
    && str_eq m.principal_id principal_id
    && str_eq m.principal_type principal_type

abbrev pub renewed : GroupMembership → GroupMembership → GroupMembership
renewed m row = record row { role_in_group = m.role_in_group; expires_at = m.expires_at }

module _ (is_uuid : String → Bool) where
  abbrev pub adding : GroupMembership → Tables → Option Text → Ended
  adding m t (some failure) = (some failed, t)
  adding m t none =
      let of = membership_of m.group_id m.principal_id m.principal_type in
      if not (is_uuid m.principal_id && is_uuid m.added_by)
      then (some failed, t)
      else if any of t.group_memberships
      then (none, record t { group_memberships = update_where of (renewed m) t.group_memberships })
      else (none, record t { group_memberships = m ∷ t.group_memberships })

  unfoldable pub add_group_member :
      Call → GroupMembership → (organization_id : String) → Tables → Ended
  add_group_member call m organization_id t =
      if call.read_fails
      then (some failed, t)
      else if any (group_in m.group_id organization_id) t.groups
      then adding m t call.write_fails
      else (some no_group_in_organization, t)

abbrev pub removing :
    (group_id organization_id principal_id principal_type : String) → Tables → Option Text → Ended
removing group_id organization_id principal_id principal_type t (some failure) = (some failed, t)
removing group_id organization_id principal_id principal_type t none =
    let of = membership_of group_id principal_id principal_type in
    if any (group_in group_id organization_id) t.groups && any of t.group_memberships
    then (none, record t { group_memberships = filter (λ m. not (of m)) t.group_memberships })
    else (some membership_not_found, t)

unfoldable pub remove_group_member :
    Call → (group_id organization_id principal_id principal_type : String) → Tables → Ended
remove_group_member call group_id organization_id principal_id principal_type t =
    removing group_id organization_id principal_id principal_type t call.write_fails

-- The rows of a group of the organization, deleted or not; the names of the principals are left out.
unfoldable pub list_group_members :
    Call → (group_id organization_id : String) → Tables → Result GroupError (List GroupMembership)
list_group_members call group_id organization_id t =
    if call.read_fails
    then err failed
    else ok (
        filter
          (λ m.
            str_eq m.group_id group_id
            && any (λ g. str_eq g.id group_id && str_eq g.organization_id organization_id) t.groups)
          t.group_memberships)
