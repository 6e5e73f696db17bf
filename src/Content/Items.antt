-- ===== src/Content/Items.antt =====
-- The statements of internal/queries/content_queries.go on single items and on collaborators.
use monkeys_identity.Base.{
  ℕ, Bool, not, ◌&&◌, ◌||◌, String, Text, List, [], ◌∷◌, ◌++◌, Option, none, some, str_eq, codes,
  equal_text, any, find, filter, update_where, if◌then◌else◌, Result, ok, err,
}
use monkeys_identity.Accounts.Users.{is_live}
use monkeys_identity.Content.{ContentItem, ContentCollaborator, Person, Store, Failing}

-- What a statement answers, `none` being no error, and what it leaves.
abbrev pub Ended : Type 0
Ended = Option Text × Store

abbrev pub database_error : Text
database_error = codes "database error"

abbrev pub content_not_found : Text
content_not_found = codes "content not found"

-- WHERE id = … AND organization_id = … AND deleted_at IS NULL
abbrev pub item_of : (id organization_id : String) → ContentItem → Bool
item_of id organization_id c =
    str_eq c.id id && str_eq c.organization_id organization_id && is_live c.deleted_at

-- WHERE content_id = … AND user_id = …, the primary key
abbrev pub collaborator_of : (content_id user_id : String) → ContentCollaborator → Bool
collaborator_of content_id user_id c = str_eq c.content_id content_id && str_eq c.user_id user_id

abbrev pub has_item : String → Store → Bool
has_item id s = any (λ c. str_eq c.id id) s.content_items

-- INSERT INTO content_items, whose key is unique and whose status is checked
abbrev pub allowed_status : Text → Bool
allowed_status status =
    equal_text status "draft" || equal_text status "published" || equal_text status "archived"

unfoldable pub create_content : Failing → ContentItem → Store → Ended
create_content f item s =
    if f.write_item || has_item item.id s || not (allowed_status item.status)
    then (some database_error, s)
    else (none, record s { content_items = item ∷ s.content_items })

abbrev pub found_item : Option ContentItem → Result Text ContentItem
found_item none = err content_not_found
found_item (some item) = ok item

unfoldable pub get_content :
    (failing : Bool) → (id organization_id : String) → Store → Result Text ContentItem
get_content failing id organization_id s =
    if failing
    then err database_error
    else found_item (find (item_of id organization_id) s.content_items)

-- An UPDATE of the item, and its number of rows.
abbrev pub write_items :
    Failing → (id organization_id : String) → (ContentItem → ContentItem) → Store → Ended
write_items f id organization_id g s =
    if f.write_item
    then (some database_error, s)
    else if any (item_of id organization_id) s.content_items
    then (
      none,
      record s { content_items = update_where (item_of id organization_id) g s.content_items },
    )
    else (some content_not_found, s)

abbrev pub rewritten : ContentItem → ContentItem → ContentItem
rewritten item row = record row {
  title = item.title;
  slug = item.slug;
  body = item.body;
  summary = item.summary;
  cover_image_url = item.cover_image_url;
  tags = item.tags;
  metadata = item.metadata;
}

unfoldable pub update_content : Failing → ContentItem → (organization_id : String) → Store → Ended
update_content f item organization_id s = write_items f item.id organization_id (rewritten item) s

abbrev pub deleted : ℕ → ContentItem → ContentItem
deleted now row = record row { deleted_at = some now }

unfoldable pub delete_content : Failing → (now : ℕ) → (id organization_id : String) → Store → Ended
delete_content f now id organization_id s = write_items f id organization_id (deleted now) s

abbrev pub with_status : ℕ → Text → ContentItem → ContentItem
with_status now status row =
    if equal_text status "published"
    then record row { status = status; published_at = some now }
    else record row { status = status }

-- The CHECK of the table refuses a status where there is a row to write.
unfoldable pub update_content_status :
    Failing → (now : ℕ) → (id organization_id : String) → (status : Text) → Store → Ended
update_content_status f now id organization_id status s =
    if any (item_of id organization_id) s.content_items && not (allowed_status status)
    then (some database_error, s)
    else write_items f id organization_id (with_status now status) s

-- ON CONFLICT (content_id, user_id) DO UPDATE SET role, where the item and the user must be there
unfoldable pub add_collaborator :
    Failing → (content_id user_id role invited_by : String) → Store → Ended
add_collaborator f content_id user_id role invited_by s =
    if f.write_collaborator
      || not (has_item content_id s)
      || not (any (λ p. str_eq p.id user_id) s.users)
    then (some database_error, s)
    else if any (collaborator_of content_id user_id) s.content_collaborators
    then (
      none,
      record s {
        content_collaborators =
            update_where (collaborator_of content_id user_id) (λ c. record c { role = role })
              s.content_collaborators;
      },
    )
    else (
      none,
      record s {
        content_collaborators =
            record {
              content_id = content_id;
              user_id = user_id;
              role = role;
              invited_by = invited_by;
            }
            ∷ s.content_collaborators;
      },
    )

abbrev pub removable : (content_id user_id : String) → ContentCollaborator → Bool
removable content_id user_id c = collaborator_of content_id user_id c && not (str_eq c.role "owner")

abbrev pub not_removed : Text
not_removed = codes "collaborator not found or is the content owner"

abbrev pub removing : (content_id user_id : String) → Store → Option Text → Ended
removing content_id user_id s (some failure) = (some failure, s)
removing content_id user_id s none =
    if any (removable content_id user_id) s.content_collaborators
    then (
      none,
      record s {
        content_collaborators =
            filter (λ c. not (removable content_id user_id c)) s.content_collaborators;
      },
    )
    else (some not_removed, s)

unfoldable pub remove_collaborator : Failing → (content_id user_id : String) → Store → Ended
remove_collaborator f content_id user_id s = removing content_id user_id s f.remove_collaborator

abbrev pub role_of : Option ContentCollaborator → String
role_of none = ""
role_of (some c) = c.role

unfoldable pub get_collaborator_role :
    Failing → (content_id user_id : String) → Store → Result Text String
get_collaborator_role f content_id user_id s =
    if f.read_role
    then err database_error
    else ok (role_of (find (collaborator_of content_id user_id) s.content_collaborators))

-- JOIN users: the rows of a user who is there, with the user.
abbrev pub joined : List Person → ContentCollaborator → List (ContentCollaborator × Person)
joined users c = elim (find (λ p. str_eq p.id c.user_id) users) [ none ↦ [] | some p ↦ (c, p) ∷ [] ]

-- In the order of their creation, the newest row being the first of the table.
unfoldable pub collaborators :
    (content_id : String)
    → List Person
    → List ContentCollaborator
    → List (ContentCollaborator × Person)
collaborators content_id users [] = []
collaborators content_id users (c ∷ cs) =
    let rest = collaborators content_id users cs in
    if str_eq c.content_id content_id then rest ++ joined users c else rest

unfoldable pub list_collaborators :
    Failing → (content_id : String) → Store → Result Text (List (ContentCollaborator × Person))
unfolding collaborators
list_collaborators f content_id s =
    if f.list_collaborators
    then err database_error
    else ok (collaborators content_id s.users s.content_collaborators)
