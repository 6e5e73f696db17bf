-- ===== src/Content/Tests.antt =====
-- Tests of the content, and the theorems at concrete inputs.
use monkeys_identity.Base.{
  Bool, true, false, String, List, [], ◌∷◌, none, some, codes, any, find, ◌≡◌, ◌↔◌, refl, inl,
  arith, ◌<◌, find, filter, ok, length,
}
use monkeys_identity.Platform.{ascii}
use monkeys_identity.Accounts.{refused, answered}
use monkeys_identity.Content.{ContentItem, ContentCollaborator, Person, Store, Failing, Call}
use monkeys_identity.Content.Slug.{slugify, collapse}
use monkeys_identity.Content.Slug.Laws.{squeeze, collapse-squeeze}
use monkeys_identity.Content.Slug.Form.{slugify_idem}
use monkeys_identity.Content.Items.{allowed_status}
use monkeys_identity.Content.Handlers.{CreateRequest, create, delete, show, update_status}
use monkeys_identity.Content.Collaborators.{invite, remove}
use monkeys_identity.Content.Owned.{well_formed}
use monkeys_identity.Content.Owner.{owned_by, owner_only}
use monkeys_identity.Content.Reach.{by_create, at_start, after, well_formed-Reachable}
use monkeys_identity.Content.Lockout.{ownerless}
use monkeys_identity.Content.Forever.{ownerless_forever}
use monkeys_identity.Content.SelfInvite.{invite-ownerless}
use monkeys_identity.Content.Refusals.{update_status-allowed}
use monkeys_identity.Content.Listing.{ListParams, pos, list_content, visible, drop, listed_rows}
use monkeys_identity.Content.Listing.Pages.{list_content-has_more}
use monkeys_identity.Content.Listing.Access.{visible-show}

-- The slug of a title, and of one with many dashes.
slug_of_title : slugify ascii (codes "  Hello, World -- Again_ ") ≡ codes "hello-world-again"
unfolding slugify
slug_of_title = refl

slugify_idem_example :
    slugify ascii (slugify ascii (codes " A--b ")) ≡ slugify ascii (codes " A--b ")
slugify_idem_example = slugify_idem ascii (codes " A--b ")

collapse-squeeze_example : collapse 5 (codes "a----") ≡ squeeze (codes "a----")
collapse-squeeze_example = collapse-squeeze 5 (codes "a----") (ground arith)

abbrev nothing_fails : Failing
nothing_fails = record {
  read_role = false;
  read_access = false;
  read_item = false;
  write_item = false;
  write_collaborator = false;
  remove_collaborator = none;
  list_collaborators = false;
  count_items = false;
  list_items = false;
}

abbrev call : Call
call = record { now = 5; user_id = some "ann"; organization_id = some "o"; failing = nothing_fails }

abbrev ann : Person
ann = record { id = "ann"; username = "ann"; email = "ann@x"; display_name = "Ann" }

abbrev empty : Store
empty = record { content_items = []; content_collaborators = []; users = ann ∷ [] }

abbrev item : ContentItem
item = record {
  id = "c1";
  content_type = codes "blog";
  title = codes "Hello";
  slug = codes "hello";
  body = "";
  summary = "";
  cover_image_url = "";
  parent_id = none;
  owner_id = "ann";
  organization_id = "o";
  status = codes "draft";
  tags = codes "[]";
  metadata = codes "{}";
  published_at = none;
  deleted_at = none;
}

abbrev owner_row : ContentCollaborator
owner_row = record { content_id = "c1"; user_id = "ann"; role = "owner"; invited_by = "ann" }

abbrev written : Store
written = record empty { content_items = item ∷ []; content_collaborators = owner_row ∷ [] }

abbrev request : CreateRequest
request = record {
  content_type = codes "";
  title = codes "Hello";
  body = "";
  summary = "";
  cover_image_url = "";
  parent_id = none;
  tags = codes "";
  metadata = codes "";
}

-- Creation writes the item and the row of its owner.
creation : create ascii "c1" call (some request) empty ≡ (answered item, written)
unfolding create
creation = refl

well_formed-Reachable_example : well_formed (create ascii "c1" call (some request) empty).1 ≡ true
unfolding well_formed
well_formed-Reachable_example =
    well_formed-Reachable ascii empty (create ascii "c1" call (some request) empty).1 refl (
      after empty (create ascii "c1" call (some request) empty).1 at_start
        (by_create "c1" call (some request)))

owner_only_example : any (owned_by "c1" "ann") written.content_items ≡ true
unfolding delete well_formed find
owner_only_example = owner_only ascii "c1" "bob" "ann" call none written refl refl (inl refl)

invite-ownerless_example : ownerless "c1" (invite "c1" call (some "ann") written).1 ≡ true
unfolding invite well_formed find
invite-ownerless_example = invite-ownerless "c1" "ann" call written refl refl refl

abbrev lost : Store
lost = record written { content_collaborators = record owner_row { role = "co-author" } ∷ [] }

ownerless_forever_example :
    ((delete "c1" call lost).1 ≡ lost)
    × ((invite "c1" call (some "bob") lost).1 ≡ lost)
    × ((remove ascii "c1" "bob" call lost).1 ≡ lost)
unfolding ownerless
ownerless_forever_example =
    ownerless_forever "c1" ascii lost lost refl at_start call (some "bob") "bob"

update_status-allowed_example : allowed_status (codes "published") ≡ true
unfolding update_status find
update_status-allowed_example =
    update_status-allowed ascii "c1" "bob" call written (some (codes "Published"))
      (codes "published") refl

-- A status that the handler accepts and the table refuses.
private_status :
    (update_status ascii "c1" call (some (codes "private")) written).0
    ≡ refused 500 "Failed to update content status"
unfolding update_status find
private_status = refl

abbrev unsorted : String → Bool → List ContentItem → List ContentItem
unsorted column ascending rows = rows

abbrev params : ListParams
params = record { limit = pos 1; offset = 0; sort_by = "title"; order = codes "asc" }

visible-show_example :
    (visible written.content_collaborators "o" "ann" [] item ≡ true)
    ↔ ((role : String) × ((show "c1" call written).0 ≡ answered (item, role)))
unfolding well_formed find
visible-show_example =
    visible-show "c1" "o" "ann" call written item refl refl refl refl refl refl refl

-- The largest limit: everything is on the page, and yet there seems to be more.
overflowing :
    list_content ascii unsorted nothing_fails
      (record params { limit = pos 9223372036854775807; offset = 1 })
      "o"
      "ann"
      []
      written
    ≡ ok (record {
      items = [];
      total = 1;
      limit = 9223372036854775807;
      offset = 1;
      has_more = true;
      total_pages = pos 1;
    })
unfolding list_content filter
overflowing = refl

list_content-has_more_example :
    (false ≡ true) ↔ (0 < length (drop 1 (listed_rows ascii unsorted params "o" "ann" [] written)))
unfolding list_content filter
list_content-has_more_example =
    list_content-has_more ascii unsorted nothing_fails params "o" "ann" [] written
      (record {
        items = item ∷ [];
        total = 1;
        limit = 1;
        offset = 0;
        has_more = false;
        total_pages = pos 1;
      })
      (λ column ascending xs. refl) (ground arith) refl
