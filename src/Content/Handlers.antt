-- ===== src/Content/Handlers.antt =====
-- The handlers of internal/handlers/content_handler.go, but for the list. An answer is what the
-- success carries; the text of an error goes to the log alone.
use monkeys_identity.Base.{
  Bool, not, ◌||◌, String, Text, [], Option, none, some, str_eq, codes, equal_text, text_eq,
  if◌then◌else◌, Result, ok, err,
}
use monkeys_identity.Platform.{Unicode, to_lower, trim_space}
use monkeys_identity.Accounts.{Reply, refused, answered, panicked}
use monkeys_identity.Content.{ContentItem, Store, Call, local, parsed}
use monkeys_identity.Content.Slug.{slugify}
use monkeys_identity.Content.Items.{
  Ended, create_content, get_content, update_content, delete_content, update_content_status,
  add_collaborator, get_collaborator_role,
}

pub data AccessFault : Type 0 where
  not_read no_local : AccessFault

abbrev pub owner_or_none : (user_id : String) → Result Text ContentItem → Result AccessFault String
owner_or_none user_id (err failure) = err not_read
owner_or_none user_id (ok item) = if str_eq item.owner_id user_id then ok "owner" else ok ""

-- without a row: the item's owner
abbrev pub fallback_role :
    Call → (content_id user_id : String) → Store → Option String → Result AccessFault String
fallback_role call content_id user_id s none = err no_local
fallback_role call content_id user_id s (some org_id) =
    owner_or_none user_id (get_content call.failing.read_access content_id org_id s)

abbrev pub role_found :
    Call → (content_id user_id : String) → Store → Result Text String → Result AccessFault String
role_found call content_id user_id s (err failure) = err not_read
role_found call content_id user_id s (ok role) =
    if str_eq role "" then fallback_role call content_id user_id s call.organization_id else ok role

unfoldable pub content_role : Call → (content_id : String) → Store → Result AccessFault String
unfolding get_content get_collaborator_role
content_role call content_id s = elim call.user_id [
  | none ↦ err no_local
  | some user_id ↦
      role_found call content_id user_id s (get_collaborator_role call.failing content_id user_id s)
]

-- The guard that every handler but creation begins with: a role that passes the test goes on.
abbrev pub guarded :
    {A : Type 0}
    → Store
    → (unread : Reply A) → (test : String → Bool) → (denied : String) → Result AccessFault String
    → (String → Reply A × Store)
    → Reply A × Store
guarded s unread test denied (err not_read) later = (unread, s)
guarded s unread test denied (err no_local) later = (panicked, s)
guarded s unread test denied (ok role) later =
    if test role then later role else (refused 403 denied, s)

abbrev pub is_owner : String → Bool
is_owner role = str_eq role "owner"

abbrev pub is_collaborator : String → Bool
is_collaborator role = not (str_eq role "")

abbrev pub not_found : {A : Type 0} → Reply A
not_found = refused 404 "Content not found"

abbrev pub no_access : String
no_access = "You do not have access to this content"

-- the end of a handler after its statement
abbrev pub finished : {A : Type 0} → String → A → Ended → Reply A × Store
finished failure value (some error, s) = (refused 500 failure, s)
finished failure value (none, s) = (answered value, s)

pub record CreateRequest : Type 0 where
  pub content_type : Text
  pub title : Text
  pub body : String
  pub summary : String
  pub cover_image_url : String
  pub parent_id : Option String
  pub tags : Text
  pub metadata : Text

pub record UpdateRequest : Type 0 where
  pub title : Option Text
  pub body : Option String
  pub summary : Option String
  pub cover_image_url : Option String
  pub tags : Option Text
  pub metadata : Option Text

abbrev pub is_valid_content_type : Text → Bool
is_valid_content_type t =
    equal_text t "blog"
    || equal_text t "video"
    || equal_text t "tweet"
    || equal_text t "comment"
    || equal_text t "article"
    || equal_text t "post"

unfoldable pub default_json : Text → Text → Text
unfolding trim_space
default_json val fallback = if text_eq (trim_space val) [] then fallback else val

abbrev pub or_given : {A : Type 0} → A → Option A → A
or_given old none = old
or_given old (some new) = new

module _ (u : Unicode) where
  unfoldable pub chosen_type : Text → Text
  unfolding trim_space to_lower
  chosen_type given =
      let t = to_lower u (trim_space given) in if text_eq t [] then codes "blog" else t

  unfoldable pub new_item : (id : String) → CreateRequest → (user_id org_id : String) → ContentItem
  unfolding slugify default_json chosen_type
  new_item id req user_id org_id = record {
    id = id;
    content_type = chosen_type req.content_type;
    title = req.title;
    slug = slugify u req.title;
    body = req.body;
    summary = req.summary;
    cover_image_url = req.cover_image_url;
    parent_id = req.parent_id;
    owner_id = user_id;
    organization_id = org_id;
    status = codes "draft";
    tags = default_json req.tags (codes "[]");
    metadata = default_json req.metadata (codes "{}");
    published_at = none;
    deleted_at = none;
  }

  -- An error of AddCollaborator is logged alone.
  abbrev pub created : Call → ContentItem → (user_id : String) → Ended → Reply ContentItem × Store
  created call item user_id (some error, s) = (refused 500 "Failed to create content", s)
  created call item user_id (none, s) =
      (answered item, (add_collaborator call.failing item.id user_id "owner" user_id s).1)

  abbrev pub create_by : (id : String) → Call → CreateRequest → Store → Reply ContentItem × Store
  create_by id call req s = local s call.user_id (λ user_id. local s call.organization_id (λ org_id.
      let item = new_item id req user_id org_id in
      created call item user_id (create_content call.failing item s)))

  -- `id` is what uuid.New returns.
  unfoldable pub create :
      (id : String) → Call → Option CreateRequest → Store → Reply ContentItem × Store
  unfolding create_content add_collaborator new_item
  create id call body s = parsed s body (λ req.
      if text_eq (trim_space req.title) []
      then (refused 400 "Title is required", s)
      else if not (is_valid_content_type (chosen_type req.content_type))
      then (
        refused 400 "Invalid content_type. Allowed: blog, video, tweet, comment, article, post",
        s,
      )
      else create_by id call req s)

  -- the fields that the request gives, and the slug with the title
  abbrev pub slug_given : ContentItem → Option Text → ContentItem
  slug_given item none = item
  slug_given item (some title) = record item { title = title; slug = slugify u title }

  unfoldable pub merged : UpdateRequest → ContentItem → ContentItem
  unfolding slugify
  merged req item =
      let titled = slug_given item req.title in
      record titled {
        body = or_given item.body req.body;
        summary = or_given item.summary req.summary;
        cover_image_url = or_given item.cover_image_url req.cover_image_url;
        tags = or_given item.tags req.tags;
        metadata = or_given item.metadata req.metadata;
      }

  abbrev pub update_found :
      Call
      → UpdateRequest
      → (org_id : String) → Store
      → Result Text ContentItem
      → Reply ContentItem × Store
  update_found call req org_id s (err failure) = (not_found, s)
  update_found call req org_id s (ok item) =
      let item' = merged req item in
      finished "Failed to update content" item' (update_content call.failing item' org_id s)

  unfoldable pub update :
      (id : String) → Call → Option UpdateRequest → Store → Reply ContentItem × Store
  unfolding content_role get_content update_content merged
  update id call body s = local s call.organization_id (λ org_id.
      guarded s not_found is_collaborator no_access (content_role call id s) (λ role.
        parsed s body
          (λ req. update_found call req org_id s (get_content call.failing.read_item id org_id s))))

  abbrev pub status_valid : Text → Bool
  status_valid status =
      equal_text status "draft"
      || equal_text status "published"
      || equal_text status "archived"
      || equal_text status "private"
      || equal_text status "hidden"

  unfoldable pub update_status : (id : String) → Call → Option Text → Store → Reply Text × Store
  unfolding content_role update_content_status to_lower
  update_status id call body s = local s call.organization_id (λ org_id.
      guarded s not_found is_collaborator no_access (content_role call id s) (λ role.
        parsed s body (λ given.
          let status = to_lower u given in
          if status_valid status
          then finished "Failed to update content status" status
              (update_content_status call.failing call.now id org_id status s)
          else (refused 400 "Status must be draft, published, archived, private, or hidden", s))))

-- The answer carries the role too.
abbrev pub item_shown :
    Call → (id : String) → Store → Result Text ContentItem → Reply (ContentItem × String) × Store
item_shown call id s (err failure) = (not_found, s)
item_shown call id s (ok item) =
    guarded s (refused 500 "Failed to check access") is_collaborator no_access
      (content_role call id s) (λ role. (answered (item, role), s))

unfoldable pub show : (id : String) → Call → Store → Reply (ContentItem × String) × Store
unfolding content_role get_content
show id call s =
    local s call.organization_id
      (λ org_id. item_shown call id s (get_content call.failing.read_item id org_id s))

unfoldable pub delete : (id : String) → Call → Store → Reply (Unit {0}) × Store
unfolding content_role delete_content
delete id call s = local s call.organization_id (λ org_id.
    guarded s not_found is_owner "Only the content owner can delete this item"
      (content_role call id s)
      (λ role.
        finished "Failed to delete content" tt (delete_content call.failing call.now id org_id s)))
