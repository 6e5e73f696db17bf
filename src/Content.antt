-- ===== src/Content.antt =====
-- The content of internal/handlers/content_handler.go and internal/queries/content_queries.go, with
-- internal/models/content.go. The tables are lists of rows; times are seconds, and `Failing` says
-- which calls fail, for instance over a column that refuses a value.
pub mod Slug
pub mod Items
pub mod Handlers
pub mod Collaborators
pub mod Guard
pub mod Owned
pub mod Reach
pub mod Owner
pub mod Lockout
pub mod Forever
pub mod SelfInvite
pub mod Refusals
pub mod Listing
mod Tests
use monkeys_identity.Base.{ℕ, Bool, String, Text, List, Option, none, some, ◌==◌, if◌then◌else◌}
use monkeys_identity.Accounts.{Reply, refused, panicked}

-- But for the times of its creation and of its last update, which only the order of a list reads.
pub record ContentItem : Type 0 where
  pub id : String
  pub content_type : Text
  pub title : Text
  pub slug : Text
  pub body : String
  pub summary : String
  pub cover_image_url : String
  pub parent_id : Option String
  pub owner_id : String
  pub organization_id : String
  pub status : Text
  pub tags : Text
  pub metadata : Text
  pub published_at : Option ℕ
  pub deleted_at : Option ℕ

pub record ContentCollaborator : Type 0 where
  pub content_id : String
  pub user_id : String
  pub role : String
  pub invited_by : String

-- The columns of `users` that a list of collaborators shows.
pub record Person : Type 0 where
  pub id : String
  pub username : String
  pub email : String
  pub display_name : String

pub record Store : Type 0 where
  pub content_items : List ContentItem
  pub content_collaborators : List ContentCollaborator
  pub users : List Person

-- Which calls fail, but for the constraints; a removal with the text of its error.
pub record Failing : Type 0 where
  pub read_role : Bool
  pub read_access : Bool
  pub read_item : Bool
  pub write_item : Bool
  pub write_collaborator : Bool
  pub remove_collaborator : Option Text
  pub list_collaborators : Bool
  pub count_items : Bool
  pub list_items : Bool

-- The time, and the locals that the middleware set.
pub record Call : Type 0 where
  pub now : ℕ
  pub user_id : Option String
  pub organization_id : Option String
  pub failing : Failing

-- c.Locals(…).(string), which panics where nothing was set
abbrev pub local :
    {A : Type 0} → Store → Option String → (String → Reply A × Store) → Reply A × Store
local s none later = (panicked, s)
local s (some value) later = later value

-- c.BodyParser
abbrev pub parsed : {A B : Type 0} → Store → Option B → (B → Reply A × Store) → Reply A × Store
parsed s none later = (refused 400 "Invalid JSON body", s)
parsed s (some body) later = later body
