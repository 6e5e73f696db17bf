-- ===== src/Content/Listing.antt =====
-- `ListContent` of internal/queries/content_queries.go and of internal/handlers/content_handler.go:
-- a page of the items that the caller owns or shares. The numbers are of 64 bits.
pub mod Pages
pub mod Access
use monkeys_identity.Base.{
  ℕ, zero, suc, ◌+◌, ◌-◌, ◌*◌, Bool, true, false, not, ◌&&◌, ◌||◌, ◌==◌, ltb, leb, String, Text,
  List, [], ◌∷◌, Option, none, some, str_eq, text_eq, codes, any, filter, length, if◌then◌else◌,
  Result, ok, err,
}
use Prim.Native.Nat.{◌/◌, ◌%◌}
use monkeys_identity.Platform.{Unicode, equal_fold}
use monkeys_identity.Accounts.{Reply, refused, answered}
use monkeys_identity.Accounts.Users.{is_live}
use monkeys_identity.Content.{ContentItem, ContentCollaborator, Store, Failing, Call, local}
use monkeys_identity.Content.Items.{collaborator_of, database_error}

pub data ℤ : Type 0 where
  pos : ℕ → ℤ
  negsuc : ℕ → ℤ

abbrev pub two_63 : ℕ
two_63 = 9223372036854775808

abbrev pub two_64 : ℕ
two_64 = 18446744073709551616

-- A sum of two numbers of 64 bits, as a number of 64 bits.
abbrev pub int64 : ℕ → ℤ
int64 n = let r = n % two_64 in if ltb r two_63 then pos r else negsuc (two_64 - 1 - r)

-- Go's division, towards zero, by a positive number
abbrev pub quotient : ℤ → ℕ → ℤ
quotient (pos a) b = pos (a / b)
quotient (negsuc a) b = let q = suc a / b in if q == 0 then pos 0 else negsuc (q - 1)

abbrev pub lt : ℤ → ℕ → Bool
lt (pos a) b = ltb a b
lt (negsuc a) b = true

pub record ListParams : Type 0 where
  pub limit : ℤ
  pub offset : ℕ
  pub sort_by : String
  pub order : Text

pub record ListResult : Type 0 where
  pub items : List ContentItem
  pub total : ℕ
  pub limit : ℕ
  pub offset : ℕ
  pub has_more : Bool
  pub total_pages : ℤ

-- c.organization_id = $1 AND c.deleted_at IS NULL AND (c.owner_id = $2 OR EXISTS …), and the type
abbrev pub visible :
    List ContentCollaborator
    → (organization_id user_id : String) → (content_type : Text) → ContentItem
    → Bool
visible rows organization_id user_id content_type c =
    str_eq c.organization_id organization_id
    && is_live c.deleted_at
    && (str_eq c.owner_id user_id || any (collaborator_of c.id user_id) rows)
    && (text_eq content_type [] || text_eq c.content_type content_type)

abbrev pub limit_of : ℤ → ℕ
limit_of (pos n) = if n == 0 then 20 else n
limit_of (negsuc n) = 20

abbrev pub allowed_sort : String → Bool
allowed_sort s =
    str_eq s "title"
    || str_eq s "status"
    || str_eq s "created_at"
    || str_eq s "updated_at"
    || str_eq s "content_type"

abbrev pub sort_column : String → String
sort_column s = if allowed_sort s then s else "updated_at"

unfoldable pub drop : ℕ → List ContentItem → List ContentItem
drop zero xs = xs
drop (suc n) [] = []
drop (suc n) (x ∷ xs) = drop n xs

unfoldable pub take : ℕ → List ContentItem → List ContentItem
take zero xs = []
take (suc n) [] = []
take (suc n) (x ∷ xs) = x ∷ take n xs

-- `order_by` is ORDER BY as one query answers it: a column, whether it ascends, and the rows. SQL
-- leaves the order of rows that are equal in the column open, and another query may order them
-- otherwise.
module _ (u : Unicode) (order_by : String → Bool → List ContentItem → List ContentItem) where
  abbrev pub listed_rows :
      ListParams
      → (organization_id user_id : String) → (content_type : Text) → Store
      → List ContentItem
  listed_rows params organization_id user_id content_type s =
      order_by (sort_column params.sort_by) (equal_fold u params.order (codes "ASC")) (
        filter (visible s.content_collaborators organization_id user_id content_type)
          s.content_items)

  abbrev pub page : (total limit offset : ℕ) → List ContentItem → ListResult
  page total limit offset rows = record {
    items = take limit (drop offset rows);
    total = total;
    limit = limit;
    offset = offset;
    has_more = lt (int64 (offset + limit)) total;
    total_pages = quotient (int64 (total + limit - 1)) limit;
  }

  unfoldable pub list_content :
      Failing
      → ListParams
      → (organization_id user_id : String) → (content_type : Text) → Store
      → Result Text ListResult
  unfolding equal_fold drop take
  list_content f params organization_id user_id content_type s =
      if f.count_items || f.list_items
      then err database_error
      else let total = length (
          filter (visible s.content_collaborators organization_id user_id content_type)
            s.content_items) in
        ok (
          page total (limit_of params.limit) params.offset
            (listed_rows params organization_id user_id content_type s))

  -- The parameters of the request, with their defaults.
  pub record ListQuery : Type 0 where
    pub content_type : Text
    pub limit : ℤ
    pub offset : ℤ
    pub sort_by : String
    pub order : Text

  abbrev pub given_limit : ℤ → ℤ
  given_limit (pos n) = if n == 0 then pos 20 else pos n
  given_limit (negsuc n) = pos 20

  abbrev pub given_offset : ℤ → ℕ
  given_offset (pos n) = n
  given_offset (negsuc n) = 0

  abbrev pub shown : Store → Result Text ListResult → Reply ListResult × Store
  shown s (err failure) = (refused 500 "Failed to list content", s)
  shown s (ok result) = (answered result, s)

  unfoldable pub list : Call → ListQuery → Store → Reply ListResult × Store
  unfolding list_content
  list call q s = local s call.organization_id (λ org_id. local s call.user_id (λ user_id. shown s (
      list_content call.failing
        (record {
          limit = given_limit q.limit;
          offset = given_offset q.offset;
          sort_by = q.sort_by;
          order = q.order;
        })
        org_id user_id q.content_type s)))
