-- ===== src/Content/Listing/Pages.antt =====
-- A page of a list, and the numbers that describe it.
use monkeys_identity.Base.{
  ℕ, zero, suc, ◌+◌, ◌-◌, ◌<◌, Bool, true, String, Text, codes, List, [], ◌∷◌, length, filter, ok,
  ◌≡◌, ◌↔◌, arith,
}
use monkeys_identity.Platform.{Unicode, equal_fold}
use monkeys_identity.Content.{ContentItem, Store, Failing}
use monkeys_identity.Content.Listing.{
  pos, two_63, int64, drop, ListParams, ListResult, list_content, listed_rows, limit_of, visible,
  sort_column,
}

small : (n : ℕ) → n < two_63 → int64 n ≡ pos n
small n h = ground arith

length-drop : (n : ℕ) (xs : List ContentItem) → length (drop n xs) ≡ length xs - n
unfolding drop
length-drop zero xs = ground arith
length-drop (suc n) [] = ground arith
length-drop (suc n) (x ∷ xs) = ground (arith, length-drop n xs)

module _ (u : Unicode) (order_by : String → Bool → List ContentItem → List ContentItem)
    (f : Failing) (params : ListParams) (org_id user_id : String) (content_type : Text)
    (s : Store) where
  abbrev rows : List ContentItem
  rows = listed_rows u order_by params org_id user_id content_type s

  abbrev total : ℕ
  total =
      length (filter (visible s.content_collaborators org_id user_id content_type) s.content_items)

  abbrev KeepsLength : Type 0
  KeepsLength =
      (column : String) (ascending : Bool) (xs : List ContentItem)
      → length (order_by column ascending xs) ≡ length xs

  kept_length : KeepsLength → length rows ≡ total
  kept_length sorted =
      sorted (sort_column params.sort_by) (equal_fold u params.order (codes "ASC"))
        (filter (visible s.content_collaborators org_id user_id content_type) s.content_items)

  -- Where the order keeps the number of rows and the offset and the limit together stay below 2 ^
  -- 63, a page says that there is more exactly if rows follow it.
  pub list_content-has_more :
      (r : ListResult)
      → KeepsLength
      → params.offset + limit_of params.limit < two_63
      → list_content u order_by f params org_id user_id content_type s ≡ ok r
      → (r.has_more ≡ true) ↔ (0 < length (drop (params.offset + limit_of params.limit) rows))
  unfolding list_content
  list_content-has_more r sorted small_enough h =
      let n = params.offset + limit_of params.limit in
      let same : length rows ≡ total = kept_length sorted in
      ground (arith, h, small n small_enough, length-drop n rows, same)
