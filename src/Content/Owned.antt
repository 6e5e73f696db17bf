-- ===== src/Content/Owned.antt =====
-- The invariant of the content's tables, and that every statement keeps it.
use monkeys_identity.Base.{
  ℕ, Bool, true, not, ◌&&◌, ◌||◌, String, Text, List, [], ◌∷◌, Option, none, some, str_eq, any, all,
  update_where, if_both, ◌≡◌, refl, arith, eq_iff, Bool-cases, inl, inr, any-update_where,
  all-update_where, all-filter, all_mono,
}
use monkeys_identity.Content.{ContentItem, ContentCollaborator, Store, Failing}
use monkeys_identity.Content.Items.{
  Ended, removing, create_content, update_content, delete_content, update_content_status,
  add_collaborator, remove_collaborator, item_of, collaborator_of, removable, write_items,
  rewritten, deleted, with_status,
}

abbrev pub owns : ContentCollaborator → ContentItem → Bool
owns c i = str_eq i.id c.content_id && str_eq i.owner_id c.user_id

-- A row has one of the two roles, and an owner's row is of the user who owns the item.
abbrev pub row_sound : List ContentItem → ContentCollaborator → Bool
row_sound items c = (str_eq c.role "owner" && any (owns c) items) || str_eq c.role "co-author"

abbrev pub distinct : List ContentItem → Bool
distinct [] = true
distinct (i ∷ is) = not (any (λ j. str_eq j.id i.id) is) && distinct is

unfoldable pub well_formed : Store → Bool
well_formed s = distinct s.content_items && all (row_sound s.content_items) s.content_collaborators

abbrev LeavesSound : Ended → Type 0
LeavesSound e = well_formed e.1 ≡ true

abbrev pub KeepsOwner : (ContentItem → ContentItem) → Type 0
KeepsOwner g = (i : ContentItem) → ((g i).id ≡ i.id) × ((g i).owner_id ≡ i.owner_id)

module _ (q : ContentItem → Bool) (g : ContentItem → ContentItem) (keeps : KeepsOwner g) where
  pub any_id-update_where :
      (id : String) (is : List ContentItem)
      → any (λ j. str_eq j.id id) (update_where q g is) ≡ any (λ j. str_eq j.id id) is
  any_id-update_where id is =
      any-update_where (λ j. str_eq j.id id) q g (λ i. ground (arith, (keeps i).0)) is

  distinct-update_where :
      (is : List ContentItem) → distinct is ≡ true → distinct (update_where q g is) ≡ true
  unfolding update_where
  distinct-update_where [] h = refl
  distinct-update_where (i ∷ is) h = elim (Bool-cases (q i)) [
    | inl e ↦
        rw (e, (keeps i).0)
          (ground (arith, h, any_id-update_where i.id is, distinct-update_where is))
    | inr e ↦ rw e (ground (arith, h, any_id-update_where i.id is, distinct-update_where is))
  ]

  owns-update_where :
      (c : ContentCollaborator) (is : List ContentItem)
      → any (owns c) (update_where q g is) ≡ any (owns c) is
  owns-update_where c is =
      any-update_where (owns c) q g (λ i. ground (arith, (keeps i).0, (keeps i).1)) is

  items_kept :
      (s : Store)
      → well_formed s ≡ true
      → well_formed (record s { content_items = update_where q g s.content_items }) ≡ true
  unfolding well_formed
  items_kept s h = ground (
    arith,
    h,
    distinct-update_where s.content_items,
    all_mono (row_sound s.content_items) (row_sound (update_where q g s.content_items))
        (λ c e. ground (arith, e, owns-update_where c s.content_items)) s.content_collaborators,
  )

write_items-kept :
    (f : Failing) (id org_id : String) (g : ContentItem → ContentItem) (s : Store)
    → KeepsOwner g
    → well_formed s ≡ true
    → well_formed (write_items f id org_id g s).1 ≡ true
write_items-kept f id org_id g s keeps h = elim (Bool-cases f.write_item) [
  | inl e ↦ rw e h
  | inr e ↦ elim (Bool-cases (any (item_of id org_id) s.content_items)) [
    | inl e' ↦ rw (e, e') (items_kept (item_of id org_id) g keeps s h)
    | inr e' ↦ rw (e, e') h
  ]
]

pub update_content-kept :
    (f : Failing) (item : ContentItem) (org_id : String) (s : Store)
    → well_formed s ≡ true
    → well_formed (update_content f item org_id s).1 ≡ true
unfolding update_content
update_content-kept f item org_id s h =
    write_items-kept f item.id org_id (rewritten item) s (λ i. (refl, refl)) h

pub delete_content-kept :
    (f : Failing) (now : ℕ) (id org_id : String) (s : Store)
    → well_formed s ≡ true
    → well_formed (delete_content f now id org_id s).1 ≡ true
unfolding delete_content
delete_content-kept f now id org_id s h =
    write_items-kept f id org_id (deleted now) s (λ i. (refl, refl)) h

pub update_content_status-kept :
    (f : Failing) (now : ℕ) (id org_id : String) (status : Text) (s : Store)
    → well_formed s ≡ true
    → well_formed (update_content_status f now id org_id status s).1 ≡ true
unfolding update_content_status
update_content_status-kept f now id org_id status s h =
    if_both LeavesSound _ _ _ h (
      write_items-kept f id org_id (with_status now status) s (λ i. (ground arith, ground arith)) h)

removing-kept :
    (id target : String) (s : Store) (failure : Option Text)
    → well_formed s ≡ true
    → well_formed (removing id target s failure).1 ≡ true
unfolding well_formed
removing-kept id target s (some failure) h = h
removing-kept id target s none h = ground (
  arith,
  h,
  all-filter (row_sound s.content_items) (λ c. not (removable id target c)) s.content_collaborators,
)

pub remove_collaborator-kept :
    (f : Failing) (id target : String) (s : Store)
    → well_formed s ≡ true
    → well_formed (remove_collaborator f id target s).1 ≡ true
unfolding remove_collaborator
remove_collaborator-kept f id target s h = removing-kept id target s f.remove_collaborator h

pub add_collaborator-kept :
    (f : Failing) (id user_id invited_by : String) (s : Store)
    → well_formed s ≡ true
    → well_formed (add_collaborator f id user_id "co-author" invited_by s).1 ≡ true
unfolding add_collaborator well_formed
add_collaborator-kept f id user_id invited_by s h = ground (
  arith,
  h,
  all-update_where (row_sound s.content_items) (collaborator_of id user_id)
      (λ c. record c { role = "co-author" }) (λ c e e'. refl) s.content_collaborators,
)

-- The item of a key that was free, with the owner's row.
pub create_content-kept :
    (f : Failing) (item : ContentItem) (s : Store)
    → well_formed s ≡ true
    → well_formed (create_content f item s).1 ≡ true
unfolding create_content well_formed
create_content-kept f item s h = ground (
  arith,
  h,
  all_mono (row_sound s.content_items) (row_sound (item ∷ s.content_items))
      (λ c k. ground (arith, k)) s.content_collaborators,
)

pub add_owner-kept :
    (f : Failing) (item : ContentItem) (s : Store)
    → any (λ i. str_eq i.id item.id && str_eq i.owner_id item.owner_id) s.content_items ≡ true
    → well_formed s ≡ true
    → well_formed (add_collaborator f item.id item.owner_id "owner" item.owner_id s).1 ≡ true
unfolding add_collaborator well_formed
add_owner-kept f item s k h = ground (
  arith,
  h,
  k,
  all-update_where (row_sound s.content_items) (collaborator_of item.id item.owner_id)
      (λ c. record c { role = "owner" })
      (λ c e e'.
        let at_id : c.content_id ≡ item.id = ground (arith, e, eq_iff c.content_id item.id) in
        let at_user : c.user_id ≡ item.owner_id =
          ground (arith, e, eq_iff c.user_id item.owner_id) in
        rw (at_id, at_user) (ground (arith, k)))
      s.content_collaborators,
)
