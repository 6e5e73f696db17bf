-- ===== src/Content/Owner.antt =====
-- Who has the role of an owner.
use monkeys_identity.Base.{
  Bool, true, false, ◌&&◌, String, List, [], ◌∷◌, Option, none, some, str_eq, any, find, Result, ok,
  err, ◌≡◌, refl, ◌⊎◌, arith, eq_iff, Bool-cases, inl, inr, find_sound, any-found, all-find,
}
use monkeys_identity.Accounts.{Reply, answered}
use monkeys_identity.Platform.{Unicode}
use monkeys_identity.Content.{ContentItem, ContentCollaborator, Store, Call, local}
use monkeys_identity.Content.Items.{
  Ended, get_content, get_collaborator_role, item_of, collaborator_of, role_of, found_item,
}
use monkeys_identity.Content.Handlers.{
  AccessFault, not_read, no_local, content_role, role_found, fallback_role, owner_or_none, is_owner,
  guarded, finished, delete,
}
use monkeys_identity.Content.Collaborators.{invite, remove}
use monkeys_identity.Content.Owned.{well_formed, distinct, owns, row_sound}

abbrev pub owned_by : (id user_id : String) → ContentItem → Bool
owned_by id user_id i = str_eq i.id id && str_eq i.owner_id user_id

weaker :
    (id c : String) (is : List ContentItem)
    → any (owned_by id c) is ≡ true
    → any (λ j. str_eq j.id id) is ≡ true
weaker id c [] k = ground (arith, k)
weaker id c (j ∷ js) k = ground (arith, k, weaker id c js)

-- One item has the id, so that it has one owner.
pub owners_unique :
    (id a b : String) (is : List ContentItem)
    → distinct is ≡ true
    → any (owned_by id a) is ≡ true
    → any (owned_by id b) is ≡ true
    → a ≡ b
owners_unique id a b [] h ha hb = ground (arith, ha)
owners_unique id a b (i ∷ is) h ha hb = elim (Bool-cases (str_eq i.id id)) [
  | inl e ↦
      let at_id : i.id ≡ id = ground (arith, e, eq_iff i.id id) in
      let free : any (λ j. str_eq j.id id) is ≡ false = ground (arith, h, at_id) in
      ground (
        arith,
        ha,
        hb,
        e,
        free,
        weaker id a is,
        weaker id b is,
        eq_iff i.owner_id a,
        eq_iff i.owner_id b,
      )
  | inr e ↦
      owners_unique id a b is (ground (arith, h)) (ground (arith, e, ha)) (ground (arith, e, hb))
]

empty_owner : is_owner "" ≡ true → ⊥
empty_owner h = ground (arith, h)

co_author_owner : (role : String) → str_eq role "co-author" ≡ true → is_owner role ≡ true → ⊥
co_author_owner role e h =
    let same : role ≡ "co-author" = ground (arith, e, eq_iff role "co-author") in
    let h' : is_owner "co-author" ≡ true = rw same at h in ground (arith, h')

found-Owner :
    (id org_id user_id : String) (s : Store) (o : Option ContentItem) (role : String)
    → find (item_of id org_id) s.content_items ≡ o
    → owner_or_none user_id (found_item o) ≡ ok role
    → is_owner role ≡ true
    → any (owned_by id user_id) s.content_items ≡ true
found-Owner id org_id user_id s none role e h t = ground (arith, h)
found-Owner id org_id user_id s (some i) role e h t =
    any-found (item_of id org_id) (owned_by id user_id) i s.content_items e
      (elim (Bool-cases (str_eq i.owner_id user_id)) [
        | inl o ↦ ground (arith, o, find_sound (item_of id org_id) s.content_items i e)
        | inr o ↦
            let none_left : role ≡ "" = ground (arith, h, o) in
            absurd (empty_owner (rw none_left at t))
      ])

fallback-Owner :
    (call : Call) (id user_id role : String) (s : Store) (o : Option String)
    → fallback_role call id user_id s o ≡ ok role
    → is_owner role ≡ true
    → any (owned_by id user_id) s.content_items ≡ true
unfolding get_content
fallback-Owner call id user_id role s none h t = ground (arith, h)
fallback-Owner call id user_id role s (some org_id) h t =
    elim (Bool-cases call.failing.read_access) [
      | inl e ↦ ground (arith, h, e)
      | inr e ↦
          found-Owner id org_id user_id s (find (item_of id org_id) s.content_items) role refl
            (ground (arith, h, e)) t
    ]

row-Owner :
    (call : Call) (id user_id role : String) (s : Store) (o : Option ContentCollaborator)
    → well_formed s ≡ true
    → find (collaborator_of id user_id) s.content_collaborators ≡ o
    → role_found call id user_id s (ok (role_of o)) ≡ ok role
    → is_owner role ≡ true
    → any (owned_by id user_id) s.content_items ≡ true
unfolding well_formed
row-Owner call id user_id role s none w e h t =
    fallback-Owner call id user_id role s call.organization_id h t
row-Owner call id user_id role s (some c) w e h t = elim (Bool-cases (str_eq c.role "")) [
  | inl e' ↦ fallback-Owner call id user_id role s call.organization_id (ground (arith, h, e')) t
  | inr e' ↦
      let sound : row_sound s.content_items c ≡ true =
        all-find (row_sound s.content_items) (collaborator_of id user_id) s.content_collaborators c
          (ground (arith, w)) e in
      let at_row : collaborator_of id user_id c ≡ true =
        find_sound (collaborator_of id user_id) s.content_collaborators c e in
      let same : c.role ≡ role = ground (arith, h, e') in
      let own : any (owns c) s.content_items ≡ true =
        (let t' : is_owner c.role ≡ true = ground (arith, t, same) in
          ground (arith, sound, co_author_owner c.role, t')) in
      let at_id : c.content_id ≡ id = ground (arith, at_row, eq_iff c.content_id id) in
      let at_user : c.user_id ≡ user_id = ground (arith, at_row, eq_iff c.user_id user_id) in
      ground (arith, own, at_id, at_user)
]

-- Where the check answers that the caller is the owner, an item with this id is the caller's.
pub content_role-Owner :
    (call : Call) (id user_id role : String) (s : Store)
    → well_formed s ≡ true
    → call.user_id ≡ some user_id
    → content_role call id s ≡ ok role
    → is_owner role ≡ true
    → any (owned_by id user_id) s.content_items ≡ true
unfolding content_role get_collaborator_role
content_role-Owner call id user_id role s w e h t = elim (Bool-cases call.failing.read_role) [
  | inl e' ↦ ground (arith, h, e, e')
  | inr e' ↦
      row-Owner call id user_id role s (find (collaborator_of id user_id) s.content_collaborators) w
        refl (ground (arith, h, e, e')) t
]

-- A local that was set, and a guard that was passed.
pub local-passed :
    {A : Type 0} (s : Store) (o : Option String) (later : String → Reply A × Store) (a : A)
    → (local s o later).0 ≡ answered a
    → (value : String) × (o ≡ some value) × ((later value).0 ≡ answered a)
local-passed s none later a h = ground (arith, h)
local-passed s (some value) later a h = (value, refl, h)

pub guarded-passed :
    {A : Type 0} (s : Store) (unread : Reply A) (test : String → Bool) (denied : String)
    (access : Result AccessFault String) (later : String → Reply A × Store) (a : A)
    → ((b : A) → unread ≡ answered b → ⊥)
    → (guarded s unread test denied access later).0 ≡ answered a
    → (role : String) × (access ≡ ok role) × (test role ≡ true)
guarded-passed s unread test denied (err not_read) later a k h = absurd (k a h)
guarded-passed s unread test denied (err no_local) later a k h = ground (arith, h)
guarded-passed s unread test denied (ok role) later a k h = elim (Bool-cases (test role)) [
  | inl e ↦ (role, refl, e)
  | inr e ↦ ground (arith, h, e)
]

-- A success has no error, and carries the value.
pub finished-answered :
    {A : Type 0} (failure : String) (value a : A) (e : Ended)
    → (finished failure value e).0 ≡ answered a
    → (e.0 ≡ none) × (value ≡ a)
finished-answered failure value a (none, s) h = (refl, ground (arith, h))
finished-answered failure value a (some error, s) h = ground (arith, h)

pub guarded-later :
    {A : Type 0} (s : Store) (test : String → Bool) (unread : Reply A) (denied : String)
    (role : String) (access : Result AccessFault String) (later : String → Reply A × Store)
    → access ≡ ok role
    → test role ≡ true
    → guarded s unread test denied access later ≡ later role
guarded-later s test unread denied role access later e t = rw (e, t) refl

-- In well-formed tables, whoever gets a success for deleting an item, inviting to it or removing
-- someone from it owns an item with this id.
pub owner_only :
    (u : Unicode) (id target user_id : String) (call : Call) (body : Option String) (s : Store)
    → well_formed s ≡ true
    → call.user_id ≡ some user_id
    → ((delete id call s).0 ≡ answered tt)
      ⊎ ((invited : String) × ((invite id call body s).0 ≡ answered invited))
      ⊎ ((remove u id target call s).0 ≡ answered tt)
    → any (owned_by id user_id) s.content_items ≡ true
unfolding delete invite remove
owner_only u id target user_id call body s w e (inl h) =
    let (org_id, e', h') = local-passed s call.organization_id _ tt h in
    let (role, r, t) =
      guarded-passed s _ is_owner _ (content_role call id s) _ tt (λ b k. ground (arith, k)) h' in
    content_role-Owner call id user_id role s w e r t
owner_only u id target user_id call body s w e (inr (inl (invited, h))) =
    let (role, r, t) =
      guarded-passed s _ is_owner _ (content_role call id s) _ invited (λ b k. ground (arith, k))
        h in
    content_role-Owner call id user_id role s w e r t
owner_only u id target user_id call body s w e (inr (inr h)) =
    let (role, r, t) =
      guarded-passed s _ is_owner _ (content_role call id s) _ tt (λ b k. ground (arith, k)) h in
    content_role-Owner call id user_id role s w e r t
