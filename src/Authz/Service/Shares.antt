-- ===== src/Authz/Service/Shares.antt =====
-- The access levels of a share.
use monkeys_identity.Base.{
  ℕ, suc, ◌≤◌, true, false, ◌||◌, String, [], ◌∷◌, map, codes, Text, text_eq, ◌≡◌, refl, arith,
  length,
}
use monkeys_identity.Platform.{Unicode, equal_fold, to_lower, contains, has_prefix}
use monkeys_identity.Authz.Service.{authorize_share}

length-map : (f : ℕ → ℕ) (s : Text) → length (map f s) ≡ length s
length-map f [] = refl
length-map f (x ∷ s) = omega (arith, length-map f s)

length_of_text_eq : (s t : Text) → text_eq s t ≡ true → length s ≡ length t
length_of_text_eq [] [] h = refl
length_of_text_eq (a ∷ s) (b ∷ t) h = ground (arith, length_of_text_eq s t)
length_of_text_eq [] (b ∷ t) h = cc
length_of_text_eq (a ∷ s) [] h = cc

has_prefix-length : (p s : Text) → has_prefix p s ≡ true → length p ≤ length s
unfolding has_prefix
has_prefix-length [] s h = omega arith
has_prefix-length (c ∷ p) [] h = cc
has_prefix-length (c ∷ p) (x ∷ s) h = ground (arith, has_prefix-length p s)

contains-length : (s sub : Text) → contains s sub ≡ true → length sub ≤ length s
unfolding contains
contains-length [] sub h = has_prefix-length sub [] h
contains-length (x ∷ s) sub h = ground (arith, has_prefix-length sub (x ∷ s), contains-length s sub)

-- A text is never longer than a text that contains it.
not-contains : (s sub : Text) (k : ℕ) → length s ≡ k → suc k ≤ length sub → contains s sub ≡ false
not-contains s sub k e h = ground (arith, contains-length s sub)

module _ (u : Unicode) where
  equal_fold-length : (s t : Text) → equal_fold u s t ≡ true → length s ≡ length t
  unfolding equal_fold
  equal_fold-length s t h = omega (
    arith,
    length-map u.fold s,
    length-map u.fold t,
    length_of_text_eq (map u.fold s) (map u.fold t) h,
  )

  short-not-contains :
      (action : String)
      → length (codes action) ≡ 4
      → (contains (to_lower u (codes action)) (codes "delete") ≡ false)
        × (contains (to_lower u (codes action)) (codes "share") ≡ false)
  unfolding to_lower
  short-not-contains action h =
      let e = length-map u.to_lower (codes action) in
      (
        not-contains _ (codes "delete") 4 (omega arith) (omega arith),
        not-contains _ (codes "share") 4 (omega arith) (omega arith),
      )

  viewer_length :
      (action : String)
      → (equal_fold u (codes action) (codes "read")
          || equal_fold u (codes action) (codes "list")
          || equal_fold u (codes action) (codes "view"))
        ≡ true
      → length (codes action) ≡ 4
  viewer_length action h = ground (
    arith,
    equal_fold-length (codes action) (codes "read"),
    equal_fold-length (codes action) (codes "list"),
    equal_fold-length (codes action) (codes "view"),
  )

  -- The three access levels of a share are nested, in any case of letters: an editor may do all
  -- that a viewer may, and an owner everything.
  pub authorize_share_nested :
      (viewer editor owner action : String)
      → to_lower u (codes viewer) ≡ codes "viewer"
      → to_lower u (codes editor) ≡ codes "editor"
      → to_lower u (codes owner) ≡ codes "owner"
      → (authorize_share u viewer action ≡ true → authorize_share u editor action ≡ true)
        × (authorize_share u owner action ≡ true)
  unfolding authorize_share
  authorize_share_nested viewer editor owner action v e o = (
    λ h.
        let (no_delete, no_share) =
          short-not-contains action (viewer_length action (rw (v, authorize_share) at h)) in
        rw (e, authorize_share) (rw (no_delete, no_share)),
    rw (o, authorize_share),
  )
