-- ===== src/Base/Rows.antt =====
-- Tests on the rows of a table, before and after an update or a deletion.
use mathlib.Core.Bool.{Bool, true, false}
use mathlib.Core.Logic.{inl, inr}
use mathlib.Core.Option
use mathlib.Core.Option.{Option, none, some}
use mathlib.Core.List.{List, [], ◌∷◌}
use mathlib.Core.Path.{◌≡◌, refl}
use native.Mathlib.Omega.{arith}
use monkeys_identity.Base.Tests.{if◌then◌else◌, Bool-cases}
use monkeys_identity.Base.Lists.{any, all, find, filter, update_where}

module _ {ℓ} {A : Type ℓ} where
  -- A test that an update does not change has the same outcome on the rows.
  pub any-update_where :
      (p q : A → Bool) (g : A → A)
      → ((x : A) → p (g x) ≡ p x)
      → (xs : List A) → any p (update_where q g xs) ≡ any p xs
  unfolding update_where
  any-update_where p q g keeps [] = refl
  any-update_where p q g keeps (x ∷ xs) = elim (Bool-cases (q x)) [
    | inl e ↦ ground (arith, e, keeps x, any-update_where p q g keeps xs)
    | inr e ↦ ground (arith, e, any-update_where p q g keeps xs)
  ]

  -- What every row passes, every row passes after an update that keeps it where it applies.
  pub all-update_where :
      (p q : A → Bool) (g : A → A)
      → ((x : A) → q x ≡ true → p x ≡ true → p (g x) ≡ true)
      → (xs : List A) → all p xs ≡ true
      → all p (update_where q g xs) ≡ true
  unfolding update_where
  all-update_where p q g keeps [] h = refl
  all-update_where p q g keeps (x ∷ xs) h = elim (Bool-cases (q x)) [
    | inl e ↦ ground (arith, e, h, keeps x, all-update_where p q g keeps xs)
    | inr e ↦ ground (arith, e, h, all-update_where p q g keeps xs)
  ]

  -- The rows that a filter keeps pass what every row passes.
  pub all-filter : (p q : A → Bool) (xs : List A) → all p xs ≡ true → all p (filter q xs) ≡ true
  unfolding filter
  all-filter p q [] h = refl
  all-filter p q (x ∷ xs) h = ground (arith, h, all-filter p q xs)

  -- A weaker test.
  pub all_mono :
      (p q : A → Bool)
      → ((x : A) → p x ≡ true → q x ≡ true)
      → (xs : List A) → all p xs ≡ true
      → all q xs ≡ true
  all_mono p q f [] h = refl
  all_mono p q f (x ∷ xs) h = ground (arith, h, f x, all_mono p q f xs)

  -- A row that a lookup finds passes what every row passes.
  pub all-find :
      (p q : A → Bool) (xs : List A) (x : A) → all p xs ≡ true → find q xs ≡ some x → p x ≡ true
  unfolding find
  all-find p q [] x h e = ground (arith, e)
  all-find p q (y ∷ ys) x h e = elim (Bool-cases (q y)) [
    | inl e' ↦ ground (arith, e, e', h)
    | inr e' ↦ ground (arith, e, e', h, all-find p q ys x)
  ]

  -- Nothing is found exactly where no row passes.
  pub find-any : (q : A → Bool) (xs : List A) → any q xs ≡ true → (x : A) × (find q xs ≡ some x)
  unfolding find
  find-any q [] h = ground (arith, h)
  find-any q (x ∷ xs) h = elim (Bool-cases (q x)) [
    | inl e ↦ (x, rw e refl)
    | inr e ↦ let (y, e') = find-any q xs (ground (arith, h, e)) in (y, ground (arith, e, e'))
  ]

  -- An update that applies nowhere.
  pub update_where-none :
      (q : A → Bool) (g : A → A) (xs : List A) → any q xs ≡ false → update_where q g xs ≡ xs
  unfolding update_where
  update_where-none q g [] h = refl
  update_where-none q g (x ∷ xs) h = ground (arith, h, update_where-none q g xs)

  -- A lookup of rows that an update leaves in their test wherever it applies.
  pub find-update_at :
      (p q : A → Bool) (g : A → A)
      → ((x : A) → q x ≡ true → p (g x) ≡ p x)
      → (xs : List A)
      → find p (update_where q g xs) ≡ Option.map (λ x. if q x then g x else x) (find p xs)
  unfolding find update_where
  find-update_at p q g keeps [] = refl
  find-update_at p q g keeps (x ∷ xs) = elim (Bool-cases (q x)) [
    | inl touched ↦ elim (Bool-cases (p x)) [
      | inl h ↦ rw (touched, keeps x touched, h) (rw touched refl)
      | inr h ↦ rw (touched, keeps x touched, h) (find-update_at p q g keeps xs)
    ]
    | inr left ↦ elim (Bool-cases (p x)) [
      | inl h ↦ rw (left, h) (rw left refl)
      | inr h ↦ rw (left, h) (find-update_at p q g keeps xs)
    ]
  ]

  -- No row passes a test that every kept row fails.
  pub any-filter_none :
      (p q : A → Bool)
      → ((x : A) → p x ≡ true → q x ≡ false)
      → (xs : List A) → any p (filter q xs) ≡ false
  unfolding filter
  any-filter_none p q apart [] = refl
  any-filter_none p q apart (x ∷ xs) = ground (arith, apart x, any-filter_none p q apart xs)

  -- A weaker test on some row.
  pub any_mono :
      (p q : A → Bool)
      → ((x : A) → p x ≡ true → q x ≡ true)
      → (xs : List A) → any p xs ≡ true
      → any q xs ≡ true
  any_mono p q f [] h = ground (arith, h)
  any_mono p q f (x ∷ xs) h = ground (arith, h, f x, any_mono p q f xs)

  -- Two tests that agree on every row that passes a third one, which all rows pass.
  pub any_agree :
      (r p q : A → Bool)
      → ((x : A) → r x ≡ true → p x ≡ q x)
      → (xs : List A) → all r xs ≡ true
      → any p xs ≡ any q xs
  any_agree r p q f [] h = refl
  any_agree r p q f (x ∷ xs) h = ground (arith, h, f x, any_agree r p q f xs)

  -- A test that an update leaves wherever it applies.
  pub any-update_at :
      (p q : A → Bool) (g : A → A)
      → ((x : A) → q x ≡ true → p (g x) ≡ p x)
      → (xs : List A) → any p (update_where q g xs) ≡ any p xs
  unfolding update_where
  any-update_at p q g keeps [] = refl
  any-update_at p q g keeps (x ∷ xs) = elim (Bool-cases (q x)) [
    | inl e ↦ ground (arith, e, keeps x, any-update_at p q g keeps xs)
    | inr e ↦ ground (arith, e, any-update_at p q g keeps xs)
  ]

  -- The rows that a filter drops fail the test.
  pub any-filter_at :
      (r p q : A → Bool)
      → ((x : A) → r x ≡ true → q x ≡ false → p x ≡ false)
      → (xs : List A) → all r xs ≡ true
      → any p (filter q xs) ≡ any p xs
  unfolding filter
  any-filter_at r p q drops [] h = refl
  any-filter_at r p q drops (x ∷ xs) h = ground (arith, h, drops x, any-filter_at r p q drops xs)

  -- Two tests that agree on the rows keep the same rows.
  pub filter_agree :
      (r p q : A → Bool)
      → ((x : A) → r x ≡ true → p x ≡ q x)
      → (xs : List A) → all r xs ≡ true
      → filter p xs ≡ filter q xs
  unfolding filter
  filter_agree r p q f [] h = refl
  filter_agree r p q f (x ∷ xs) h = ground (arith, h, f x, filter_agree r p q f xs)
