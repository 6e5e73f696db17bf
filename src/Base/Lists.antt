-- ===== src/Base/Lists.antt =====
-- Lists over the native numbers, and predicates on lists by recursion.
use Prim.Native.Nat.{ℕ, suc}
use mathlib.Core.Bool.{Bool, true, false, ◌&&◌, ◌||◌}
use mathlib.Core.Logic.{◌⊎◌, inl, inr}
use mathlib.Core.Option
use mathlib.Core.Option.{Option, none, some}
use mathlib.Core.List.{List, [], ◌∷◌}
use mathlib.Core.Path.{◌≡◌, refl}
use native.Mathlib.Omega.{arith}
use monkeys_identity.Base.Tests.{if◌then◌else◌, Bool-cases}

module _ {ℓ} {A : Type ℓ} where
  abbrev pub length : List A → ℕ
  length [] = 0
  length (x ∷ xs) = suc (length xs)

  -- Some element passes the test.
  abbrev pub any : (A → Bool) → List A → Bool
  any p [] = false
  any p (x ∷ xs) = p x || any p xs

  -- Every element passes the test.
  abbrev pub all : (A → Bool) → List A → Bool
  all p [] = true
  all p (x ∷ xs) = p x && all p xs

module _ {ℓ} {A : Type ℓ} where
  -- The first row that passes the test.
  unfoldable pub find : (A → Bool) → List A → Option A
  find p [] = none
  find p (x ∷ xs) = if p x then some x else find p xs

  -- The rows that pass the test.
  unfoldable pub filter : (A → Bool) → List A → List A
  filter p [] = []
  filter p (x ∷ xs) = let rest = filter p xs in if p x then x ∷ rest else rest

  -- SQL's UPDATE: every row that passes the test is rewritten.
  unfoldable pub update_where : (A → Bool) → (A → A) → List A → List A
  update_where p f [] = []
  update_where p f (x ∷ xs) = (if p x then f x else x) ∷ update_where p f xs

  -- An update that does not change the test is seen by a lookup with the same test.
  pub find-update_where :
      (p : A → Bool) (f : A → A)
      → ((x : A) → p (f x) ≡ p x)
      → (xs : List A) → find p (update_where p f xs) ≡ Option.map f (find p xs)
  unfolding find update_where
  find-update_where p f keeps [] = refl
  find-update_where p f keeps (x ∷ xs) = elim (Bool-cases (p x)) [
    | inl h ↦ rw h (rw (keeps x) (rw h refl))
    | inr h ↦ rw h (rw h (find-update_where p f keeps xs))
  ]

  -- An update by another test, which keeps this one, is seen by a lookup where it applies.
  pub find-update_other :
      (p q : A → Bool) (f : A → A)
      → ((x : A) → p (f x) ≡ p x)
      → (xs : List A)
      → find p (update_where q f xs) ≡ Option.map (λ x. if q x then f x else x) (find p xs)
  unfolding find update_where
  find-update_other p q f keeps [] = refl
  find-update_other p q f keeps (x ∷ xs) = elim (Bool-cases (q x)) [
    | inl touched ↦ elim (Bool-cases (p x)) [
      | inl h ↦ rw (touched, keeps x, h) (rw touched refl)
      | inr h ↦ rw (touched, keeps x, h) (find-update_other p q f keeps xs)
    ]
    | inr left ↦ elim (Bool-cases (p x)) [
      | inl h ↦ rw (left, h) (rw left refl)
      | inr h ↦ rw (left, h) (find-update_other p q f keeps xs)
    ]
  ]

  -- Rows that an update does not touch are found as before.
  pub find-untouched :
      (p q : A → Bool) (g : A → A)
      → ((x : A) → q x ≡ true → p x ≡ false)
      → ((x : A) → q x ≡ true → p (g x) ≡ false)
      → (xs : List A) → find p (update_where q g xs) ≡ find p xs
  unfolding find update_where
  find-untouched p q g apart apart' [] = refl
  find-untouched p q g apart apart' (x ∷ xs) = elim (Bool-cases (q x)) [
    | inl h ↦ rw h (rw (apart x h, apart' x h) (find-untouched p q g apart apart' xs))
    | inr h ↦ rw h (ground (arith, find-untouched p q g apart apart' xs))
  ]

  -- Where every row that passes one test is rewritten so that it fails the other one, and the other
  -- test asks for the first, nothing is found.
  pub find-none :
      (p q : A → Bool) (g : A → A)
      → ((x : A) → p x ≡ true → q x ≡ true)
      → ((x : A) → q x ≡ true → p (g x) ≡ false)
      → (xs : List A) → find p (update_where q g xs) ≡ none
  unfolding find update_where
  find-none p q g within gone [] = refl
  find-none p q g within gone (x ∷ xs) = elim (Bool-cases (q x)) [
    | inl h ↦ rw h (rw (gone x h) (find-none p q g within gone xs))
    | inr h ↦ rw h (elim (Bool-cases (p x)) [
      | inl e ↦ absurd (ground (arith, within x e))
      | inr e ↦ rw e (find-none p q g within gone xs)
    ])
  ]

  -- The same for the rows that a filter keeps.
  pub filter-none :
      (p q : A → Bool) (g : A → A)
      → ((x : A) → p x ≡ true → q x ≡ true)
      → ((x : A) → q x ≡ true → p (g x) ≡ false)
      → (xs : List A) → filter p (update_where q g xs) ≡ []
  unfolding filter update_where
  filter-none p q g within gone [] = refl
  filter-none p q g within gone (x ∷ xs) = elim (Bool-cases (q x)) [
    | inl h ↦ rw h (rw (gone x h) (filter-none p q g within gone xs))
    | inr h ↦ rw h (elim (Bool-cases (p x)) [
      | inl e ↦ absurd (ground (arith, within x e))
      | inr e ↦ rw e (filter-none p q g within gone xs)
    ])
  ]

  -- What was found shows that something passes any test that it passes.
  pub any-found :
      (p q : A → Bool) (x : A) (xs : List A) → find p xs ≡ some x → q x ≡ true → any q xs ≡ true
  unfolding find
  any-found p q x [] h hq = ground arith
  any-found p q x (y ∷ ys) h hq = elim (Bool-cases (p y)) [
    | inl e ↦ ground (arith, e, hq)
    | inr e ↦ ground (arith, any-found p q x ys (ground (arith, e)) hq)
  ]

  -- What a lookup finds passes its test.
  pub find_sound : (p : A → Bool) (xs : List A) (x : A) → find p xs ≡ some x → p x ≡ true
  unfolding find
  find_sound p [] x h = cc
  find_sound p (y ∷ xs) x h = elim (Bool-cases (p y)) [
    | inl e ↦ let h' = rw e at h in let same : y ≡ x = ground arith in rw (← same) e
    | inr e ↦ find_sound p xs x (rw e at h)
  ]

module _ {ℓ κ} {A : Type ℓ} (P : A → Type κ) where
  abbrev pub All : List A → Type κ
  All [] = Unit
  All (x ∷ xs) = P x × All xs

-- The predicate holds of some element.
-- A property of all rows survives an update that keeps it where it applies.
pub All-update_where {ℓ κ} :
    {A : Type ℓ} (P : A → Type κ) (q : A → Bool) (g : A → A)
    → ((x : A) → P x → P (g x))
    → (xs : List A) → All P xs
    → All P (update_where q g xs)
unfolding update_where
All-update_where P q g keeps [] h = tt
All-update_where P q g keeps (x ∷ xs) h = elim (Bool-cases (q x)) [
  | inl e ↦ rw e (keeps x h.0, All-update_where P q g keeps xs h.1)
  | inr e ↦ rw e (h.0, All-update_where P q g keeps xs h.1)
]

abbrev pub Any {ℓ} : {A : Type ℓ} → (A → Type 0) → List A → Type 0
Any P [] = ⊥
Any P (x ∷ xs) = P x ⊎ Any P xs

-- Every row of the first list is still in the second.
abbrev pub Kept : {A : Type 0} → List A → List A → Type 0
Kept xs ys = All (λ x. Any (λ y. y ≡ x) ys) xs

any-contained :
    {A : Type 0} (p : A → Bool) (x : A) (ys : List A)
    → Any (λ y. y ≡ x) ys
    → p x ≡ true
    → any p ys ≡ true
any-contained p x [] h e = absurd h
any-contained p x (y ∷ ys) (inl same) e = rw same (ground (arith, e))
any-contained p x (y ∷ ys) (inr later) e = ground (arith, any-contained p x ys later e)

-- A test that some row passes is passed after rows were added, where a weaker test is asked for.
pub any-Kept :
    {A : Type 0} (p q : A → Bool) (xs ys : List A)
    → ((x : A) → p x ≡ true → q x ≡ true)
    → Kept xs ys
    → any p xs ≡ true
    → any q ys ≡ true
any-Kept p q [] ys weaker kept h = ground arith
any-Kept p q (x ∷ xs) ys weaker (there, rest) h = elim (Bool-cases (p x)) [
  | inl e ↦ any-contained q x ys there (weaker x e)
  | inr e ↦ any-Kept p q xs ys weaker rest (ground (arith, e))
]

-- An update that keeps a property of the rows that it rewrites keeps it of all.
pub All-update_at {ℓ κ} :
    {A : Type ℓ} (P : A → Type κ) (q : A → Bool) (g : A → A)
    → ((x : A) → q x ≡ true → P x → P (g x))
    → (xs : List A) → All P xs
    → All P (update_where q g xs)
unfolding update_where
All-update_at P q g keeps [] h = tt
All-update_at P q g keeps (x ∷ xs) h = elim (Bool-cases (q x)) [
  | inl e ↦ rw e (keeps x e h.0, All-update_at P q g keeps xs h.1)
  | inr e ↦ rw e (h.0, All-update_at P q g keeps xs h.1)
]

-- A stronger property of all rows is a weaker one of all.
pub All-map {ℓ κ μ} :
    {A : Type ℓ} (P : A → Type κ) (Q : A → Type μ)
    → ((x : A) → P x → Q x)
    → (xs : List A) → All P xs
    → All Q xs
All-map P Q weaker [] h = tt
All-map P Q weaker (x ∷ xs) h = (weaker x h.0, All-map P Q weaker xs h.1)
