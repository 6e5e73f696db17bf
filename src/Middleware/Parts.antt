-- ===== src/Middleware/Parts.antt =====
-- The parts of a text between separators, as strings.Split finds them.
use Prim.Native.String
use Prim.Native.String.append
use Prim.Native.Char.{Char, code}
use monkeys_identity.Base.{
  ℕ, Bool, true, not, ◌&&◌, String, [], ◌∷◌, ◌==◌, ◌≡◌, refl, arith, Bool-cases, inl, inr,
}
use monkeys_identity.Middleware.Auth.{split}

-- The text does not hold the separator.
abbrev pub free_of : ℕ → String → Bool
free_of sep String.[] = true
free_of sep (String.◌∷◌ c s) = let rest = free_of sep s in not (code c == sep) && rest

-- A text that does not hold the separator is one part of the split.
pub split_whole : (sep : ℕ) (s : String) → free_of sep s ≡ true → split sep s ≡ s ∷ []
unfolding split
split_whole sep String.[] h = refl
split_whole sep (String.◌∷◌ c s) h = elim (Bool-cases (code c == sep)) [
  | inl e ↦ ground arith
  | inr e ↦ rw (e, split_whole sep s (ground (arith, e))) refl
]

-- What stands before the first separator is the first part.
pub split_front :
    (d : Char) (s t : String)
    → free_of (code d) s ≡ true
    → split (code d) (String.◌++◌ s (String.◌∷◌ d t)) ≡ s ∷ split (code d) t
unfolding split
split_front d String.[] t h =
    let here : (code d == code d) ≡ true = ground arith in
    rw (append.nil (String.◌∷◌ d t)) (rw here refl)
split_front d (String.◌∷◌ c s) t h = elim (Bool-cases (code c == code d)) [
  | inl e ↦ ground arith
  | inr e ↦
      rw (append.cons c s (String.◌∷◌ d t)) (rw (e, split_front d s t (ground (arith, e))) refl)
]
