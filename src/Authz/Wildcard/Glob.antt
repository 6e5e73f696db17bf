-- ===== src/Authz/Wildcard/Glob.antt =====
-- What a pattern means, with no regular expression in it, and the proof that `match_wildcard`
-- decides it.
use monkeys_identity.Base.{
  ℕ, true, [], ◌∷◌, map, ◌⊎◌, inl, inr, Text, codes, text_eq_iff, ◌≡◌, ◌≢◌, ◌↔◌, refl, arith, inl,
  inr, Any,
}
use monkeys_identity.Authz.Wildcard.{match_wildcard}
use monkeys_identity.Authz.Wildcard.Regex.{newline, full_match, lit, any_char, star}
use monkeys_identity.Authz.Wildcard.Escaping.{item_of, compile-escape}

-- `*` stands for any run of characters and `?` for any one, neither with a newline; every other
-- character stands for itself.
pub data Matches : Text → Text → Type 0 where
  done : Matches [] []
  char : {c : ℕ} {p s : Text} → c ≢ b'*' → c ≢ b'?' → Matches p s → Matches (c ∷ p) (c ∷ s)
  one : {c x : ℕ} {p s : Text} → c ≡ b'?' → x ≢ newline → Matches p s → Matches (c ∷ p) (x ∷ s)
  leave : {c : ℕ} {p s : Text} → c ≡ b'*' → Matches p s → Matches (c ∷ p) s
  take :
      {c x : ℕ} {p s : Text} → c ≡ b'*' → x ≢ newline → Matches (c ∷ p) s → Matches (c ∷ p) (x ∷ s)

item_of_star : (c : ℕ) → c ≡ b'*' → item_of c ≡ star
item_of_star c h = ground arith

item_of_mark : (c : ℕ) → c ≡ b'?' → item_of c ≡ any_char
item_of_mark c h = ground arith

item_of_other : (c : ℕ) → c ≢ b'*' → c ≢ b'?' → item_of c ≡ lit c
item_of_other c h k = ground arith

-- The regular expression accepts what matches.
full_match_complete : {p s : Text} → Matches p s → full_match (map item_of p) s ≡ true
unfolding full_match
full_match_complete done = refl
full_match_complete (char {c} h k m) =
    rw (item_of_other c h k) (ground (arith, full_match_complete m))
full_match_complete (one {c} h k m) = rw (item_of_mark c h) (ground (arith, full_match_complete m))
full_match_complete (leave {c} {p} {s = []} h m) = rw (item_of_star c h) (full_match_complete m)
full_match_complete (leave {c} {p} {s = x ∷ s} h m) =
    rw (item_of_star c h) (ground (arith, full_match_complete m))
full_match_complete (take {c} h k m) =
    let ih = full_match_complete m in
    rw (item_of_star c h) (ground (arith, rw (item_of_star c h) at ih))

Char-cases : (c : ℕ) → (c ≡ b'*') ⊎ (c ≡ b'?') ⊎ ((c ≢ b'*') × (c ≢ b'?'))
Char-cases c = ground arith

module _ (c x : ℕ) (p s : Text) (h : full_match (map item_of (c ∷ p)) (x ∷ s) ≡ true) where
  star_step :
      c ≡ b'*'
      → (full_match (map item_of p) (x ∷ s) ≡ true)
        ⊎ ((x ≢ newline) × (full_match (map item_of (c ∷ p)) s ≡ true))
  unfolding full_match
  star_step e = let h' = rw (item_of_star c e) at h in rw (item_of_star c e) (ground arith)

  mark_step : c ≡ b'?' → (x ≢ newline) × (full_match (map item_of p) s ≡ true)
  unfolding full_match
  mark_step e = let h' = rw (item_of_mark c e) at h in ground arith

  other_step : c ≢ b'*' → c ≢ b'?' → (x ≡ c) × (full_match (map item_of p) s ≡ true)
  unfolding full_match
  other_step e k = let h' = rw (item_of_other c e k) at h in ground arith

-- Only a star can stand at the end of the text.
end_step :
    (c : ℕ) (p : Text)
    → full_match (map item_of (c ∷ p)) [] ≡ true
    → (c ≡ b'*') × (full_match (map item_of p) [] ≡ true)
unfolding full_match
end_step c p h = ground arith

-- What the regular expression accepts matches.
full_match_sound : (p s : Text) → full_match (map item_of p) s ≡ true → Matches p s
unfolding full_match
full_match_sound [] [] h = done
full_match_sound [] (x ∷ s) h = cc
full_match_sound (c ∷ p) [] h = let (e, h') = end_step c p h in leave e (full_match_sound p [] h')
full_match_sound (c ∷ p) (x ∷ s) h = elim (Char-cases c) [
  | inl e ↦ elim (star_step c x p s h e) [
    | inl stop ↦ leave e (full_match_sound p (x ∷ s) stop)
    | inr (k, more) ↦ take e k (full_match_sound (c ∷ p) s more)
  ]
  | inr (inl e) ↦ let (k, rest) = mark_step c x p s h e in one e k (full_match_sound p s rest)
  | inr (inr (e, k)) ↦
      let (same, rest) = other_step c x p s h e k in rw same (char e k (full_match_sound p s rest))
]

-- MatchWildcard, which quotes the pattern, replaces the two wildcards and runs a regular
-- expression, answers true exactly for the pattern * and for the values that match the pattern by
-- the direct reading of * and ?.
pub match_wildcard_iff :
    (pattern value : Text)
    → (match_wildcard pattern value ≡ true) ↔ ((pattern ≡ codes "*") ⊎ Matches pattern value)
unfolding match_wildcard
match_wildcard_iff pattern value = rw compile-escape (
  ground (arith, text_eq_iff pattern (codes "*"), full_match_sound pattern value),
  ground (
    arith,
    text_eq_iff pattern (codes "*"),
    λ (m : Matches pattern value). full_match_complete m,
  ),
)

Matches-newline : {p s : Text} → Matches p s → Any (λ x. x ≡ newline) s → Any (λ x. x ≡ newline) p
Matches-newline done t = elim t [ ]
Matches-newline (char h k m) (inl e) = inl e
Matches-newline (char h k m) (inr t) = inr (Matches-newline m t)
Matches-newline (one h k m) (inl e) = absurd (k e)
Matches-newline (one h k m) (inr t) = inr (Matches-newline m t)
Matches-newline (leave h m) t = inr (Matches-newline m t)
Matches-newline (take h k m) (inl e) = absurd (k e)
Matches-newline (take h k m) (inr t) = Matches-newline m t

-- A pattern other than * that matches a value with a newline has a newline itself: neither ? nor
-- a * beside other characters stands for one.
pub match_wildcard-newline :
    (pattern value : Text)
    → match_wildcard pattern value ≡ true
    → pattern ≢ codes "*"
    → Any (λ x. x ≡ newline) value
    → Any (λ x. x ≡ newline) pattern
match_wildcard-newline pattern value h other t = elim ((match_wildcard_iff pattern value).0 h) [
  | inl e ↦ absurd (other e)
  | inr m ↦ Matches-newline m t
]
