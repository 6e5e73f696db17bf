-- ===== src/Content/Slug/Laws.antt =====
-- What a slug is, and that the loop ends.
use monkeys_identity.Base.{
  ℕ, zero, suc, ◌≤◌, Bool, true, false, ◌&&◌, ◌||◌, Text, [], ◌∷◌, length, codes, if◌then◌else◌,
  ◌≡◌, refl, ◌∙◌, sym, arith, Bool-cases, inl, inr,
}
use monkeys_identity.Platform.{contains, has_prefix}
use monkeys_identity.Content.Slug.{dash, is_dash, replace_dashes, collapse}

abbrev starts_dashed : Text → Bool
starts_dashed [] = false
starts_dashed (c ∷ s) = is_dash c

-- The reference: a dash before a dash is dropped.
unfoldable pub squeeze : Text → Text
squeeze [] = []
squeeze (c ∷ s) = let rest = squeeze s in if is_dash c && starts_dashed s then rest else c ∷ rest

unfoldable doubled : Text → Bool
doubled [] = false
doubled (c ∷ s) = (is_dash c && starts_dashed s) || doubled s

contains-doubled : (s : Text) → contains s (codes "--") ≡ doubled s
unfolding contains has_prefix doubled
contains-doubled [] = refl
contains-doubled (c ∷ []) = ground arith
contains-doubled (c ∷ d ∷ s) = ground (arith, contains-doubled (d ∷ s))

squeeze-none : (s : Text) → doubled s ≡ false → squeeze s ≡ s
unfolding doubled squeeze
squeeze-none [] h = refl
squeeze-none (c ∷ s) h = ground (arith, squeeze-none s)

module _ (c d : ℕ) (s : Text) where
  replaced : is_dash c && is_dash d ≡ true → replace_dashes (c ∷ d ∷ s) ≡ dash ∷ replace_dashes s
  unfolding replace_dashes
  replaced e = rw (e, replace_dashes) refl

  passed : is_dash c && is_dash d ≡ false → replace_dashes (c ∷ d ∷ s) ≡ c ∷ replace_dashes (d ∷ s)
  unfolding replace_dashes
  passed e = rw (e, replace_dashes) refl

replaced_none : replace_dashes [] ≡ []
unfolding replace_dashes
replaced_none = refl

replaced_one : (c : ℕ) → replace_dashes (c ∷ []) ≡ c ∷ []
unfolding replace_dashes
replaced_one c = refl

starts-replace : (s : Text) → starts_dashed (replace_dashes s) ≡ starts_dashed s
starts-replace [] = rw replaced_none refl
starts-replace (c ∷ []) = rw (replaced_one c) refl
starts-replace (c ∷ d ∷ s) = elim (Bool-cases (is_dash c && is_dash d)) [
  | inl e ↦ rw (replaced c d s e) (ground (arith, e))
  | inr e ↦ rw (passed c d s e) refl
]

squeeze-replace_dashes : (s : Text) → squeeze (replace_dashes s) ≡ squeeze s
unfolding squeeze
squeeze-replace_dashes [] = rw replaced_none refl
squeeze-replace_dashes (c ∷ []) = rw (replaced_one c) refl
squeeze-replace_dashes (c ∷ d ∷ s) = elim (Bool-cases (is_dash c && is_dash d)) [
  | inl e ↦ rw (replaced c d s e) (ground (arith, e, squeeze-replace_dashes s, starts-replace s))
  | inr e ↦
      rw (passed c d s e)
        (ground (arith, e, squeeze-replace_dashes (d ∷ s), starts-replace (d ∷ s)))
]

-- It never grows, and shrinks where there was something to replace.
length-replace_dashes : (s : Text) → length (replace_dashes s) ≤ length s
length-replace_dashes [] = rw replaced_none (ground arith)
length-replace_dashes (c ∷ []) = rw (replaced_one c) (ground arith)
length-replace_dashes (c ∷ d ∷ s) = elim (Bool-cases (is_dash c && is_dash d)) [
  | inl e ↦ rw (replaced c d s e) (ground (arith, length-replace_dashes s))
  | inr e ↦ rw (passed c d s e) (ground (arith, length-replace_dashes (d ∷ s)))
]

replace_dashes_shrinks : (s : Text) → doubled s ≡ true → suc (length (replace_dashes s)) ≤ length s
unfolding doubled
replace_dashes_shrinks [] h = ground arith
replace_dashes_shrinks (c ∷ []) h = ground (arith, h)
replace_dashes_shrinks (c ∷ d ∷ s) h = elim (Bool-cases (is_dash c && is_dash d)) [
  | inl e ↦ rw (replaced c d s e) (ground (arith, length-replace_dashes s))
  | inr e ↦ rw (passed c d s e) (ground (arith, h, e, replace_dashes_shrinks (d ∷ s)))
]

module _ (n : ℕ) (s : Text) where
  looped : doubled s ≡ true → collapse (suc n) s ≡ collapse n (replace_dashes s)
  unfolding collapse
  looped e = rw (contains-doubled s ∙ e, collapse) refl

  ended : doubled s ≡ false → collapse (suc n) s ≡ s
  unfolding collapse
  ended e = rw (contains-doubled s ∙ e, collapse) refl

unlooped : collapse zero [] ≡ squeeze []
unfolding collapse squeeze
unlooped = refl

-- With at least as many rounds as the text is long, the loop of slugify ends and has dropped
-- exactly the dashes that follow a dash.
pub collapse-squeeze : (n : ℕ) (s : Text) → length s ≤ n → collapse n s ≡ squeeze s
collapse-squeeze zero [] h = unlooped
collapse-squeeze zero (c ∷ s) h = ground arith
collapse-squeeze (suc n) s h = elim (Bool-cases (doubled s)) [
  | inl e ↦ rw (looped n s e) (
      collapse-squeeze n (replace_dashes s) (ground (arith, replace_dashes_shrinks s e, h))
      ∙ squeeze-replace_dashes s)
  | inr e ↦ rw (ended n s e) (sym (squeeze-none s e))
]
