-- ===== src/Content/Slug.antt =====
-- `slugify` of internal/handlers/content_handler.go.
pub mod Laws
pub mod Form
use monkeys_identity.Base.{
  ℕ, zero, suc, Bool, true, false, ◌&&◌, ◌||◌, ◌==◌, leb, Text, List, [], ◌∷◌, Option, none, some,
  length, text_eq, codes, if◌then◌else◌,
}
use monkeys_identity.Platform.{Unicode, to_lower, contains, trim_space}

abbrev pub dash : ℕ
dash = b'-'

abbrev pub is_dash : ℕ → Bool
is_dash c = c == dash

abbrev pub is_word : ℕ → Bool
is_word c = (leb b'a' c && leb c b'z') || (leb b'0' c && leb c b'9')

-- The function that strings.Map applies; -1 drops the rune.
abbrev pub slug_rune : ℕ → Option ℕ
slug_rune r =
    if is_word r then some r else if r == b' ' || r == b'-' || r == b'_' then some dash else none

abbrev pub kept_rune : Option ℕ → Text → Text
kept_rune none s = s
kept_rune (some r) s = r ∷ s

-- strings.Map with it
unfoldable pub map_runes : Text → Text
map_runes [] = []
map_runes (r ∷ s) = kept_rune (slug_rune r) (map_runes s)

-- strings.ReplaceAll(s, "--", "-")
unfoldable pub replace_dashes : Text → Text
replace_dashes [] = []
replace_dashes (c ∷ []) = c ∷ []
replace_dashes (c ∷ d ∷ s) = elim (is_dash c && is_dash d) [
  | true ↦ dash ∷ replace_dashes s
  | false ↦ c ∷ replace_dashes (d ∷ s)
]

-- The loop, on fuel.
unfoldable pub collapse : ℕ → Text → Text
unfolding contains replace_dashes
collapse zero s = s
collapse (suc n) s = elim (contains s (codes "--")) [
  | true ↦ collapse n (replace_dashes s)
  | false ↦ s
]

-- strings.Trim(s, "-")
unfoldable pub trim_left : Text → Text
trim_left [] = []
trim_left (c ∷ s) = let rest = trim_left s in if is_dash c then rest else c ∷ s

unfoldable pub trim_right : Text → Text
trim_right [] = []
trim_right (c ∷ s) =
    let rest = trim_right s in if is_dash c && text_eq rest [] then [] else c ∷ rest

unfoldable pub slugify : Unicode → Text → Text
unfolding map_runes collapse trim_left trim_right trim_space to_lower
slugify u title =
    let s = map_runes (to_lower u (trim_space title)) in
    trim_right (trim_left (collapse (length s) s))
