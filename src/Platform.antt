-- ===== src/Platform.antt =====
-- Go's `unicode` tables and its `net` package, which the program calls: their documented behaviour
-- as interfaces. `ascii` and `dotted` are concrete values of them.
use Prim.Native.Char.{code}
use monkeys_identity.Base.{
  String, str_eq, ◌==◌, ℕ, ◌<◌, ◌+◌, Bool, true, false, not, all, arith, Option, Text, text_eq, leb,
  ◌&&◌, ◌||◌, map, if◌then◌else◌, ◌≡◌, refl, [], ◌∷◌,
}

abbrev pub ascii_lower : ℕ → ℕ
ascii_lower c = if leb b'A' c && leb c b'Z' then c + 32 else c

-- `to_lower` is unicode.ToLower; `fold` picks one code point of each class of unicode.SimpleFold.
pub record Unicode : Type 0 where
  pub to_lower : ℕ → ℕ
  pub fold : ℕ → ℕ
  pub to_lower_ascii : (c : ℕ) → c < 128 → to_lower c ≡ ascii_lower c
  pub fold_ascii : (c : ℕ) → c < 128 → fold c ≡ ascii_lower c

-- strings.EqualFold
unfoldable pub equal_fold : Unicode → Text → Text → Bool
equal_fold u s t = text_eq (map u.fold s) (map u.fold t)

-- strings.ToLower
unfoldable pub to_lower : Unicode → Text → Text
to_lower u s = map u.to_lower s

unfoldable pub has_prefix : Text → Text → Bool
has_prefix [] s = true
has_prefix (c ∷ p) [] = false
has_prefix (c ∷ p) (x ∷ s) = text_eq (c ∷ []) (x ∷ []) && has_prefix p s

-- strings.Contains
unfoldable pub contains : Text → Text → Bool
unfolding has_prefix
contains [] sub = has_prefix sub []
contains (x ∷ s) sub = has_prefix sub (x ∷ s) || contains s sub

-- The parts of package `net` that conditions use. Addresses and networks are abstract.
pub record Net : Type 1 where
  pub Address : Type 0
  pub Network : Type 0
  pub parse_ip : Text → Option Address
  pub parse_cidr : Text → Option Network
  pub contains_ip : Network → Address → Bool
  pub equal_ip : Address → Address → Bool

-- A table for ASCII alone.
abbrev pub ascii : Unicode
ascii = record {
  to_lower = ascii_lower;
  fold = ascii_lower;
  to_lower_ascii = λ c h. refl;
  fold_ascii = λ c h. refl;
}

-- strings.TrimFunc
unfoldable pub trim_left : (ℕ → Bool) → String → String
trim_left p String.[] = ""
trim_left p (String.◌∷◌ c s) =
    let rest = trim_left p s in if p (code c) then rest else String.◌∷◌ c s

unfoldable pub trim_right : (ℕ → Bool) → String → String
trim_right p String.[] = ""
trim_right p (String.◌∷◌ c s) =
    let rest = trim_right p s in if p (code c) && str_eq rest "" then "" else String.◌∷◌ c rest

unfoldable pub trim : (ℕ → Bool) → String → String
unfolding trim_left trim_right
trim p s = trim_right p (trim_left p s)

-- unicode.IsSpace
unfoldable pub is_space : ℕ → Bool
is_space c =
    (leb 9 c && leb c 13)
    || c == 32
    || c == 133
    || c == 160
    || c == 5760
    || (leb 8192 c && leb c 8202)
    || c == 8232
    || c == 8233
    || c == 8239
    || c == 8287
    || c == 12288

-- strings.TrimSpace of code points
trim_left_text : Text → Text
trim_left_text [] = []
trim_left_text (c ∷ s) = let rest = trim_left_text s in if is_space c then rest else c ∷ s

trim_right_text : Text → Text
trim_right_text [] = []
trim_right_text (c ∷ s) =
    let rest = trim_right_text s in if is_space c && text_eq rest [] then [] else c ∷ rest

unfoldable pub trim_space : Text → Text
unfolding trim_left_text trim_right_text is_space
trim_space s = trim_right_text (trim_left_text s)

-- A text without spaces is left as it is.
trim_left_text-none : (s : Text) → all (λ c. not (is_space c)) s ≡ true → trim_left_text s ≡ s
unfolding trim_left_text
trim_left_text-none [] h = refl
trim_left_text-none (c ∷ s) h = ground (arith, h)

trim_right_text-none : (s : Text) → all (λ c. not (is_space c)) s ≡ true → trim_right_text s ≡ s
unfolding trim_right_text
trim_right_text-none [] h = refl
trim_right_text-none (c ∷ s) h = ground (arith, h, trim_right_text-none s)

pub trim_space-none : (s : Text) → all (λ c. not (is_space c)) s ≡ true → trim_space s ≡ s
unfolding trim_space
trim_space-none s h = rw (trim_left_text-none s h) (trim_right_text-none s h)
