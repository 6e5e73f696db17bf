-- ===== src/Content/Slug/Form.antt =====
-- The form of a slug: words of lower-case letters and digits, joined by single dashes.
use monkeys_identity.Base.{
  ℕ, Bool, true, false, not, ◌&&◌, ◌||◌, Text, [], ◌∷◌, length, text_eq, text_eq_iff, if◌then◌else◌,
  ◌≡◌, refl, arith, all,
}
use monkeys_identity.Platform.{Unicode, to_lower, trim_space, is_space, trim_space-none}
use monkeys_identity.Content.Slug.{is_dash, is_word, map_runes, trim_left, trim_right, slugify}
use monkeys_identity.Content.Slug.Laws.{squeeze, collapse-squeeze}

-- What may follow a dash, or a word; a dash at the end is refused.
unfoldable pub joined : (after_dash : Bool) → Text → Bool
joined after_dash [] = not after_dash
joined after_dash (c ∷ s) =
    if is_dash c then not after_dash && joined true s else is_word c && joined false s

unfoldable pub is_slug : Text → Bool
unfolding joined
is_slug s = text_eq s [] || joined true s

-- The same where a dash at the end is allowed.
unfoldable open_end : (after_dash : Bool) → Text → Bool
open_end after_dash [] = true
open_end after_dash (c ∷ s) =
    if is_dash c then not after_dash && open_end true s else is_word c && open_end false s

abbrev slug_byte : ℕ → Bool
slug_byte c = is_dash c || is_word c

abbrev starts_dashed : Text → Bool
starts_dashed [] = false
starts_dashed (c ∷ s) = is_dash c

map_runes-all : (s : Text) → all slug_byte (map_runes s) ≡ true
unfolding map_runes
map_runes-all [] = refl
map_runes-all (c ∷ s) = ground (arith, map_runes-all s)

open_end_weaken : (s : Text) → open_end true s ≡ true → open_end false s ≡ true
unfolding open_end
open_end_weaken [] h = refl
open_end_weaken (c ∷ s) h = ground (arith, h)

open_end_after :
    (s : Text) → open_end false s ≡ true → starts_dashed s ≡ false → open_end true s ≡ true
unfolding open_end
open_end_after [] h e = refl
open_end_after (c ∷ s) h e = ground (arith, h, e)

starts-squeeze : (s : Text) → starts_dashed (squeeze s) ≡ starts_dashed s
unfolding squeeze
starts-squeeze [] = refl
starts-squeeze (c ∷ s) = ground (arith, starts-squeeze s)

squeeze-open_end : (s : Text) → all slug_byte s ≡ true → open_end false (squeeze s) ≡ true
unfolding squeeze open_end
squeeze-open_end [] h = refl
squeeze-open_end (c ∷ s) h =
    ground (arith, h, squeeze-open_end s, open_end_after (squeeze s), starts-squeeze s)

trim_left-open_end : (s : Text) → open_end false s ≡ true → open_end true (trim_left s) ≡ true
unfolding trim_left open_end
trim_left-open_end [] h = refl
trim_left-open_end (c ∷ s) h = ground (arith, h, trim_left-open_end s, open_end_weaken s)

-- Without the dash at the end nothing is left, or what is left is joined.
trim_right-joined :
    (b : Bool) (s : Text)
    → open_end b s ≡ true
    → text_eq (trim_right s) [] || joined b (trim_right s) ≡ true
unfolding trim_right open_end joined
trim_right-joined b [] h = refl
trim_right-joined b (c ∷ s) h =
    ground
      (arith, h, trim_right-joined true s, trim_right-joined false s, text_eq_iff (trim_right s) [])

-- Every slug is empty or made of words of lower-case letters and digits that single dashes join.
pub slugify-is_slug : (u : Unicode) (title : Text) → is_slug (slugify u title) ≡ true
unfolding slugify is_slug
slugify-is_slug u title =
    let s = map_runes (to_lower u (trim_space title)) in
    rw (collapse-squeeze (length s) s (ground arith)) (
      trim_right-joined true (trim_left (squeeze s)) (
        trim_left-open_end (squeeze s)
          (squeeze-open_end s (map_runes-all (to_lower u (trim_space title))))))

-- The other way: a slug is left as it is by every step.
joined-all : (b : Bool) (s : Text) → joined b s ≡ true → all slug_byte s ≡ true
unfolding joined
joined-all b [] h = refl
joined-all b (c ∷ s) h = ground (arith, h, joined-all true s, joined-all false s)

joined-squeeze : (b : Bool) (s : Text) → joined b s ≡ true → squeeze s ≡ s
unfolding joined squeeze
joined-squeeze b [] h = refl
joined-squeeze b (c ∷ s) h = ground (arith, h, joined-squeeze true s, joined-squeeze false s)

joined-trim_left : (s : Text) → joined true s ≡ true → trim_left s ≡ s
unfolding joined trim_left
joined-trim_left [] h = refl
joined-trim_left (c ∷ s) h = ground (arith, h)

joined-trim_right : (b : Bool) (s : Text) → joined b s ≡ true → trim_right s ≡ s
unfolding joined trim_right
joined-trim_right b [] h = refl
joined-trim_right b (c ∷ s) h =
    ground
      (arith, h, text_eq_iff (trim_right s) [], joined-trim_right true s, joined-trim_right false s)

bytes-map_runes : (s : Text) → all slug_byte s ≡ true → map_runes s ≡ s
unfolding map_runes
bytes-map_runes [] h = refl
bytes-map_runes (c ∷ s) h = ground (arith, h, bytes-map_runes s)

byte_not_space : (c : ℕ) → slug_byte c ≡ true → is_space c ≡ false
unfolding is_space
byte_not_space c h = ground (arith, h)

byte_lower : (u : Unicode) (c : ℕ) → slug_byte c ≡ true → u.to_lower c ≡ c
byte_lower u c h = ground (arith, h, u.to_lower_ascii c)

bytes_no_space : (s : Text) → all slug_byte s ≡ true → all (λ c. not (is_space c)) s ≡ true
bytes_no_space [] h = refl
bytes_no_space (c ∷ s) h = ground (arith, h, byte_not_space c, bytes_no_space s)

bytes-to_lower : (u : Unicode) (s : Text) → all slug_byte s ≡ true → to_lower u s ≡ s
unfolding to_lower
bytes-to_lower u [] h = refl
bytes-to_lower u (c ∷ s) h = ground (arith, h, byte_lower u c, bytes-to_lower u s)

slug_all : (s : Text) → is_slug s ≡ true → all slug_byte s ≡ true
unfolding is_slug
slug_all [] h = refl
slug_all (c ∷ s) h = joined-all true (c ∷ s) h

slug_trimmed : (s : Text) → is_slug s ≡ true → trim_right (trim_left (squeeze s)) ≡ s
unfolding is_slug trim_left trim_right squeeze
slug_trimmed [] h = refl
slug_trimmed (c ∷ s) h =
    rw (joined-squeeze true (c ∷ s) h, joined-trim_left (c ∷ s) h)
      (joined-trim_right true (c ∷ s) h)

-- test
pub slugify-slug : (u : Unicode) (s : Text) → is_slug s ≡ true → slugify u s ≡ s
unfolding slugify
slugify-slug u s h =
    rw
      (
        trim_space-none s (bytes_no_space s (slug_all s h)),
        bytes-to_lower u s (slug_all s h),
        bytes-map_runes s (slug_all s h),
        collapse-squeeze (length s) s (ground arith),
      )
      (slug_trimmed s h)

-- test
pub slugify_idem : (u : Unicode) (title : Text) → slugify u (slugify u title) ≡ slugify u title
slugify_idem u title = slugify-slug u (slugify u title) (slugify-is_slug u title)
