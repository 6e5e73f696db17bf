-- ===== src/Middleware/Permission/Names.antt =====
-- The resource that `RequirePermission` of internal/middleware/auth.go names for a path that is given
-- by its segments.
use Prim.Native.Char.{Char, code}
use Prim.Native.String.append
use text.Mathlib.TextLemmas.{append-nil, append-ne-nil_of_right_ne-nil, cons≢nil}
use monkeys_identity.Base.{
  ℕ, Bool, true, false, ◌==◌, String, List, [], ◌∷◌, ◌++◌, str_eq, All, ◌≡◌, ◌≢◌, refl, ap, ◌∙◌,
  arith, eq_iff, Bool-cases, inl, inr,
}
use monkeys_identity.Platform.{trim, trim_left, trim_right}
use monkeys_identity.Middleware.{Request}
use monkeys_identity.Middleware.Auth.{split}
use monkeys_identity.Middleware.Parts.{free_of, split_whole, split_front}
use monkeys_identity.Middleware.Permission.{◌+++◌, resource_type, resource_name}

abbrev pub is_slash : ℕ → Bool
is_slash c = c == b'/'

-- What stands between two slashes of a path.
pub record IsSegment (w : String) : Type 0 where
  pub plain : free_of b'/' w ≡ true
  pub filled : w ≢ ""

-- "/a/b/c" of a, b and c
unfoldable pub path_of : List String → String
path_of [] = ""
path_of (w ∷ ws) = String.◌∷◌ "/" (w +++ path_of ws)

-- Nothing is cut from a text without slashes, nor from what ends in one.
plain_kept : (w : String) → free_of b'/' w ≡ true → trim_right is_slash w ≡ w
unfolding trim_right
plain_kept String.[] h = refl
plain_kept (String.◌∷◌ c s) h =
    let rest : trim_right is_slash s ≡ s = plain_kept s (ground (arith, h)) in
    let other : is_slash (code c) ≡ false = ground (arith, h) in rw (other, rest) refl

cons_kept :
    (c : Char) (s : String)
    → s ≢ ""
    → trim_right is_slash s ≡ s
    → trim_right is_slash (String.◌∷◌ c s) ≡ String.◌∷◌ c s
unfolding trim_right
cons_kept c s filled h = elim (Bool-cases (str_eq s "")) [
  | inl e ↦ absurd (filled ((eq_iff s "").0 e))
  | inr left ↦ elim (Bool-cases (is_slash (code c))) [
    | inl e ↦ rw (h, e) (rw left refl)
    | inr e ↦ rw (h, e) refl
  ]
]

front_kept :
    (s t : String) → t ≢ "" → trim_right is_slash t ≡ t → trim_right is_slash (s +++ t) ≡ s +++ t
front_kept String.[] t filled h = rw (append.nil t) h
front_kept (String.◌∷◌ c s) t filled h =
    rw (append.cons c s t)
      (cons_kept c (s +++ t) (append-ne-nil_of_right_ne-nil s filled) (front_kept s t filled h))

-- What starts with a segment loses nothing at its front.
start_kept : (w t : String) → IsSegment w → trim_left is_slash (w +++ t) ≡ w +++ t
unfolding trim_left
start_kept String.[] t g = absurd (g.filled refl)
start_kept (String.◌∷◌ c s) t g =
    let other : is_slash (code c) ≡ false = ground (arith, g.plain) in
    rw (append.cons c s t) (rw other refl)

segment_filled : (w t : String) → IsSegment w → w +++ t ≢ ""
segment_filled String.[] t g e = g.filled refl
segment_filled (String.◌∷◌ c s) t g e = let e' = rw (append.cons c s t) at e in cons≢nil e'

-- The path without its first slash keeps its end.
end_kept :
    (w : String) (ws : List String)
    → IsSegment w
    → All IsSegment ws
    → trim_right is_slash (w +++ path_of ws) ≡ w +++ path_of ws
unfolding path_of
end_kept w [] g h = rw (append-nil w) (plain_kept w g.plain)
end_kept w (x ∷ ws) g (gx, h) =
    front_kept w (String.◌∷◌ "/" (x +++ path_of ws)) cons≢nil
      (cons_kept "/" (x +++ path_of ws) (segment_filled x (path_of ws) gx) (end_kept x ws gx h))

split-path_of :
    (w : String) (ws : List String)
    → IsSegment w
    → All IsSegment ws
    → split b'/' (w +++ path_of ws) ≡ w ∷ ws
unfolding path_of
split-path_of w [] g h = rw (append-nil w) (split_whole b'/' w g.plain)
split-path_of w (x ∷ ws) g (gx, h) =
    split_front "/" w (x +++ path_of ws) g.plain ∙ ap (λ ys. w ∷ ys) (split-path_of x ws gx h)

-- The segments of a path are its parts.
parts-path_of :
    (ws : List String) → ws ≢ [] → All IsSegment ws → split b'/' (trim is_slash (path_of ws)) ≡ ws
unfolding trim path_of trim_left
parts-path_of [] filled h = absurd (filled refl)
parts-path_of (w ∷ ws) filled (g, h) =
    rw (start_kept w (path_of ws) g) (rw (end_kept w ws g h) (split-path_of w ws g h))

resource_type-skip :
    (x : String) (before : List String) (kind last : String)
    → resource_type (x ∷ (before ++ kind ∷ last ∷ [])) ≡ resource_type (before ++ kind ∷ last ∷ [])
unfolding resource_type
resource_type-skip x [] kind last = refl
resource_type-skip x (y ∷ []) kind last = refl
resource_type-skip x (y ∷ z ∷ ws) kind last = refl

-- The last part but one of a path.
resource_type-last :
    (before : List String) (kind last : String) → resource_type (before ++ kind ∷ last ∷ []) ≡ kind
unfolding resource_type
resource_type-last [] kind last = refl
resource_type-last (x ∷ ws) kind last =
    resource_type-skip x ws kind last ∙ resource_type-last ws kind last

occupied : (before : List String) (kind last : String) → before ++ kind ∷ last ∷ [] ≢ []
occupied [] kind last e = ground (arith, e)
occupied (x ∷ ws) kind last e = ground (arith, e)

-- The name of a resource of a kind.
abbrev pub resource_arn : (org_id kind id : String) → String
resource_arn org_id kind id = "arn:monkeys:resource:" +++ org_id +++ ":" +++ kind +++ "/" +++ id

pub resource_name-path_of :
    (org_id : String) (r : Request) (before : List String) (kind last : String)
    → r.id ≢ ""
    → All IsSegment (before ++ kind ∷ last ∷ [])
    → r.path ≡ path_of (before ++ kind ∷ last ∷ [])
    → resource_name org_id r ≡ resource_arn org_id kind r.id
unfolding resource_name
resource_name-path_of org_id r before kind last named segments h =
    elim (Bool-cases (str_eq r.id "")) [
      | inl e ↦ absurd (named ((eq_iff r.id "").0 e))
      | inr e ↦
          let parts = before ++ kind ∷ last ∷ [] in
          let kinds : resource_type (split b'/' (trim is_slash r.path)) ≡ kind =
            ap (λ path. resource_type (split b'/' (trim is_slash path))) h
            ∙ ap resource_type (parts-path_of parts (occupied before kind last) segments)
            ∙ resource_type-last before kind last in
          rw e (ap (λ k. "arn:monkeys:resource:" +++ org_id +++ ":" +++ k +++ "/" +++ r.id) kinds)
    ]
