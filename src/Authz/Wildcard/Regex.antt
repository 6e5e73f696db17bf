-- ===== src/Authz/Wildcard/Regex.antt =====
-- What internal/authz/evaluator.go uses of Go's `regexp` and of `strings.ReplaceAll`: quoting, the
-- replacement of a two-character text, and the expressions `^…$` built from literals, `.` and `.*`.
-- There `.` is any code point but a newline, and `$` is the end of the text.
use monkeys_identity.Base.{
  ℕ, Bool, true, false, not, List, [], ◌∷◌, ◌++◌, ◌&&◌, ◌||◌, Option, none, some, Text, ◌==◌,
  if◌then◌else◌,
}
use mathlib.Core.Option

abbrev pub newline : ℕ
newline = 10

-- The characters that `regexp.QuoteMeta` escapes: \.+*?()|[]{}^$
unfoldable pub is_special : ℕ → Bool
is_special c =
    c == b'\\'
    || c == b'.'
    || c == b'+'
    || c == b'*'
    || c == b'?'
    || c == b'('
    || c == b')'
    || c == b'|'
    || c == b'['
    || c == b']'
    || c == b'{'
    || c == b'}'
    || c == b'^'
    || c == b'$'

-- regexp.QuoteMeta
unfoldable pub quote_meta : Text → Text
quote_meta [] = []
quote_meta (c ∷ s) = if is_special c then b'\\' ∷ c ∷ quote_meta s else c ∷ quote_meta s

-- strings.ReplaceAll of the two characters `a`, `b` by `new`, left to right.
unfoldable pub replace_pair : ℕ → ℕ → Text → Text → Text
replace_pair a b new [] = []
replace_pair a b new (x ∷ []) = x ∷ []
replace_pair a b new (x ∷ y ∷ s) =
    let hit = new ++ replace_pair a b new s in
    let miss = x ∷ replace_pair a b new (y ∷ s) in if x == a && y == b then hit else miss

-- One item of an expression.
pub data Item : Type 0 where
  lit : ℕ → Item
  any_char : Item
  star : Item

-- The expression between `^` and `$`. `none`: a syntax outside of the fragment, or an error.
unfoldable pub compile : Text → Option (List Item)
compile [] = some []
compile (c ∷ []) =
    if c == b'.' then some (any_char ∷ []) else if is_special c then none else some (lit c ∷ [])
compile (c ∷ d ∷ s) =
    let escaped = Option.map (λ r. lit d ∷ r) (compile s) in
    let starred = Option.map (λ r. star ∷ r) (compile s) in
    let dotted = Option.map (λ r. any_char ∷ r) (compile (d ∷ s)) in
    let plain = Option.map (λ r. lit c ∷ r) (compile (d ∷ s)) in
    if c == b'\\'
    then (if is_special d then escaped else none)
    else if c == b'.'
    then (if d == b'*' then starred else dotted)
    else if is_special c
    then none
    else plain

-- `MatchString` of the anchored expression.
unfoldable pub full_match : List Item → Text → Bool
full_match [] [] = true
full_match [] (x ∷ s) = false
full_match (lit c ∷ r) [] = false
full_match (lit c ∷ r) (x ∷ s) = c == x && full_match r s
full_match (any_char ∷ r) [] = false
full_match (any_char ∷ r) (x ∷ s) = not (x == newline) && full_match r s
full_match (star ∷ r) [] = full_match r []
full_match (star ∷ r) (x ∷ s) =
    let here = full_match r (x ∷ s) in
    let more = full_match (star ∷ r) s in here || (not (x == newline) && more)
