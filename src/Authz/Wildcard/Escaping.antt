-- ===== src/Authz/Wildcard/Escaping.antt =====
-- Escaping and compiling undo one another: a pattern becomes one item for each of its characters.
use mathlib.Core.Option
use monkeys_identity.Base.{
  ℕ, true, false, [], ◌∷◌, map, some, Text, codes, ◌==◌, if◌then◌else◌, ◌≡◌, ◌≢◌, refl, arith,
}
use monkeys_identity.Authz.Wildcard.{escape}
use monkeys_identity.Authz.Wildcard.Regex.{
  is_special, quote_meta, replace_pair, Item, lit, any_char, star, compile,
}

-- What a character of a pattern means.
abbrev pub item_of : ℕ → Item
item_of c = if c == b'*' then star else if c == b'?' then any_char else lit c

-- The quoted pattern after the first replacement.
starred : Text → Text
starred [] = []
starred (c ∷ p) =
    if c == b'*'
    then b'.' ∷ b'*' ∷ starred p
    else if is_special c
    then b'\\' ∷ c ∷ starred p
    else c ∷ starred p

-- After the second one.
dotted : Text → Text
dotted [] = []
dotted (c ∷ p) =
    if c == b'*'
    then b'.' ∷ b'*' ∷ dotted p
    else if c == b'?'
    then b'.' ∷ dotted p
    else if is_special c
    then b'\\' ∷ c ∷ dotted p
    else c ∷ dotted p

special_star : is_special b'*' ≡ true
unfolding is_special
special_star = refl

special_mark : is_special b'?' ≡ true
unfolding is_special
special_mark = refl

special_dot : is_special b'.' ≡ true
unfolding is_special
special_dot = refl

special_backslash : is_special b'\\' ≡ true
unfolding is_special
special_backslash = refl

replace_pair_skip :
    (a b x : ℕ) (new s : Text) → x ≢ a → replace_pair a b new (x ∷ s) ≡ x ∷ replace_pair a b new s
unfolding replace_pair
replace_pair_skip a b x new [] h = refl
replace_pair_skip a b x new (y ∷ s) h = ground arith

-- A backslash before a quoted text stays.
backslash-quote_meta :
    (p : Text)
    → replace_pair b'\\' b'*' (codes ".*") (b'\\' ∷ quote_meta p)
      ≡ b'\\' ∷ replace_pair b'\\' b'*' (codes ".*") (quote_meta p)
unfolding replace_pair quote_meta
backslash-quote_meta [] = refl
backslash-quote_meta (c ∷ p) = ground (arith, special_star)

replace-quote_meta : (p : Text) → replace_pair b'\\' b'*' (codes ".*") (quote_meta p) ≡ starred p
unfolding starred quote_meta replace_pair
replace-quote_meta [] = refl
replace-quote_meta (c ∷ p) = ground (
  arith,
  special_star,
  special_backslash,
  replace-quote_meta p,
  backslash-quote_meta p,
  replace_pair_skip b'\\' b'*' c (codes ".*") (quote_meta p),
)

backslash-starred :
    (p : Text)
    → replace_pair b'\\' b'?' (codes ".") (b'\\' ∷ starred p)
      ≡ b'\\' ∷ replace_pair b'\\' b'?' (codes ".") (starred p)
unfolding replace_pair starred
backslash-starred [] = refl
backslash-starred (c ∷ p) = ground (arith, special_mark)

replace-starred : (p : Text) → replace_pair b'\\' b'?' (codes ".") (starred p) ≡ dotted p
unfolding starred dotted replace_pair
replace-starred [] = refl
replace-starred (c ∷ p) = ground (
  arith,
  special_star,
  special_mark,
  special_backslash,
  replace-starred p,
  backslash-starred p,
  replace_pair_skip b'\\' b'?' c (codes ".") (starred p),
  replace_pair_skip b'\\' b'?' b'*' (codes ".") (starred p),
  replace_pair_skip b'\\' b'?' b'.' (codes ".") (b'*' ∷ starred p),
)

compile_cons :
    (c : ℕ) (s : Text)
    → c ≢ b'\\'
    → c ≢ b'.'
    → is_special c ≡ false
    → compile (c ∷ s) ≡ Option.map (λ r. lit c ∷ r) (compile s)
unfolding compile
compile_cons c [] h k e = ground arith
compile_cons c (d ∷ s) h k e = ground arith

compile_dot :
    (p : Text) → compile (b'.' ∷ dotted p) ≡ Option.map (λ r. any_char ∷ r) (compile (dotted p))
unfolding compile dotted
compile_dot [] = refl
compile_dot (c ∷ p) = ground (arith, special_star)

compile_star : (s : Text) → compile (b'.' ∷ b'*' ∷ s) ≡ Option.map (λ r. star ∷ r) (compile s)
unfolding compile
compile_star s = refl

compile_quoted :
    (c : ℕ) (s : Text)
    → is_special c ≡ true
    → compile (b'\\' ∷ c ∷ s) ≡ Option.map (λ r. lit c ∷ r) (compile s)
unfolding compile
compile_quoted c s h = ground arith

compile_nil : compile [] ≡ some []
unfolding compile
compile_nil = refl

compile-dotted : (p : Text) → compile (dotted p) ≡ some (map item_of p)
unfolding dotted
compile-dotted [] = compile_nil
compile-dotted (c ∷ p) = ground (
  arith,
  special_dot,
  special_backslash,
  compile-dotted p,
  compile_dot p,
  compile_star (dotted p),
  compile_quoted c (dotted p),
  compile_cons c (dotted p),
)

-- Every pattern, quoted and with its wildcards replaced, compiles, and to one item for each of
-- its characters: a run, any character, or the character itself.
pub compile-escape : (p : Text) → compile (escape p) ≡ some (map item_of p)
unfolding escape
compile-escape p = rw (replace-quote_meta p, replace-starred p) (compile-dotted p)
