-- ===== src/Authz/Wildcard.antt =====
-- internal/authz/evaluator.go: `MatchWildcard`. Texts are code points, so of valid UTF-8 only, and
-- the size limits of a regular expression are not modelled.
pub mod Regex
pub mod Escaping
pub mod Glob
use monkeys_identity.Base.{
  Bool, true, List, Option, none, some, Text, codes, text_eq, if◌then◌else◌,
}
use Regex.{Item, is_special, quote_meta, replace_pair, compile, full_match}

-- `regexp.Compile` failed: plain comparison. Otherwise the expression decides.
abbrev run : Option (List Item) → Text → Text → Bool
run none pattern value = text_eq pattern value
run (some items) pattern value = full_match items value

-- The pattern as a regular expression: quoted, then `\*` made `.*` and `\?` made `.`.
unfoldable pub escape : Text → Text
unfolding quote_meta replace_pair is_special
escape pattern =
    replace_pair b'\\' b'?' (codes ".") (replace_pair b'\\' b'*' (codes ".*") (quote_meta pattern))

unfoldable pub match_wildcard : Text → Text → Bool
unfolding escape compile full_match
match_wildcard pattern value =
    if text_eq pattern (codes "*") then true else run (compile (escape pattern)) pattern value
