-- ===== src/Policies/Laws.antt =====
-- What the second evaluator does not look at, and how its patterns compare with those of
-- internal/authz.
use monkeys_identity.Base.{
  ℕ, true, false, not, String, List, [], ◌∷◌, map, Option, none, Text, codes, str_eq, all, ◌==◌,
  lookup, err, if◌then◌else◌, ◌≡◌, ◌≢◌, ◌⊎◌, inl, inr, refl, arith, Any, Bool-cases, Result-cases,
  eq_iff,
}
use monkeys_identity.Platform.{Unicode}
use monkeys_identity.Authz.Wildcard.{match_wildcard}
use monkeys_identity.Authz.Wildcard.Regex.{newline}
use monkeys_identity.Authz.Wildcard.Glob.{Matches, done, char, one, leave, take, match_wildcard_iff}
use monkeys_identity.Authz.Value.{Value, Fields, null, bool, num, str, arr, obj, end, field, elems}
use monkeys_identity.Policies.{
  Fault, panicked, entry, text_of, texts_of, extract_string_array, matches_pattern,
  statement_matches, EvaluationContext, EvaluationResult, with_effect, evaluate_statements,
}

-- delete(m, key)
abbrev without : String → Fields → Fields
without key end = end
without key (field k v fs) = if str_eq k key then without key fs else field k v (without key fs)

entry-without :
    (key other : String) (fs : Fields) → key ≢ other → entry key (without other fs) ≡ entry key fs
unfolding entry lookup
entry-without key other end apart = refl
entry-without key other (field k v fs) apart = elim (Bool-cases (str_eq k other)) [
  | inl h ↦ ground (arith, h, eq_iff k other, eq_iff k key, entry-without key other fs apart)
  | inr h ↦ rw h (ground (arith, h, entry-without key other fs apart))
]

-- The statement without its condition.
abbrev pub unconditional : Value → Value
unconditional (obj fs) = obj (without "Condition" fs)
unconditional v = v

abbrev Apart : String → String → Type 0
Apart s t = s ≢ t

Apart-action : Apart "Action" "Condition"
Apart-action e = ground (arith, eq_iff "Action" "Condition")

Apart-resource : Apart "Resource" "Condition"
Apart-resource e = ground (arith, eq_iff "Resource" "Condition")

Apart-effect : Apart "Effect" "Condition"
Apart-effect e = ground (arith, eq_iff "Effect" "Condition")

statement_matches-without :
    (fs : Fields) (pointer : Option EvaluationContext)
    → statement_matches (without "Condition" fs) pointer ≡ statement_matches fs pointer
unfolding statement_matches
statement_matches-without fs pointer =
    rw
      (
        entry-without "Action" "Condition" fs Apart-action,
        entry-without "Resource" "Condition" fs Apart-resource,
      )
      refl

module _ (u : Unicode) where
  -- Removing the conditions of all statements changes no evaluation of the second evaluator.
  pub evaluate_ignores_conditions :
      (vs : List Value) (pointer : Option EvaluationContext) (result : EvaluationResult)
      → evaluate_statements u (map unconditional vs) pointer result
        ≡ evaluate_statements u vs pointer result
  unfolding evaluate_statements
  evaluate_ignores_conditions [] pointer result = refl
  evaluate_ignores_conditions (obj fs ∷ vs) pointer result =
      rw (statement_matches-without fs pointer, entry-without "Effect" "Condition" fs Apart-effect)
        (elim (Result-cases (statement_matches fs pointer)) [
          | inr (e, m) ↦ rw m refl
          | inl (false, m) ↦ rw m (evaluate_ignores_conditions vs pointer result)
          | inl (true, m) ↦ rw m (elim (Result-cases (text_of (entry "Effect" fs))) [
            | inr (e, t) ↦ rw t refl
            | inl (effect, t) ↦ rw t (
                rw (evaluate_ignores_conditions vs pointer (with_effect u pointer result effect))
                  refl)
          ])
        ])
  evaluate_ignores_conditions (null ∷ vs) pointer result = refl
  evaluate_ignores_conditions (bool b ∷ vs) pointer result = refl
  evaluate_ignores_conditions (num n ∷ vs) pointer result = refl
  evaluate_ignores_conditions (str s ∷ vs) pointer result = refl
  evaluate_ignores_conditions (arr xs ∷ vs) pointer result = refl

wildcard_cases : (c : ℕ) → (c ≡ b'*') ⊎ (c ≡ b'?') ⊎ ((c ≢ b'*') × (c ≢ b'?'))
wildcard_cases c = ground arith

-- A text without newlines matches itself: `*` takes the star, `?` the question mark.
Matches-self : (p : Text) → all (λ c. not (c == newline)) p ≡ true → Matches p p
Matches-self [] h = done
Matches-self (c ∷ p) h = elim (wildcard_cases c) [
  | inl e ↦ take e (ground arith) (leave e (Matches-self p (ground arith)))
  | inr (inl e) ↦ one e (ground arith) (Matches-self p (ground arith))
  | inr (inr (e, k)) ↦ char e k (Matches-self p (ground arith))
]

-- What the patterns of the second evaluator match, those of internal/authz match too, unless the
-- value has a newline.
pub matches_pattern-match_wildcard :
    (patterns : List String) (value : String)
    → all (λ c. not (c == newline)) (codes value) ≡ true
    → matches_pattern patterns value ≡ true
    → Any (λ p. match_wildcard (codes p) (codes value) ≡ true) patterns
unfolding matches_pattern
matches_pattern-match_wildcard [] value plain h = ground arith
matches_pattern-match_wildcard (p ∷ ps) value plain h =
    let self =
      (match_wildcard_iff (codes value) (codes value)).1 (inr (Matches-self (codes value) plain)) in
    let star = (match_wildcard_iff (codes "*") (codes value)).1 (inl refl) in
    let rest = matches_pattern-match_wildcard ps value plain in
    elim (Bool-cases (str_eq p "*")) [
      | inl all_values ↦ let same : p ≡ "*" = ground (arith, eq_iff p "*") in inl (rw same star)
      | inr not_all ↦ elim (Bool-cases (str_eq p value)) [
        | inl equal ↦ let same : p ≡ value = ground (arith, eq_iff p value) in inl (rw same self)
        | inr different ↦ inr (rest (ground (arith, not_all, different)))
      ]
    ]

texts_of_fault : (vs : List Value) {f : Fault} → texts_of vs ≡ err f → f ≡ panicked
texts_of_fault [] h = cc
texts_of_fault (str s ∷ vs) h = elim (Result-cases (texts_of vs)) [
  | inl (ss, e) ↦ absurd (ground (arith, e))
  | inr (f, e) ↦ let later = texts_of_fault vs e in ground (arith, e, later)
]
texts_of_fault (null ∷ vs) h = ground arith
texts_of_fault (bool b ∷ vs) h = ground arith
texts_of_fault (num n ∷ vs) h = ground arith
texts_of_fault (arr xs ∷ vs) h = ground arith
texts_of_fault (obj fs ∷ vs) h = ground arith

extract_fault : (v : Value) {f : Fault} → extract_string_array v ≡ err f → f ≡ panicked
unfolding extract_string_array
extract_fault (arr xs) h = texts_of_fault (elems xs) h
extract_fault (str s) h = ground arith
extract_fault null h = ground arith
extract_fault (bool b) h = ground arith
extract_fault (num n) h = ground arith
extract_fault (obj fs) h = ground arith

statement_matches_nil : (fs : Fields) → statement_matches fs none ≡ err panicked
unfolding statement_matches
statement_matches_nil fs = elim (Result-cases (extract_string_array (entry "Action" fs))) [
  | inl (actions, e) ↦ rw e refl
  | inr (f, e) ↦ let same = extract_fault (entry "Action" fs) e in ground (arith, e, same)
]

module _ (u : Unicode) where
  pub nil_context_panics :
      (v : Value) (vs : List Value) (result : EvaluationResult)
      → evaluate_statements u (v ∷ vs) none result ≡ err panicked
  unfolding evaluate_statements statement_matches
  nil_context_panics (obj fs) vs result = rw (statement_matches_nil fs) refl
  nil_context_panics null vs result = refl
  nil_context_panics (bool b) vs result = refl
  nil_context_panics (num n) vs result = refl
  nil_context_panics (str s) vs result = refl
  nil_context_panics (arr xs) vs result = refl
