-- ===== src/Policies/Validation.antt =====
-- `validatePolicyDocument`, which every stored document passes, and what it is worth to the second
-- evaluator.
use monkeys_identity.Base.{
  ℕ, ◌+◌, Bool, true, false, ◌||◌, String, List, [], ◌∷◌, Option, none, some, Text, codes, str_eq,
  equal_text, lookup, Result, ok, err, ◌>>=◌, ◌>>◌, ensure, if◌then◌else◌, ◌≡◌, ◌⊎◌, inl, inr, refl,
  arith, All, Result-cases, Bool-cases, eq_iff,
}
use monkeys_identity.Platform.{Unicode, to_lower}
use monkeys_identity.Authz.Value.{Value, Values, Fields, arr, elems, fields}
use monkeys_identity.Policies.{
  Fault, entry, text_of, object_of, extract_string_array, matches_pattern, statement_matches,
  EvaluationContext, EvaluationResult, with_effect, evaluate_statements, evaluate_policy, undecided,
}

pub data ValidationError : Type 0 where
  invalid_json missing_statement statement_no_array : ValidationError
  missing_effect bad_effect missing_action missing_resource : ℕ → ValidationError
  validation_panicked : ValidationError

-- `_, ok := m[key]`
abbrev pub has_key : String → Fields → Bool
has_key key fs = elim (lookup key (fields fs)) [ none ↦ false | some v ↦ true ]

abbrev or_panic {ℓ} : {A : Type ℓ} → Result Fault A → Result ValidationError A
or_panic (ok a) = ok a
or_panic (err e) = err validation_panicked

unfoldable pub validate_statement : ℕ → Value → Result ValidationError (Unit {0})
validate_statement i v = do
  statement ← or_panic (object_of v)
  ensure (has_key "Effect" statement) (missing_effect i)
  effect ← or_panic (text_of (entry "Effect" statement))
  ensure (str_eq effect "Allow" || str_eq effect "Deny") (bad_effect i)
  ensure (has_key "Action" statement) (missing_action i)
  ensure (has_key "Resource" statement) (missing_resource i)

unfoldable pub validate_statements : ℕ → List Value → Result ValidationError (Unit {0})
unfolding validate_statement
validate_statements i [] = ok tt
validate_statements i (v ∷ vs) = do validate_statement i v; validate_statements (i + 1) vs

abbrev validate_list : Value → Result ValidationError (Unit {0})
validate_list (arr items) = validate_statements 0 (elems items)
validate_list _ = err statement_no_array

abbrev validate_fields : Option Fields → Result ValidationError (Unit {0})
validate_fields none = err invalid_json
validate_fields (some policy) =
    if has_key "Statement" policy
    then validate_list (entry "Statement" policy)
    else err missing_statement

unfoldable pub validate_policy_document :
    (String → Option Fields) → String → Result ValidationError (Unit {0})
unfolding validate_statements
validate_policy_document unmarshal document = validate_fields (unmarshal document)

-- The actions and the resources of a statement are texts.
abbrev pub ListsTexts : Value → Type 0
ListsTexts v =
    (statement : Fields)
    → object_of v ≡ ok statement
    → ((actions : List String) × (extract_string_array (entry "Action" statement) ≡ ok actions))
      × ((resources : List String) × (extract_string_array (entry "Resource" statement)
            ≡ ok resources))

abbrev pub IsDecision : Text → Type 0
IsDecision effect =
    (effect ≡ codes "allow") ⊎ (effect ≡ codes "deny") ⊎ (effect ≡ codes "not_applicable")

validate_statement_lem :
    (i : ℕ) (v : Value)
    → validate_statement i v ≡ ok tt
    → (statement : Fields) × (effect : String) × (object_of v ≡ ok statement)
      × (text_of (entry "Effect" statement) ≡ ok effect)
      × ((effect ≡ "Allow") ⊎ (effect ≡ "Deny"))
unfolding validate_statement
validate_statement_lem i v h = elim (Result-cases (object_of v)) [
  | inr (e, o) ↦ absurd (ground (arith, o))
  | inl (statement, o) ↦ elim (Result-cases (text_of (entry "Effect" statement))) [
    | inr (e, t) ↦ absurd (ground (arith, o, t))
    | inl (effect, t) ↦
        (statement, effect, o, t, ground (arith, o, t, eq_iff effect "Allow", eq_iff effect "Deny"))
  ]
]

matches_total :
    (v : Value) (statement : Fields) (context : EvaluationContext)
    → ListsTexts v
    → object_of v ≡ ok statement
    → (b : Bool) × (statement_matches statement (some context) ≡ ok b)
unfolding statement_matches
matches_total v statement context texts o =
    let ((actions, a), (resources, r)) = texts statement o in
    elim (Bool-cases (matches_pattern actions context.action)) [
      | inl m ↦ (matches_pattern resources context.resource, ground (arith, a, r, m))
      | inr m ↦ (false, ground (arith, a, m))
    ]

module _ (u : Unicode) where
  lower_allow : to_lower u (codes "Allow") ≡ codes "allow"
  unfolding to_lower
  lower_allow =
      rw
        (
          u.to_lower_ascii b'A' (ground arith),
          u.to_lower_ascii b'l' (ground arith),
          u.to_lower_ascii b'o' (ground arith),
          u.to_lower_ascii b'w' (ground arith),
        )
        refl

  lower_deny : to_lower u (codes "Deny") ≡ codes "deny"
  unfolding to_lower
  lower_deny =
      rw
        (
          u.to_lower_ascii b'D' (ground arith),
          u.to_lower_ascii b'e' (ground arith),
          u.to_lower_ascii b'n' (ground arith),
          u.to_lower_ascii b'y' (ground arith),
        )
        refl

  lower_effect :
      (effect : String)
      → (effect ≡ "Allow") ⊎ (effect ≡ "Deny")
      → IsDecision (to_lower u (codes effect))
  lower_effect effect (inl e) = inl (rw e lower_allow)
  lower_effect effect (inr e) = inr (inl (rw e lower_deny))

  -- Evaluating validated statements returns a decision.
  validated_statements :
      (i : ℕ) (vs : List Value) (context : EvaluationContext) (result : EvaluationResult)
      → All ListsTexts vs
      → IsDecision result.effect
      → validate_statements i vs ≡ ok tt
      → (evaluation : EvaluationResult) × (evaluate_statements u vs (some context) result
          ≡ ok evaluation)
        × IsDecision evaluation.effect
  unfolding validate_statements evaluate_statements
  validated_statements i [] context result texts fresh h = (result, refl, fresh)
  validated_statements i (v ∷ vs) context result texts fresh h =
      elim (Result-cases (validate_statement i v)) [
        | inr (e, bad) ↦ absurd (ground (arith, bad))
        | inl (done, good) ↦
            let h' = rw good at h in
            let (statement, effect, o, t, kind) = validate_statement_lem i v good in
            let (b, m) = matches_total v statement context texts.0 o in
            let next = with_effect u (some context) result effect in
            let decided = lower_effect effect kind in
            let skipped = validated_statements (i + 1) vs context result texts.1 fresh h' in
            let fired = validated_statements (i + 1) vs context next texts.1 decided h' in
            elim (Bool-cases b) [
              | inr miss ↦ rw o (rw (m, miss) skipped)
              | inl hit ↦ rw o (
                  rw (m, hit)
                    (rw t (elim (Bool-cases (equal_text next.effect "deny")) [
                      | inl d ↦ rw d (next, refl, decided)
                      | inr d ↦ rw d fired
                    ])))
            ]
      ]

  -- A validated document whose actions and resources are texts evaluates without an error or a
  -- panic in every context, to "allow", "deny" or "not_applicable".
  pub validated_evaluates :
      (unmarshal : String → Option Fields) (document : String) (policy : Fields) (items : Values)
      (context : EvaluationContext)
      → unmarshal document ≡ some policy
      → entry "Statement" policy ≡ arr items
      → All ListsTexts (elems items)
      → validate_policy_document unmarshal document ≡ ok tt
      → (evaluation : EvaluationResult) × (evaluate_policy u unmarshal document (some context)
          ≡ ok evaluation)
        × IsDecision evaluation.effect
  unfolding evaluate_policy validate_policy_document
  validated_evaluates unmarshal document policy items context read statements texts h =
      let valid : validate_statements 0 (elems items) ≡ ok tt = ground (arith, read, statements) in
      rw (read, evaluate_policy)
        (rw (statements, evaluate_policy)
          (validated_statements 0 (elems items) context (undecided u) texts (inr (inr refl)) valid))
