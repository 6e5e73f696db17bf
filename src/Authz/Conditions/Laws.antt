-- ===== src/Authz/Conditions/Laws.antt =====
-- What conditions mean, with no order of evaluation in it.
use monkeys_identity.Base.{
  Bool, true, false, String, List, [], ◌∷◌, Option, none, some, lookup, Result, ok, err, ◌>>=◌,
  if◌then◌else◌, ◌≡◌, ◌↔◌, refl, All,
}
use monkeys_identity.Platform.{Unicode, Net}
use monkeys_identity.Authz.Value.{Value, null, bool, obj, fields, sprint}
use monkeys_identity.Authz.Conditions.{
  ConditionError, Context, string_equals, bool_equals, apply_operator, check_key, check_keys,
  evaluate_operator, check_operators, evaluate,
}

-- The Bool operator compares as StringEquals does, for values of any types.
pub bool_equals-string_equals :
    (expected actual : Value) → (bool_equals expected actual ≡ string_equals expected actual)
unfolding bool_equals string_equals sprint
bool_equals-string_equals (bool true) (bool true) = refl
bool_equals-string_equals (bool true) (bool false) = refl
bool_equals-string_equals (bool false) (bool true) = refl
bool_equals-string_equals (bool false) (bool false) = refl
bool_equals-string_equals (bool true) _ = refl
bool_equals-string_equals (bool false) _ = refl
bool_equals-string_equals _ _ = refl

-- A step after a test is taken exactly if the test passed.
pub and_then_iff :
    (m later : Result ConditionError Bool)
    → ((do satisfied ← m; if satisfied then later else ok false) ≡ ok true)
      ↔ ((m ≡ ok true) × (later ≡ ok true))
and_then_iff (ok true) later = (λ h. (refl, h), λ h. h.1)
and_then_iff (ok false) later = (λ h. cc, λ h. cc)
and_then_iff (err e) later = (λ h. cc, λ h. cc)

module _ (u : Unicode) (n : Net) (context : Context) where
  -- A requirement holds: the context has the key, and its value passes the operator.
  pub record KeyHolds (operator key : String) (expected : Value) : Type 0 where
    pub actual : Value
    pub present : lookup key context ≡ some actual
    pub passes : apply_operator u n operator expected actual ≡ ok true

  abbrev pub KeysHold : String → List (String × Value) → Type 0
  KeysHold operator = All (λ r. KeyHolds operator r.0 r.1)

  -- Every key of every operator holds.
  abbrev pub OperatorHolds : String × Value → Type 0
  OperatorHolds (operator, obj requirements) = KeysHold operator (fields requirements)
  OperatorHolds (operator, _) = ⊥

  abbrev pub Holds : Value → Type 0
  Holds null = Unit
  Holds (obj operators) = All OperatorHolds (fields operators)
  Holds _ = ⊥

  check_key_sound :
      (operator key : String) (expected : Value) (found : Option Value)
      → lookup key context ≡ found
      → check_key u n operator found expected ≡ ok true
      → KeyHolds operator key expected
  unfolding check_key
  check_key_sound operator key expected none e h = cc
  check_key_sound operator key expected (some actual) e h = record {
    actual = actual;
    present = e;
    passes = h;
  }

  check_key_iff :
      (operator key : String) (expected : Value)
      → (check_key u n operator (lookup key context) expected ≡ ok true)
        ↔ KeyHolds operator key expected
  unfolding check_key
  check_key_iff operator key expected = (
    check_key_sound operator key expected (lookup key context) refl,
    λ k. rw (k.present, check_key) k.passes,
  )

  check_keys_iff :
      (operator : String) (rest : List (String × Value))
      → (check_keys u n operator rest context ≡ ok true) ↔ KeysHold operator rest
  unfolding check_keys
  check_keys_iff operator [] = (λ _. tt, λ _. refl)
  check_keys_iff operator ((key, expected) ∷ rest) =
      let (here, back) = check_key_iff operator key expected in
      let (there, back') = check_keys_iff operator rest in
      let (split, join) = and_then_iff (check_key u n operator (lookup key context) expected) _ in
      (λ h. (here (split h).0, there (split h).1), λ h. join (back h.0, back' h.1))

  evaluate_operator_iff :
      (operator : String) (requirements : Value)
      → (evaluate_operator u n operator requirements context ≡ ok true)
        ↔ OperatorHolds (operator, requirements)
  unfolding evaluate_operator
  evaluate_operator_iff operator (obj requirements) = check_keys_iff operator (fields requirements)
  evaluate_operator_iff operator _ = (λ h. cc, λ h. absurd h)

  pub check_operators_iff :
      (operators : List (String × Value))
      → (check_operators u n operators context ≡ ok true) ↔ All OperatorHolds operators
  unfolding check_operators
  check_operators_iff [] = (λ _. tt, λ _. refl)
  check_operators_iff ((operator, requirements) ∷ rest) =
      let (here, back) = evaluate_operator_iff operator requirements in
      let (there, back') = check_operators_iff rest in
      let (split, join) = and_then_iff (evaluate_operator u n operator requirements context) _ in
      (λ h. (here (split h).0, there (split h).1), λ h. join (back h.0, back' h.1))

  -- A condition is satisfied exactly when it is null, or an object of objects in which every key
  -- of every operator is in the context and passes the operator.
  pub evaluate_iff :
      (condition : Value) → (evaluate u n condition context ≡ ok true) ↔ Holds condition
  unfolding evaluate
  evaluate_iff null = (λ _. tt, λ _. refl)
  evaluate_iff (obj operators) = check_operators_iff (fields operators)
  evaluate_iff _ = (λ h. cc, λ h. absurd h)
