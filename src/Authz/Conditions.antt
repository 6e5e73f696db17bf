-- ===== src/Authz/Conditions.antt =====
-- internal/authz/conditions.go. A map is ranged over in the order of the fields of the value; Go
-- leaves that order open, so a statement for every order speaks of every list of fields.
pub mod Laws
pub mod Order
use monkeys_identity.Base.{
  Bool, true, false, not, String, List, [], ◌∷◌, Option, none, some, Text, codes, text_eq, str_eq,
  lookup, Result, ok, err, ◌>>=◌, if◌then◌else◌,
}
use monkeys_identity.Platform.{Unicode, Net, equal_fold, contains}
use monkeys_identity.Authz.Wildcard.{match_wildcard}
use monkeys_identity.Authz.Value.{Value, null, bool, obj, Fields, fields, sprint}

pub data ConditionError : Type 0 where
  not_a_map : ConditionError
  requirements_not_a_map : ConditionError
  unsupported_operator : String → ConditionError

abbrev pub Context : Type 0
Context = List (String × Value)

-- equality of the printed values; `numericEquals` has the same body
unfoldable pub string_equals : Value → Value → Bool
string_equals expected actual = text_eq (sprint expected) (sprint actual)

unfoldable pub numeric_equals : Value → Value → Bool
numeric_equals expected actual = text_eq (sprint expected) (sprint actual)

abbrev same_bool : Bool → Bool → Bool
same_bool true a = a
same_bool false a = not a

unfoldable pub bool_equals : Value → Value → Bool
bool_equals (bool e) (bool a) = same_bool e a
bool_equals expected actual = text_eq (sprint expected) (sprint actual)

unfoldable pub string_like : Value → Value → Bool
string_like expected actual = match_wildcard (sprint expected) (sprint actual)

unfoldable pub string_equals_ignore_case : Unicode → Value → Value → Bool
string_equals_ignore_case u expected actual = equal_fold u (sprint expected) (sprint actual)

-- The branch on a CIDR range, and the comparison of two addresses.
in_network : (n : Net) → Text → Text → Bool
in_network n expected actual = elim (n.parse_cidr expected) [
  | none ↦ false
  | some net ↦ elim (n.parse_ip actual) [ none ↦ false | some ip ↦ n.contains_ip net ip ]
]

same_address : (n : Net) → Text → Text → Bool
same_address n expected actual = elim (n.parse_ip expected) [
  | none ↦ false
  | some e ↦ elim (n.parse_ip actual) [ none ↦ false | some a ↦ n.equal_ip e a ]
]

unfoldable pub ip_address_match : Net → Value → Value → Bool
unfolding in_network same_address contains
ip_address_match n expected actual =
    if contains (sprint expected) (codes "/")
    then in_network n (sprint expected) (sprint actual)
    else same_address n (sprint expected) (sprint actual)

module _ (u : Unicode) (n : Net) where
  unfoldable pub apply_operator : String → Value → Value → Result ConditionError Bool
  apply_operator operator expected actual =
      if str_eq operator "StringEquals"
      then ok (string_equals expected actual)
      else if str_eq operator "StringNotEquals"
      then ok (not (string_equals expected actual))
      else if str_eq operator "StringEqualsIgnoreCase"
      then ok (string_equals_ignore_case u expected actual)
      else if str_eq operator "StringLike"
      then ok (string_like expected actual)
      else if str_eq operator "Bool"
      then ok (bool_equals expected actual)
      else if str_eq operator "NumericEquals"
      then ok (numeric_equals expected actual)
      else if str_eq operator "IpAddress"
      then ok (ip_address_match n expected actual)
      else err (unsupported_operator operator)

  -- one key of an operator: a key that the context lacks is not satisfied
  unfoldable pub check_key : String → Option Value → Value → Result ConditionError Bool
  check_key operator none expected = ok false
  check_key operator (some actual) expected = apply_operator operator expected actual

  -- the loop of `evaluateOperator`
  unfoldable pub check_keys : String → List (String × Value) → Context → Result ConditionError Bool
  check_keys operator [] context = ok true
  check_keys operator ((key, expected) ∷ rest) context =
      let later = check_keys operator rest context in
      do
        satisfied ← check_key operator (lookup key context) expected
        if satisfied then later else ok false

  unfoldable pub evaluate_operator : String → Value → Context → Result ConditionError Bool
  unfolding check_keys
  evaluate_operator operator (obj requirements) context =
      check_keys operator (fields requirements) context
  evaluate_operator operator _ context = err requirements_not_a_map

  -- the loop of `Evaluate`
  unfoldable pub check_operators : List (String × Value) → Context → Result ConditionError Bool
  check_operators [] context = ok true
  check_operators ((operator, requirements) ∷ rest) context =
      let later = check_operators rest context in
      do
        satisfied ← evaluate_operator operator requirements context
        if satisfied then later else ok false

  unfoldable pub evaluate : Value → Context → Result ConditionError Bool
  unfolding check_operators
  evaluate null context = ok true
  evaluate (obj operators) context = check_operators (fields operators) context
  evaluate _ context = err not_a_map
