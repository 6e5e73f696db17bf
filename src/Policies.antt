-- ===== src/Policies.antt =====
-- internal/queries/policy_queries.go: the second evaluator of policies, which /authz/bulk-check and
-- the simulation use. A failed type assertion and a nil context panic.
pub mod Laws
pub mod Overrides
pub mod Validation
pub mod Versions
pub mod Store
pub mod Check
mod Tests
use Prim.Native.String
use monkeys_identity.Base.{
  Bool, true, false, not, ◌&&◌, ◌||◌, String, List, [], ◌∷◌, ◌++◌, Option, none, some, Text, codes,
  str_eq, equal_text, any, lookup, map, Result, ok, err, ◌>>=◌, ◌>>◌, ensure, if◌then◌else◌,
}
use monkeys_identity.Platform.{Unicode, to_lower}
use monkeys_identity.Authz.Value.{Value, Fields, null, str, arr, obj, elems, fields}

-- What ends an evaluation without a result: an error, or a panic.
pub data Fault : Type 0 where
  invalid_policy panicked : Fault

-- An entry of a Go map: a missing key is nil.
unfoldable pub entry : String → Fields → Value
entry key statement = elim (lookup key (fields statement)) [ none ↦ null | some v ↦ v ]

-- x.(string)
abbrev pub text_of : Value → Result Fault String
text_of (str s) = ok s
text_of _ = err panicked

-- x.(map[string]interface{})
abbrev pub object_of : Value → Result Fault Fields
object_of (obj fs) = ok fs
object_of _ = err panicked

abbrev pub texts_of : List Value → Result Fault (List String)
texts_of [] = ok []
texts_of (v ∷ vs) = do s ← text_of v; ss ← texts_of vs; ok (s ∷ ss)

unfoldable pub extract_string_array : Value → Result Fault (List String)
extract_string_array (str s) = ok (s ∷ [])
extract_string_array (arr items) = texts_of (elems items)
extract_string_array _ = ok []

unfoldable pub matches_pattern : List String → String → Bool
matches_pattern patterns value = any (λ p. str_eq p "*" || str_eq p value) patterns

-- The fields of `PolicyEvaluationContext` that are read.
pub record EvaluationContext : Type 0 where
  pub resource : String
  pub action : String

-- a field of a pointer that may be nil
abbrev pub deref : Option EvaluationContext → Result Fault EvaluationContext
deref none = err panicked
deref (some context) = ok context

unfoldable pub statement_matches : Fields → Option EvaluationContext → Result Fault Bool
statement_matches statement pointer = do
  actions ← extract_string_array (entry "Action" statement)
  context ← deref pointer
  if not (matches_pattern actions context.action) then ok false else do
    resources ← extract_string_array (entry "Resource" statement)
    ok (matches_pattern resources context.resource)

pub record EvaluationResult : Type 0 where
  pub effect : Text
  pub decision : Text
  pub reasons : List String

abbrev pub reason : Option EvaluationContext → String
reason none = ""
reason (some context) =
    String.◌++◌ "Statement matched for action "
      (String.◌++◌ context.action (String.◌++◌ " on resource " context.resource))

module _ (u : Unicode) where
  abbrev pub with_effect : Option EvaluationContext → EvaluationResult → String → EvaluationResult
  with_effect pointer result effect = record {
    effect = to_lower u (codes effect);
    decision = to_lower u (codes effect);
    reasons = result.reasons ++ (reason pointer ∷ []);
  }

  -- the loop of `EvaluatePolicy`, which a deny leaves
  unfoldable pub evaluate_statements :
      List Value → Option EvaluationContext → EvaluationResult → Result Fault EvaluationResult
  evaluate_statements [] pointer result = ok result
  evaluate_statements (v ∷ vs) pointer result = do
    statement ← object_of v
    matched ← statement_matches statement pointer
    if not matched then evaluate_statements vs pointer result else do
      effect ← text_of (entry "Effect" statement)
      let next = with_effect pointer result effect
      if equal_text next.effect "deny" then ok next else evaluate_statements vs pointer next

  abbrev pub undecided : EvaluationResult
  undecided = record {
    effect = codes "not_applicable";
    decision = codes "not_applicable";
    reasons = [];
  }

  -- `unmarshal` is json.Unmarshal into a map.
  module _ (unmarshal : String → Option Fields) where
    abbrev pub statements_of : Value → Result Fault (List Value)
    statements_of (arr items) = ok (elems items)
    statements_of _ = err invalid_policy

    abbrev pub parsed_policy : Option Fields → Result Fault Fields
    parsed_policy none = err invalid_policy
    parsed_policy (some fs) = ok fs

    unfoldable pub evaluate_policy :
        String → Option EvaluationContext → Result Fault EvaluationResult
    unfolding evaluate_statements
    evaluate_policy document pointer = do
      policy ← parsed_policy (unmarshal document)
      statements ← statements_of (entry "Statement" policy)
      evaluate_statements statements pointer undecided
