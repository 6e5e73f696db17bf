-- ===== src/Authz/Evaluator.antt =====
-- internal/authz/evaluator.go: a policy document's statements, and `Evaluate`. An error always
-- comes with the decision "deny", which no caller reads.
pub mod Laws
use monkeys_identity.Base.{
  Bool, true, false, String, List, [], ◌∷◌, Option, none, some, Text, codes, any, Result, ok, err,
  ◌>>=◌, if◌then◌else◌,
}
use monkeys_identity.Platform.{Unicode, Net, equal_fold}
use monkeys_identity.Authz.Wildcard.{match_wildcard}
use monkeys_identity.Authz.Value.{Value, null, str, arr, elems}
use monkeys_identity.Authz.Conditions
use monkeys_identity.Authz.Conditions.{ConditionError, Context}

pub data Decision : Type 0 where
  allow deny not_applicable : Decision

-- The members of a statement that are missing are null, as encoding/json leaves them.
pub record Statement : Type 0 where
  pub sid : String
  pub effect : String
  pub action : Value
  pub resource : Value
  pub condition : Value

pub record PolicyDocument : Type 0 where
  pub version : String
  pub statement : List Statement

pub data EvaluationError : Type 0 where
  invalid_document : EvaluationError
  bad_condition : ConditionError → EvaluationError

-- an item of a list of patterns; what is no string is passed over
abbrev item_matches : Text → Value → Bool
item_matches value (str s) = match_wildcard (codes s) value
item_matches value _ = false

-- A decoded document never holds a `[]string`, the third case of the source's switch.
unfoldable pub match_field : Value → String → Bool
match_field (str s) value = match_wildcard (codes s) (codes value)
match_field (arr items) value = any (item_matches (codes value)) (elems items)
match_field _ value = false

abbrev from_condition : Result ConditionError Bool → Result EvaluationError Bool
from_condition (ok b) = ok b
from_condition (err e) = err (bad_condition e)

module _ (u : Unicode) (n : Net) where
  -- `stmt.Condition != nil`
  abbrev condition_holds : Value → Context → Result EvaluationError Bool
  condition_holds null context = ok true
  condition_holds condition context = from_condition (Conditions.evaluate u n condition context)

  unfoldable pub matches : Statement → String → String → Context → Result EvaluationError Bool
  matches stmt action resource context =
      if match_field stmt.action action
      then (if match_field stmt.resource resource
          then condition_holds stmt.condition context
          else ok false)
      else ok false

  -- the loop of `Evaluate`
  unfoldable pub evaluate_statements :
      List Statement → String → String → Context → Result EvaluationError Decision
  evaluate_statements [] action resource context = ok not_applicable
  evaluate_statements (stmt ∷ rest) action resource context =
      let later = evaluate_statements rest action resource context in
      do
        matched ← matches stmt action resource context
        if matched
            then (if equal_fold u (codes stmt.effect) (codes "Deny")
                then ok deny
                else if equal_fold u (codes stmt.effect) (codes "Allow")
                then ok allow
                else later)
            else later

  -- `json.Unmarshal` of the document's text is the parameter; `none` is its error.
  module _ (unmarshal : String → Option PolicyDocument) where
    unfoldable pub evaluate : String → String → String → Context → Result EvaluationError Decision
    unfolding evaluate_statements
    evaluate document action resource context = elim (unmarshal document) [
      | none ↦ err invalid_document
      | some doc ↦ evaluate_statements doc.statement action resource context
    ]
