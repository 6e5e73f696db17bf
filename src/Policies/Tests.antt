-- ===== src/Policies/Tests.antt =====
-- Tests of the second evaluator, and the theorems at concrete inputs.
use monkeys_identity.Base.{
  true, false, String, List, [], ◌∷◌, Option, none, some, codes, str_eq, lookup, Result, ok,
  if◌then◌else◌, ◌≡◌, ◌↔◌, refl, arith, Any, All,
}
use monkeys_identity.Platform.{ascii, to_lower}
use monkeys_identity.Authz.Wildcard.{match_wildcard}
use monkeys_identity.Authz.Value.{Value, Fields, str, arr, obj, elems, nil, cons, end, field}
use monkeys_identity.Policies.{
  entry, extract_string_array, matches_pattern, statement_matches, EvaluationContext,
  EvaluationResult, evaluate_statements, evaluate_policy, undecided, reason,
}
use monkeys_identity.Policies.Check.{
  Policy, PermissionCheckRequest, PermissionCheckResult, check_policies, check_permission,
}
use monkeys_identity.Policies.Check.Laws.{HasEffect, check_permission_iff}
use monkeys_identity.Policies.Laws.{matches_pattern-match_wildcard}
use monkeys_identity.Policies.Validation.{
  ListsTexts, IsDecision, validate_statement, validate_statements, validate_policy_document,
  validated_evaluates,
}

abbrev saying : String → Fields → Fields
saying effect more =
    field "Effect" (str effect)
      (field "Action" (str "iam:Get") (field "Resource" (arr (cons (str "*") nil)) more))

abbrev allowing_fields : Fields
allowing_fields = saying "Allow" (field "Condition" (obj (field "IpAddress" (obj end) end)) end)

abbrev allowing : Value
allowing = obj allowing_fields

abbrev denying : Value
denying = obj (saying "Deny" end)

abbrev document : Fields
document = field "Statement" (arr (cons allowing nil)) end

abbrev unmarshal : String → Option Fields
unmarshal text = if str_eq text "d" then some document else none

abbrev context : EvaluationContext
context = record { resource = "u1"; action = "iam:Get" }

abbrev request : PermissionCheckRequest
request = record {
  principal_id = "u";
  principal_type = "user";
  organization_id = "";
  resource = "u1";
  action = "iam:Get";
  context = some context;
}

abbrev policy : Policy
policy = record { id = "p1"; name = "P"; document = "d" }

abbrev policies_of : String → String → String → Result String (List Policy)
policies_of principal_id principal_type org_id =
    ok (policy ∷ record policy { id = "p2"; document = "broken" } ∷ [])

abbrev allowed : EvaluationResult
allowed = record {
  effect = codes "allow";
  decision = codes "allow";
  reasons = reason (some context) ∷ [];
}

abbrev denied : EvaluationResult
denied = record {
  effect = codes "deny";
  decision = codes "deny";
  reasons = reason (some context) ∷ reason (some context) ∷ [];
}

overridden :
    evaluate_statements ascii (allowing ∷ denying ∷ []) (some context) (undecided ascii) ≡ ok denied
unfolding evaluate_statements statement_matches extract_string_array entry lookup matches_pattern
    to_lower
overridden = refl

abbrev granted : PermissionCheckResult
granted = record {
  allowed = true;
  decision = "allow";
  policies = "p1" ∷ [];
  evaluation = some allowed;
}

check_passes : check_permission ascii unmarshal policies_of "acme" request ≡ ok granted
unfolding check_permission check_policies evaluate_policy evaluate_statements statement_matches
    extract_string_array entry lookup matches_pattern to_lower
check_passes = refl

check_permission_iff_example : (granted.allowed ≡ true) ↔ (
    All
      (λ p. ¬ HasEffect ascii unmarshal (some context) "deny" p)
      (policy ∷ record policy { id = "p2"; document = "broken" } ∷ [])
    × Any
        (HasEffect ascii unmarshal (some context) "allow")
        (policy ∷ record policy { id = "p2"; document = "broken" } ∷ []))
check_permission_iff_example =
    check_permission_iff ascii unmarshal policies_of "acme" request
      (policy ∷ record policy { id = "p2"; document = "broken" } ∷ []) granted refl check_passes

exact : matches_pattern ("iam:*" ∷ "iam:Get" ∷ []) "iam:Get" ≡ true
unfolding matches_pattern
exact = refl

pattern_tests : (matches_pattern ("iam:*" ∷ []) "iam:Get" ≡ false)
unfolding matches_pattern
pattern_tests = refl

matches_pattern-match_wildcard_example :
    Any (λ p. match_wildcard (codes p) (codes "iam:Get") ≡ true) ("iam:*" ∷ "iam:Get" ∷ [])
matches_pattern-match_wildcard_example =
    matches_pattern-match_wildcard ("iam:*" ∷ "iam:Get" ∷ []) "iam:Get" refl exact

abbrev bare : PermissionCheckRequest
bare = record request { context = none }

statements_there : entry "Statement" document ≡ arr (cons allowing nil)
unfolding entry lookup
statements_there = refl

validated : validate_policy_document unmarshal "d" ≡ ok tt
unfolding validate_policy_document validate_statements validate_statement entry lookup
validated = refl

readable_items : All ListsTexts (elems (cons allowing nil))
unfolding extract_string_array entry lookup
readable_items = (
  λ statement e.
      let same : allowing_fields ≡ statement = ground arith in
      rw (← same) (("iam:Get" ∷ [], refl), ("*" ∷ [], refl)),
  tt,
)

validated_evaluates_example :
    (evaluation : EvaluationResult) × (evaluate_policy ascii unmarshal "d" (some context)
      ≡ ok evaluation)
    × IsDecision evaluation.effect
validated_evaluates_example =
    validated_evaluates ascii unmarshal "d" document (cons allowing nil) context refl
      statements_there readable_items validated
