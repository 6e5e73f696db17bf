-- ===== src/Authz/Tests.antt =====
-- Tests of internal/authz and the authorization service, from evaluator_test.go where it has them,
-- and the theorems at concrete inputs.
use monkeys_identity.Base.{
  true, false, String, List, [], ◌∷◌, Option, none, some, Text, codes, text_eq, lookup, ok, err,
  ◌≡◌, ◌↔◌, ◌⊎◌, refl, arith,
}
use monkeys_identity.Platform.{Net, ascii, equal_fold, to_lower, contains, has_prefix}
use monkeys_identity.Authz.Wildcard.{match_wildcard}
use monkeys_identity.Authz.Wildcard.Glob.{Matches, match_wildcard_iff}
use monkeys_identity.Authz.Value.{Value, null, bool, num, str, obj, end, field, sprint}
use monkeys_identity.Authz.Conditions
use monkeys_identity.Authz.Conditions.{Context, unsupported_operator, bool_equals, string_equals}
use monkeys_identity.Authz.Conditions.Laws.{Holds, evaluate_iff}
use monkeys_identity.Authz.Evaluator.{
  allow, deny, Statement, PolicyDocument, evaluate, evaluate_statements, matches, match_field,
}
use monkeys_identity.Authz.Evaluator.Laws.{FirstFires, Fires, evaluate_statements_iff}
use monkeys_identity.Authz.Service.{Grants, authorize, authorize_share, failed_to_fetch_policies}
use monkeys_identity.Authz.Service.Laws.{IsAllowed, authorize_iff}

-- A stand-in for package `net`: every text is an address, and a network holds those that it begins.
abbrev prefixes : Net
prefixes = record {
  Address = Text;
  Network = Text;
  parse_ip = λ t. some t;
  parse_cidr = λ t. some t;
  contains_ip = λ n a. has_prefix n a;
  equal_ip = λ a b. text_eq a b;
}

wildcard_tests :
    (match_wildcard (codes "*") (codes "anything") ≡ true)
    × (match_wildcard (codes "iam:*") (codes "iam:GetUser") ≡ true)
    × (match_wildcard (codes "iam:*") (codes "auth:Login") ≡ false)
    × (match_wildcard (codes "u::user/???") (codes "u::user/123") ≡ true)
    × (match_wildcard (codes "u::user/??") (codes "u::user/123") ≡ false)
    × (match_wildcard (codes "*.txt") (codes "file.txt") ≡ true)
    × (match_wildcard (codes "*.txt") (codes "fileAtxt") ≡ false)
unfolding match_wildcard
wildcard_tests = (refl, refl, refl, refl, refl, refl, refl)

match_wildcard_iff_example :
    (match_wildcard (codes "iam:*") (codes "iam:Get") ≡ true)
    ↔ ((codes "iam:*" ≡ codes "*") ⊎ Matches (codes "iam:*") (codes "iam:Get"))
match_wildcard_iff_example = match_wildcard_iff (codes "iam:*") (codes "iam:Get")

-- The document of the test "Explicit deny overrides allow", with its two statements in this order
-- and in the other one.
abbrev statement : String → String → Statement
statement effect action = record {
  sid = "";
  effect = effect;
  action = str action;
  resource = str "*";
  condition = null;
}

abbrev texts : List (String × PolicyDocument)
texts =
    (
      "deny-first",
      record {
        version = "1.0";
        statement = statement "Deny" "iam:Del" ∷ statement "Allow" "*" ∷ [];
      },
    )
    ∷ (
      "allow-first",
      record {
        version = "1.0";
        statement = statement "Allow" "*" ∷ statement "Deny" "iam:Del" ∷ [];
      },
    )
    ∷ []

abbrev read : String → Option PolicyDocument
read text = lookup text texts

evaluator_tests :
    (evaluate ascii prefixes read "deny-first" "iam:Del" "u" [] ≡ ok deny)
    × (evaluate ascii prefixes read "deny-first" "iam:Get" "u" [] ≡ ok allow)
    × (evaluate ascii prefixes read "allow-first" "iam:Del" "u" [] ≡ ok allow)
unfolding evaluate lookup matches match_field match_wildcard equal_fold
evaluator_tests = (refl, refl, refl)

evaluate_statements_iff_example :
    (evaluate_statements ascii prefixes (statement "Allow" "*" ∷ []) "iam:Del" "u" [] ≡ ok allow)
    ↔ FirstFires ascii prefixes "iam:Del" "u" [] allow (statement "Allow" "*" ∷ [])
evaluate_statements_iff_example =
    evaluate_statements_iff ascii prefixes "iam:Del" "u" [] allow (statement "Allow" "*" ∷ [])
      (ground arith)

allowing : Fires ascii prefixes "iam:Del" "u" [] allow (statement "Allow" "*")
unfolding matches match_field match_wildcard equal_fold
allowing = record { matched = refl; says = refl }

denying : Fires ascii prefixes "iam:Del" "u" [] deny (statement "Deny" "iam:Del")
unfolding matches match_field match_wildcard equal_fold
denying = record { matched = refl; says = refl }

-- Conditions.
abbrev request : Context
request = ("name", str "johndoe") ∷ ("mfa", bool true) ∷ ("ip", str "10.0.0.7") ∷ []

abbrev by_name : Value
by_name = obj (field "StringEquals" (obj (field "name" (str "johndoe") end)) end)

condition_tests :
    (Conditions.evaluate ascii prefixes by_name request ≡ ok true)
    × (Conditions.evaluate ascii prefixes by_name (("name", str "jane") ∷ []) ≡ ok false)
    × (Conditions.evaluate ascii prefixes by_name [] ≡ ok false)
    × (Conditions.evaluate ascii prefixes (str "x") request ≡ err Conditions.not_a_map)
    × (Conditions.apply_operator ascii prefixes "StringLike" (str "10.*") (str "10.0.0.7")
        ≡ ok true)
    × (Conditions.apply_operator ascii prefixes "NumericEquals" (num (codes "1")) (str "1")
        ≡ ok true)
    × (Conditions.apply_operator ascii prefixes "IpAddress" (str "10/8") (str "10") ≡ ok false)
unfolding Conditions.evaluate Conditions.apply_operator lookup Conditions.check_key
    Conditions.evaluate_operator Conditions.string_equals Conditions.string_like
    Conditions.numeric_equals Conditions.ip_address_match sprint match_wildcard
condition_tests = (refl, refl, refl, refl, refl, refl, refl)

evaluate_iff_example :
    (Conditions.evaluate ascii prefixes by_name request ≡ ok true)
    ↔ Holds ascii prefixes request by_name
evaluate_iff_example = evaluate_iff ascii prefixes request by_name

bad_name :
    Conditions.evaluate_operator ascii prefixes "StringEquals"
      (obj (field "name" (str "jane") end))
      request
    ≡ ok false
unfolding Conditions.evaluate_operator Conditions.check_key Conditions.apply_operator
    Conditions.string_equals sprint lookup
bad_name = refl

bad_operator :
    Conditions.evaluate_operator ascii prefixes "NumericLess"
      (obj (field "name" (str "1") end))
      request
    ≡ err (unsupported_operator "NumericLess")
unfolding Conditions.evaluate_operator Conditions.check_key Conditions.apply_operator lookup
bad_operator = refl

-- The service.
abbrev grants : Grants
grants = record {
  policies = some ("allow-first" ∷ []);
  permissions = some (record { resource_id = "u"; permission = "iam:Del"; effect = "DENY" } ∷ []);
  shares = some (record { resource_id = "u"; access_level = "Viewer" } ∷ []);
}

abbrev unreadable : Grants
unreadable = record grants { permissions = none }

service_tests :
    (authorize ascii prefixes read grants "iam:Del" "u" [] ≡ ok deny)
    × (authorize ascii prefixes read grants "iam:Get" "u" [] ≡ ok allow)
    × (authorize ascii prefixes read unreadable "iam:Del" "u" [] ≡ ok allow)
    × (authorize ascii prefixes read (record grants { policies = some [] }) "read" "u" []
        ≡ ok allow)
    × (authorize ascii prefixes read (record grants { policies = some [] }) "write" "u" []
        ≡ ok deny)
    × (authorize ascii prefixes read (record grants { policies = none }) "read" "u" []
        ≡ err failed_to_fetch_policies)
unfolding authorize evaluate lookup matches match_field match_wildcard equal_fold authorize_share
    to_lower contains
service_tests = (refl, refl, refl, refl, refl, refl)

authorize_iff_example :
    (authorize ascii prefixes read grants "iam:Get" "u" [] ≡ ok allow)
    ↔ IsAllowed ascii "iam:Get" "u" prefixes read [] grants
authorize_iff_example = authorize_iff ascii "iam:Get" "u" prefixes read [] grants
