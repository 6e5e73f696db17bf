-- ===== src/Policies/Check.antt =====
-- `CheckPermission` and `BulkCheckPermissions` of internal/queries/policy_queries.go.
pub mod Laws
use Prim.Native.String
use monkeys_identity.Base.{
  Bool, true, false, not, ◌&&◌, ◌||◌, String, List, [], ◌∷◌, ◌++◌, Option, none, some, Text, codes,
  str_eq, equal_text, any, lookup, map, Result, ok, err, ◌>>=◌, ◌>>◌, ensure, if◌then◌else◌,
}
use monkeys_identity.Platform.{Unicode, to_lower}
use monkeys_identity.Authz.Value.{Value, Fields, null, str, arr, obj, elems, fields}
use monkeys_identity.Policies.{
  Fault, invalid_policy, panicked, EvaluationContext, EvaluationResult, evaluate_policy,
}

-- The columns of a policy that a check reads.
pub record Policy : Type 0 where
  pub id : String
  pub name : String
  pub document : String

pub record PermissionCheckRequest : Type 0 where
  pub principal_id : String
  pub principal_type : String
  pub organization_id : String
  pub resource : String
  pub action : String
  pub context : Option EvaluationContext

-- `Request` is left out: it is the request.
pub record PermissionCheckResult : Type 0 where
  pub allowed : Bool
  pub decision : String
  pub policies : List String
  pub evaluation : Option EvaluationResult

-- `database` is an error of the query, with its text; a panic is not recovered by the loop.
pub data CheckError : Type 0 where
  database : String → CheckError
  check_panicked : CheckError

module _ (u : Unicode) (unmarshal : String → Option Fields) where
  abbrev pub listed : Policy → PermissionCheckResult → PermissionCheckResult
  listed policy result = record result { policies = result.policies ++ (policy.id ∷ []) }

  abbrev pub on_evaluation :
      Policy
      → PermissionCheckResult
      → (PermissionCheckResult → Result CheckError PermissionCheckResult)
      → Result Fault EvaluationResult
      → Result CheckError PermissionCheckResult
  on_evaluation policy result rest (err panicked) = err check_panicked
  on_evaluation policy result rest (err invalid_policy) = rest result
  on_evaluation policy result rest (ok evaluation) =
      if equal_text evaluation.effect "deny"
      then ok (record (listed policy result) {
        allowed = false;
        decision = "deny";
        evaluation = some evaluation;
      })
      else if equal_text evaluation.effect "allow"
      then rest (record (listed policy result) {
        allowed = true;
        decision = "allow";
        evaluation = some evaluation;
      })
      else rest (listed policy result)

  -- the loop over the principal's policies
  unfoldable pub check_policies :
      List Policy
      → Option EvaluationContext
      → PermissionCheckResult
      → Result CheckError PermissionCheckResult
  check_policies [] pointer result = ok result
  check_policies (p ∷ ps) pointer result =
      on_evaluation p result (check_policies ps pointer)
        (evaluate_policy u unmarshal p.document pointer)

  abbrev pub denied_at_first : PermissionCheckResult
  denied_at_first = record { allowed = false; decision = "deny"; policies = []; evaluation = none }

  -- after the query
  abbrev pub on_policies :
      PermissionCheckRequest → Result String (List Policy) → Result CheckError PermissionCheckResult
  on_policies r (err failure) = err (database failure)
  on_policies r (ok policies) = check_policies policies r.context denied_at_first

  -- `get_principal_policies` is the query; an empty organization is taken from the request.
  module _
      (get_principal_policies : (principal_id principal_type org_id : String)
        → Result String (List Policy)) where
    abbrev pub org_of : String → PermissionCheckRequest → String
    org_of organization_id r =
        if str_eq organization_id "" then r.organization_id else organization_id

    unfoldable pub check_permission :
        String → PermissionCheckRequest → Result CheckError PermissionCheckResult
    unfolding check_policies
    check_permission organization_id r =
        on_policies r
          (get_principal_policies r.principal_id r.principal_type (org_of organization_id r))

    abbrev failed_check : String → PermissionCheckResult
    failed_check failure = record {
      allowed = false;
      decision = "error";
      policies = [];
      evaluation =
          some (record { effect = codes "deny"; decision = codes "error"; reasons = failure ∷ [] });
    }

    -- one entry of `BulkCheckPermissions`; a panic ends the whole request
    abbrev pub bulk_entry :
        Result CheckError PermissionCheckResult → Result CheckError PermissionCheckResult
    bulk_entry (ok result) = ok result
    bulk_entry (err (database failure)) = ok (failed_check failure)
    bulk_entry (err check_panicked) = err check_panicked

    unfoldable pub bulk_check_permissions :
        String → List PermissionCheckRequest → Result CheckError (List PermissionCheckResult)
    unfolding check_permission
    bulk_check_permissions organization_id [] = ok []
    bulk_check_permissions organization_id (r ∷ rs) = do
      result ← bulk_entry (check_permission organization_id r)
      results ← bulk_check_permissions organization_id rs
      ok (result ∷ results)
