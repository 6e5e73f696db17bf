-- ===== src/Directory/Checks.antt =====
-- The permission check of internal/queries/policy_queries.go over the tables of roles and groups.
use monkeys_identity.Base.{
  ℕ, false, true, String, List, Option, str_eq, Result, ◌≡◌, ◌∙◌, sym, refl, ap,
}
use monkeys_identity.Platform.{Unicode}
use monkeys_identity.Authz.Value.{Fields}
use monkeys_identity.Policies.Check.{PermissionCheckRequest, Policy, on_policies, check_permission}
use monkeys_identity.Directory.{Tables}
use monkeys_identity.Directory.Grants.{get_principal_policies}
use monkeys_identity.Directory.Isolation.{well_attached}
use monkeys_identity.Directory.Isolation.Statements.{Statement, Statement-isolated}

module _ (u : Unicode) (unmarshal : String → Option Fields) where
  check-on_policies :
      (get : String → String → String → Result String (List Policy)) (b : String)
      (r : PermissionCheckRequest)
      → str_eq b "" ≡ false
      → check_permission u unmarshal get b r
        ≡ on_policies u unmarshal r (get r.principal_id r.principal_type b)
  unfolding check_permission
  check-on_policies get b r given = rw given refl

  -- Where the ids of roles and of policies are distinct and every policy is attached to roles of
  -- its own organization alone, no statement on roles that runs for one organization changes the
  -- outcome of any permission check in another, named one.
  pub Statement-check_permission :
      (a b : String) (f : Option String) (now : ℕ) (r : PermissionCheckRequest) (t t' : Tables)
      → str_eq a b ≡ false
      → str_eq b "" ≡ false
      → well_attached t ≡ true
      → Statement a t t'
      → check_permission u unmarshal (get_principal_policies f now t') b r
        ≡ check_permission u unmarshal (get_principal_policies f now t) b r
  Statement-check_permission a b f now r t t' n given w step =
      check-on_policies (get_principal_policies f now t') b r given
      ∙ ap (on_policies u unmarshal r)
          (Statement-isolated a b f now r.principal_id r.principal_type t t' n w step)
      ∙ sym (check-on_policies (get_principal_policies f now t) b r given)
