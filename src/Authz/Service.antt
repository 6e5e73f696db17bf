-- ===== src/Authz/Service.antt =====
-- internal/services/authz_service.go: `Authorize` over the rows that its three queries return.
pub mod Stages
pub mod Laws
pub mod Shares
use monkeys_identity.Base.{
  Bool, true, false, not, ◌&&◌, ◌||◌, String, List, [], ◌∷◌, Option, none, some, codes, Result, ok,
  err, str_eq, equal_text, if◌then◌else◌,
}
use monkeys_identity.Platform.{Unicode, Net, equal_fold, to_lower, contains}
use monkeys_identity.Authz.Wildcard.{match_wildcard}
use monkeys_identity.Authz.Conditions.{Context}
use monkeys_identity.Authz.Evaluator.{
  Decision, allow, deny, not_applicable, PolicyDocument, EvaluationError, evaluate,
}

-- The columns of `resource_permissions` and of `resource_shares` that `Authorize` reads.
pub record ResourcePermission : Type 0 where
  pub resource_id : String
  pub permission : String
  pub effect : String

pub record ResourceShare : Type 0 where
  pub resource_id : String
  pub access_level : String

-- What the three queries answer for a principal; `none` is an error of the database.
pub record Grants : Type 0 where
  pub policies : Option (List String)
  pub permissions : Option (List ResourcePermission)
  pub shares : Option (List ResourceShare)

pub data AuthorizeError : Type 0 where
  failed_to_fetch_policies : AuthorizeError

-- no explicit allow was found
unfoldable pub default_deny : Decision → Decision
default_deny not_applicable = deny
default_deny d = d

module _ (u : Unicode) where
  unfoldable pub authorize_share : String → String → Bool
  authorize_share access_level action =
      let level = to_lower u (codes access_level) in
      if equal_text level "owner"
      then true
      else if equal_text level "editor"
      then not (contains (to_lower u (codes action)) (codes "delete"))
        && not (contains (to_lower u (codes action)) (codes "share"))
      else if equal_text level "viewer"
      then equal_fold u (codes action) (codes "read")
        || equal_fold u (codes action) (codes "list")
        || equal_fold u (codes action) (codes "view")
      else false

  -- the loop over the permissions; `none` is the early return of a deny
  unfoldable pub check_permissions :
      List ResourcePermission → String → String → Decision → Option Decision
  check_permissions [] action resource decision = some decision
  check_permissions (rp ∷ rest) action resource decision =
      let allowed = check_permissions rest action resource allow in
      let same = check_permissions rest action resource decision in
      if str_eq rp.resource_id resource && match_wildcard (codes rp.permission) (codes action)
      then (if equal_fold u (codes rp.effect) (codes "deny")
          then none
          else if equal_fold u (codes rp.effect) (codes "allow")
          then allowed
          else same)
      else same

  -- the loop over the shares
  unfoldable pub check_shares : List ResourceShare → String → String → Decision → Decision
  check_shares [] action resource decision = decision
  check_shares (share ∷ rest) action resource decision = check_shares rest action resource (
      if str_eq share.resource_id resource && authorize_share share.access_level action
      then allow
      else decision)

  -- `if err == nil`: a failed query is passed over.
  unfoldable pub permission_stage :
      Option (List ResourcePermission) → String → String → Decision → Option Decision
  unfolding check_permissions
  permission_stage none action resource decision = some decision
  permission_stage (some permissions) action resource decision =
      check_permissions permissions action resource decision

  unfoldable pub share_stage : Option (List ResourceShare) → String → String → Decision → Decision
  unfolding check_shares
  share_stage none action resource decision = decision
  share_stage (some shares) action resource decision = check_shares shares action resource decision

  module _ (n : Net) (unmarshal : String → Option PolicyDocument) where
    -- the loop over the policies; a policy that cannot be evaluated is passed over
    unfoldable pub check_policies :
        List String → String → String → Context → Decision → Option Decision
    check_policies [] action resource context decision = some decision
    check_policies (document ∷ rest) action resource context decision =
        elim (evaluate u n unmarshal document action resource context) [
          | err e ↦ check_policies rest action resource context decision
          | ok deny ↦ none
          | ok allow ↦ check_policies rest action resource context allow
          | ok not_applicable ↦ check_policies rest action resource context decision
        ]

    unfoldable pub authorize : Grants → String → String → Context → Result AuthorizeError Decision
    unfolding check_policies permission_stage share_stage default_deny
    authorize grants action resource context = elim grants.policies [
      | none ↦ err failed_to_fetch_policies
      | some documents ↦ elim (check_policies documents action resource context not_applicable) [
        | none ↦ ok deny
        | some decision ↦ elim (permission_stage grants.permissions action resource decision) [
          | none ↦ ok deny
          | some decision' ↦ ok (default_deny (share_stage grants.shares action resource decision'))
        ]
      ]
    ]
