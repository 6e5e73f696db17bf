-- ===== src/Authz/Service/Stages.antt =====
-- The loops of `Authorize`, one by one: when each stops with a deny, and when it ends with an allow.
use monkeys_identity.Base.{
  true, String, List, [], ◌∷◌, Option, none, some, codes, ok, ◌≡◌, ◌↔◌, ◌⊎◌, arith, All, Any,
  eq_iff,
}
use monkeys_identity.Platform.{Unicode, Net, equal_fold}
use monkeys_identity.Authz.Wildcard.{match_wildcard}
use monkeys_identity.Authz.Conditions.{Context}
use monkeys_identity.Authz.Evaluator.{Decision, allow, deny, PolicyDocument, evaluate}
use monkeys_identity.Authz.Service.{
  ResourcePermission, ResourceShare, authorize_share, check_permissions, check_shares,
  check_policies,
}

-- The rows of a query; a failed one has none.
abbrev pub rows : {A : Type 0} → Option (List A) → List A
rows none = []
rows (some xs) = xs

module _ (u : Unicode) (action resource : String) where
  abbrev pub Covers : ResourcePermission → Type 0
  Covers rp =
      (rp.resource_id ≡ resource) × (match_wildcard (codes rp.permission) (codes action) ≡ true)

  abbrev pub PermissionDenies : ResourcePermission → Type 0
  PermissionDenies rp = Covers rp × (equal_fold u (codes rp.effect) (codes "deny") ≡ true)

  abbrev pub PermissionAllows : ResourcePermission → Type 0
  PermissionAllows rp = Covers rp × (equal_fold u (codes rp.effect) (codes "allow") ≡ true)

  abbrev pub ShareAllows : ResourceShare → Type 0
  ShareAllows share =
      (share.resource_id ≡ resource) × (authorize_share u share.access_level action ≡ true)

  pub check_permissions_iff :
      (rps : List ResourcePermission) (d : Decision)
      → (check_permissions u rps action resource d ≡ some allow)
        ↔ (All (λ rp. ¬ PermissionDenies rp) rps × ((d ≡ allow) ⊎ Any PermissionAllows rps))
  unfolding check_permissions
  check_permissions_iff [] d = ground arith
  check_permissions_iff (rp ∷ rps) d = ground (
    arith,
    eq_iff rp.resource_id resource,
    check_permissions_iff rps d,
    check_permissions_iff rps allow,
  )

  pub permissions_some :
      (rps : List ResourcePermission) (d d' : Decision)
      → check_permissions u rps action resource d ≡ some d'
      → All (λ rp. ¬ PermissionDenies rp) rps
  unfolding check_permissions
  permissions_some [] d d' h = tt
  permissions_some (rp ∷ rps) d d' h = ground (
    arith,
    eq_iff rp.resource_id resource,
    permissions_some rps d d',
    permissions_some rps allow d',
  )

  pub permissions_none :
      (rps : List ResourcePermission) (d : Decision)
      → check_permissions u rps action resource d ≡ none
      → ¬ All (λ rp. ¬ PermissionDenies rp) rps
  unfolding check_permissions
  permissions_none [] d h = cc
  permissions_none (rp ∷ rps) d h =
      ground
        (arith, eq_iff rp.resource_id resource, permissions_none rps d, permissions_none rps allow)

  pub check_shares_iff :
      (shares : List ResourceShare) (d : Decision)
      → (check_shares u shares action resource d ≡ allow) ↔ ((d ≡ allow) ⊎ Any ShareAllows shares)
  unfolding check_shares
  check_shares_iff [] d = ground arith
  check_shares_iff (share ∷ shares) d = ground (
    arith,
    eq_iff share.resource_id resource,
    check_shares_iff shares d,
    check_shares_iff shares allow,
  )

  module _ (n : Net) (unmarshal : String → Option PolicyDocument) (context : Context) where
    abbrev pub PolicyDenies : String → Type 0
    PolicyDenies document = evaluate u n unmarshal document action resource context ≡ ok deny

    abbrev pub PolicyAllows : String → Type 0
    PolicyAllows document = evaluate u n unmarshal document action resource context ≡ ok allow

    pub check_policies_iff :
        (documents : List String) (d : Decision)
        → (check_policies u n unmarshal documents action resource context d ≡ some allow)
          ↔ (All (λ p. ¬ PolicyDenies p) documents × ((d ≡ allow) ⊎ Any PolicyAllows documents))
    unfolding check_policies
    check_policies_iff [] d = ground arith
    check_policies_iff (p ∷ ps) d =
        ground (arith, check_policies_iff ps d, check_policies_iff ps allow)

    pub policies_some :
        (documents : List String) (d d' : Decision)
        → check_policies u n unmarshal documents action resource context d ≡ some d'
        → All (λ p. ¬ PolicyDenies p) documents
    unfolding check_policies
    policies_some [] d d' h = tt
    policies_some (p ∷ ps) d d' h = ground (arith, policies_some ps d d', policies_some ps allow d')

    pub policies_none :
        (documents : List String) (d : Decision)
        → check_policies u n unmarshal documents action resource context d ≡ none
        → ¬ All (λ p. ¬ PolicyDenies p) documents
    unfolding check_policies
    policies_none [] d h = cc
    policies_none (p ∷ ps) d h = ground (arith, policies_none ps d, policies_none ps allow)
