-- ===== src/Authz/Service/Laws.antt =====
-- When `Authorize` allows a request, and that it always answers allow or deny.
use monkeys_identity.Base.{
  String, List, [], Option, none, some, Result, ok, err, ◌≡◌, ◌≢◌, ◌↔◌, ◌⊎◌, inl, inr, refl, arith,
  ◌∙◌, All, Any, Option-cases,
}
use monkeys_identity.Platform.{Unicode, Net}
use monkeys_identity.Authz.Conditions.{Context}
use monkeys_identity.Authz.Evaluator.{Decision, allow, deny, not_applicable, PolicyDocument}
use monkeys_identity.Authz.Service.{
  ResourcePermission, ResourceShare, Grants, AuthorizeError, default_deny, failed_to_fetch_policies,
  permission_stage, share_stage, check_policies, check_permissions, authorize,
}
use monkeys_identity.Authz.Service.Stages.{
  rows, PermissionDenies, PermissionAllows, ShareAllows, PolicyDenies, PolicyAllows,
  permissions_some, permissions_none, check_permissions_iff, check_shares_iff, check_policies_iff,
  policies_some, policies_none,
}

module _ (u : Unicode) (action resource : String) where
  abbrev Denying : ResourcePermission → Type 0
  Denying = PermissionDenies u action resource

  default_deny-allow : (d : Decision) → (default_deny d ≡ allow) ↔ (d ≡ allow)
  unfolding default_deny
  default_deny-allow allow = ground arith
  default_deny-allow _ = ground arith

  share_stage_iff :
      (shares : Option (List ResourceShare)) (d : Decision)
      → (share_stage u shares action resource d ≡ allow)
        ↔ ((d ≡ allow) ⊎ Any (ShareAllows u action resource) (rows shares))
  unfolding share_stage
  share_stage_iff none d = ground arith
  share_stage_iff (some shares) d = check_shares_iff u action resource shares d

  permission_stage_iff :
      (rps : Option (List ResourcePermission)) (d : Decision)
      → (permission_stage u rps action resource d ≡ some allow) ↔ (
          All (λ rp. ¬ Denying rp) (rows rps)
          × ((d ≡ allow) ⊎ Any (PermissionAllows u action resource) (rows rps)))
  unfolding permission_stage
  permission_stage_iff none d = ground arith
  permission_stage_iff (some rps) d = check_permissions_iff u action resource rps d

  permission_stage-some :
      (rps : Option (List ResourcePermission)) (d d' : Decision)
      → permission_stage u rps action resource d ≡ some d'
      → All (λ rp. ¬ Denying rp) (rows rps)
  unfolding permission_stage
  permission_stage-some none d d' h = tt
  permission_stage-some (some rps) d d' h = permissions_some u action resource rps d d' h

  permission_stage-none :
      (rps : Option (List ResourcePermission)) (d : Decision)
      → permission_stage u rps action resource d ≡ none
      → ¬ All (λ rp. ¬ Denying rp) (rows rps)
  unfolding permission_stage
  permission_stage-none none d h = cc
  permission_stage-none (some rps) d h = permissions_none u action resource rps d h

  -- `Authorize` after the policies gave the decision `d`.
  after_policies : Grants → Decision → Result AuthorizeError Decision
  after_policies grants d = elim (permission_stage u grants.permissions action resource d) [
    | none ↦ ok deny
    | some d' ↦ ok (default_deny (share_stage u grants.shares action resource d'))
  ]

  module _ (grants : Grants) where
    -- Nothing in the permissions denies, and an allow comes from before, a permission or a share.
    abbrev AllowedAfter : Decision → Type 0
    AllowedAfter d =
        All (λ rp. ¬ Denying rp) (rows grants.permissions)
        × ((d ≡ allow)
            ⊎ Any (PermissionAllows u action resource) (rows grants.permissions)
            ⊎ Any (ShareAllows u action resource) (rows grants.shares))

    after_policies_iff : (d : Decision) → (after_policies grants d ≡ ok allow) ↔ AllowedAfter d
    unfolding after_policies
    after_policies_iff d =
        elim (Option-cases (permission_stage u grants.permissions action resource d)) [
          | inl stopped ↦
              rw (stopped, after_policies)
                (λ h. cc, λ h. absurd (permission_stage-none grants.permissions d stopped h.0))
          | inr (d', e) ↦
              rw (e, after_policies) ground
                (
                  arith,
                  e,
                  default_deny-allow (share_stage u grants.shares action resource d'),
                  share_stage_iff grants.shares d',
                  permission_stage_iff grants.permissions d,
                  permission_stage-some grants.permissions d d',
                )
        ]

  module _ (n : Net) (unmarshal : String → Option PolicyDocument) (context : Context) where
    abbrev PolicyDenying : String → Type 0
    PolicyDenying = PolicyDenies u action resource n unmarshal context

    abbrev PolicyAllowing : String → Type 0
    PolicyAllowing = PolicyAllows u action resource n unmarshal context

    -- No policy and no permission denies, and a policy, a permission or a share allows.
    pub record IsAllowed (grants : Grants) : Type 0 where
      pub documents : List String
      pub fetched : grants.policies ≡ some documents
      pub no_policy_denies : All (λ p. ¬ PolicyDenying p) documents
      pub no_permission_denies : All (λ rp. ¬ Denying rp) (rows grants.permissions)
      pub granted :
          Any PolicyAllowing documents
          ⊎ Any (PermissionAllows u action resource) (rows grants.permissions)
          ⊎ Any (ShareAllows u action resource) (rows grants.shares)

    -- `Authorize` after the policies were fetched and evaluated.
    abbrev after_fetch : Grants → Option Decision → Result AuthorizeError Decision
    after_fetch grants none = ok deny
    after_fetch grants (some d) = after_policies grants d

    authorize_fetched :
        (grants : Grants) (documents : List String)
        → grants.policies ≡ some documents
        → authorize u n unmarshal grants action resource context
          ≡ after_fetch grants
              (check_policies u n unmarshal documents action resource context not_applicable)
    unfolding authorize after_policies
    authorize_fetched grants documents e = rw (e, authorize) (ground arith)

    fetched_iff :
        (grants : Grants) (documents : List String)
        → (after_fetch grants
              (check_policies u n unmarshal documents action resource context not_applicable)
            ≡ ok allow)
          ↔ (All (λ p. ¬ PolicyDenying p) documents
              × All (λ rp. ¬ Denying rp) (rows grants.permissions)
              × (Any PolicyAllowing documents
                  ⊎ Any (PermissionAllows u action resource) (rows grants.permissions)
                  ⊎ Any (ShareAllows u action resource) (rows grants.shares)))
    fetched_iff grants documents =
        elim (Option-cases
          (check_policies u n unmarshal documents action resource context not_applicable)) [
            | inl stopped ↦
                rw (stopped, after_fetch)
                  (
                    λ h. cc,
                    λ h. absurd (
                        policies_none u action resource n unmarshal context documents not_applicable
                          stopped h.0),
                  )
            | inr (d, found) ↦
                rw (found, after_fetch) ground
                  (
                    arith,
                    found,
                    after_policies_iff grants d,
                    check_policies_iff u action resource n unmarshal context documents
                        not_applicable,
                    policies_some u action resource n unmarshal context documents not_applicable d,
                  )
          ]

    authorize_sound :
        (grants : Grants) (found : Option (List String))
        → grants.policies ≡ found
        → authorize u n unmarshal grants action resource context ≡ ok allow
        → IsAllowed grants
    unfolding authorize
    authorize_sound grants none e h = let h' = rw (e, authorize) at h in cc
    authorize_sound grants (some documents) e h =
        let (p, rp, g) =
          (fetched_iff grants documents).0 (rw (authorize_fetched grants documents e) at h) in
        record {
          documents = documents;
          fetched = e;
          no_policy_denies = p;
          no_permission_denies = rp;
          granted = g;
        }

    -- Authorize allows a request exactly when the policies were fetched, none of them denies it,
    -- no fetched permission denies it, and a policy, a fetched permission or a fetched share
    -- allows it: an explicit deny of a policy or a permission overrides every allow, wherever it
    -- stands.
    pub authorize_iff :
        (grants : Grants)
        → (authorize u n unmarshal grants action resource context ≡ ok allow) ↔ IsAllowed grants
    authorize_iff grants = (
      authorize_sound grants grants.policies refl,
      λ a.
          authorize_fetched grants a.documents a.fetched
          ∙ (fetched_iff grants a.documents).1
              (a.no_policy_denies, a.no_permission_denies, a.granted),
    )

    -- Authorize answers allow or deny, never 'not applicable', and is an error exactly when the
    -- policies could not be fetched.
    pub authorize_default_deny :
        (grants : Grants)
        → (authorize u n unmarshal grants action resource context ≢ ok not_applicable)
          × ((authorize u n unmarshal grants action resource context ≡ err failed_to_fetch_policies)
              ↔ (grants.policies ≡ none))
    unfolding authorize default_deny
    authorize_default_deny grants = (ground arith, ground arith)

    -- When the query of the resource permissions fails, Authorize answers as if there were no
    -- permissions.
    pub authorize_fails_open :
        (grants : Grants)
        → grants.permissions ≡ none
        → (authorize u n unmarshal grants action resource context)
          ≡ authorize u n unmarshal
              (record grants { permissions = some [] })
              action
              resource
              context
    unfolding authorize permission_stage check_permissions
    authorize_fails_open grants e = ground arith
