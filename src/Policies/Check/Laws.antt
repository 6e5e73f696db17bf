-- ===== src/Policies/Check/Laws.antt =====
-- Among the policies of a principal a deny overrides every allow; and a check needs a context.
use monkeys_identity.Base.{
  true, false, String, List, [], ◌∷◌, Option, some, none, equal_text, Result, ok, err, ◌≡◌, ◌↔◌,
  ◌⊎◌, inl, inr, arith, refl, Any, All, Result-cases, Bool-cases,
}
use monkeys_identity.Platform.{Unicode}
use monkeys_identity.Authz.Value.{Value, Values, Fields, arr, cons, elems}
use monkeys_identity.Policies.{
  undecided, Fault, invalid_policy, panicked, entry, statement_matches, EvaluationContext,
  EvaluationResult, evaluate_statements, evaluate_policy,
}
use monkeys_identity.Policies.Laws.{nil_context_panics}
use monkeys_identity.Policies.Check.{
  bulk_check_permissions, check_panicked, Policy, PermissionCheckResult, check_policies,
  denied_at_first, listed, PermissionCheckRequest, check_permission, org_of,
}

module _ (u : Unicode) (unmarshal : String → Option Fields)
    (pointer : Option EvaluationContext) where
  -- The policy can be evaluated, and the effect is the given one.
  abbrev pub HasEffect : String → Policy → Type 0
  HasEffect effect p =
      (evaluation : EvaluationResult) × (evaluate_policy u unmarshal p.document pointer
        ≡ ok evaluation)
      × (equal_text evaluation.effect effect ≡ true)

  unreadable :
      (p : Policy) (effect : String) {f : Fault}
      → evaluate_policy u unmarshal p.document pointer ≡ err f
      → ¬ HasEffect effect p
  unreadable p effect e (evaluation, e', says) = ground (arith, e)

  effect_iff :
      (p : Policy) (effect : String) (evaluation : EvaluationResult)
      → evaluate_policy u unmarshal p.document pointer ≡ ok evaluation
      → HasEffect effect p ↔ (equal_text evaluation.effect effect ≡ true)
  effect_iff p effect evaluation e = (
    λ (evaluation', e', says).
        let same : evaluation' ≡ evaluation = ground (arith, e) in rw same at says,
    λ says. (evaluation, e, says),
  )

  module _ (p : Policy) (ps : List Policy) (result final : PermissionCheckResult)
      (evaluation : EvaluationResult)
      (e : evaluate_policy u unmarshal p.document pointer ≡ ok evaluation) where
    final_denied :
        equal_text evaluation.effect "deny" ≡ true
        → check_policies u unmarshal (p ∷ ps) pointer result ≡ ok final
        → final.allowed ≡ false
    unfolding check_policies
    final_denied d h = ground (arith, e)

    turn_allow :
        equal_text evaluation.effect "deny" ≡ false
        → equal_text evaluation.effect "allow" ≡ true
        → check_policies u unmarshal (p ∷ ps) pointer result ≡ ok final
        → check_policies u unmarshal ps pointer (record (listed u unmarshal p result) {
          allowed = true;
          decision = "allow";
          evaluation = some evaluation;
        })
          ≡ ok final
    unfolding check_policies
    turn_allow d a h = ground (arith, e)

    turn_none :
        equal_text evaluation.effect "deny" ≡ false
        → equal_text evaluation.effect "allow" ≡ false
        → check_policies u unmarshal (p ∷ ps) pointer result ≡ ok final
        → check_policies u unmarshal ps pointer (listed u unmarshal p result) ≡ ok final
    unfolding check_policies
    turn_none d a h = ground (arith, e)

  -- Where the loop over policies returns, the request is allowed exactly if no policy that can be
  -- evaluated denies it, and one allows it, or it was allowed before.
  pub check_policies_iff :
      (ps : List Policy) (result final : PermissionCheckResult)
      → check_policies u unmarshal ps pointer result ≡ ok final
      → (final.allowed ≡ true) ↔ (
          All (λ p. ¬ HasEffect "deny" p) ps
          × ((result.allowed ≡ true) ⊎ Any (HasEffect "allow") ps))
  unfolding check_policies
  check_policies_iff [] result final h = ground arith
  check_policies_iff (p ∷ ps) result final h =
      elim (Result-cases (evaluate_policy u unmarshal p.document pointer)) [
        | inr (panicked, e) ↦ absurd (ground (arith, e))
        | inr (invalid_policy, e) ↦
            let ih = check_policies_iff ps result final (ground (arith, e)) in
            let no_deny = unreadable p "deny" e in
            let no_allow = unreadable p "allow" e in ground (arith, ih, no_deny, no_allow)
        | inl (evaluation, e) ↦
            let denies = effect_iff p "deny" evaluation e in
            let allows = effect_iff p "allow" evaluation e in
            elim (Bool-cases (equal_text evaluation.effect "deny")) [
              | inl d ↦
                  let no = final_denied p ps result final evaluation e d h in
                  ground (arith, denies, no)
              | inr d ↦ elim (Bool-cases (equal_text evaluation.effect "allow")) [
                | inl a ↦
                    let ih =
                      check_policies_iff ps _ final
                        (turn_allow p ps result final evaluation e d a h) in
                    ground (arith, denies, allows, ih)
                | inr a ↦
                    let ih =
                      check_policies_iff ps _ final
                        (turn_none p ps result final evaluation e d a h) in
                    ground (arith, denies, allows, ih)
              ]
            ]
      ]

module _ (u : Unicode) (unmarshal : String → Option Fields)
    (get_principal_policies : (principal_id principal_type org_id : String)
      → Result String (List Policy)) where
  -- Where CheckPermission returns, it allows the request exactly if no readable policy of the
  -- principal denies the request's context and one allows it.
  pub check_permission_iff :
      (organization_id : String) (r : PermissionCheckRequest) (ps : List Policy)
      (result : PermissionCheckResult)
      → get_principal_policies r.principal_id r.principal_type
          (org_of u unmarshal get_principal_policies organization_id r)
        ≡ ok ps
      → check_permission u unmarshal get_principal_policies organization_id r ≡ ok result
      → (result.allowed ≡ true) ↔ (
          All (λ p. ¬ HasEffect u unmarshal r.context "deny" p) ps
          × Any (HasEffect u unmarshal r.context "allow") ps)
  unfolding check_permission
  check_permission_iff organization_id r ps result found h =
      let h' = rw (found, check_permission) at h in
      let law =
        check_policies_iff u unmarshal r.context ps (denied_at_first u unmarshal) result h' in
      ground (arith, law)

module _ (u : Unicode) (unmarshal : String → Option Fields) where
  -- Without a context, the first statement of the first readable policy makes a check panic.
  check_policies_nil_context :
      (p : Policy) (ps : List Policy) (fs : Fields) (v : Value) (vs : Values)
      (result : PermissionCheckResult)
      → unmarshal p.document ≡ some fs
      → entry "Statement" fs ≡ arr (cons v vs)
      → check_policies u unmarshal (p ∷ ps) none result ≡ err check_panicked
  unfolding check_policies evaluate_policy evaluate_statements statement_matches
  check_policies_nil_context p ps fs v vs result read statements =
      rw (read, evaluate_policy)
        (rw (statements, evaluate_policy)
          (rw (nil_context_panics u v (elems vs) (undecided u)) refl))

  -- A bulk check ends in a panic if its first request names no context and the principal's first
  -- policy has a statement.
  pub bulk_check_nil_context :
      (get_principal_policies : (principal_id principal_type org_id : String)
        → Result String (List Policy))
      (organization_id : String) (r : PermissionCheckRequest) (rs : List PermissionCheckRequest)
      (p : Policy) (ps : List Policy) (fs : Fields) (v : Value) (vs : Values)
      → r.context ≡ none
      → get_principal_policies r.principal_id r.principal_type
          (org_of u unmarshal get_principal_policies organization_id r)
        ≡ ok (p ∷ ps)
      → unmarshal p.document ≡ some fs
      → entry "Statement" fs ≡ arr (cons v vs)
      → bulk_check_permissions u unmarshal get_principal_policies organization_id (r ∷ rs)
        ≡ err check_panicked
  unfolding bulk_check_permissions check_permission
  bulk_check_nil_context get_principal_policies organization_id r rs p ps fs v vs nil found read
        statements =
      let panics =
        check_policies_nil_context p ps fs v vs (denied_at_first u unmarshal) read statements in
      ground (arith, panics)
