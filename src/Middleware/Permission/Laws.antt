-- ===== src/Middleware/Permission/Laws.antt =====
-- What `RequirePermission` has asked of the authorization service when it lets a request through.
use monkeys_identity.Base.{
  String, Option, some, Result, ok, err, Option-cases, ◌≡◌, ◌↔◌, inl, inr, arith, sym, ◌∙◌, List,
  [], ◌∷◌, ◌++◌, All, ◌≢◌, subst,
}
use monkeys_identity.Platform.{Unicode, Net}
use monkeys_identity.Authz.Evaluator.{PolicyDocument, Decision, allow, deny, not_applicable}
use monkeys_identity.Authz.Service.{Grants, AuthorizeError, authorize}
use monkeys_identity.Authz.Service.Laws.{IsAllowed, authorize_iff}
use monkeys_identity.Middleware.{Request, next}
use monkeys_identity.Middleware.Permission.Names.{
  IsSegment, path_of, resource_arn, resource_name-path_of,
}
use monkeys_identity.Middleware.Permission.{
  require_permission, resource_name, request_context, on_decision,
}

on_decision-next :
    (r : Request) (d : Result AuthorizeError Decision) → (on_decision r d ≡ next r) ↔ (d ≡ ok allow)
on_decision-next r (err e) = ground arith
on_decision-next r (ok allow) = ground arith
on_decision-next r (ok deny) = ground arith
on_decision-next r (ok not_applicable) = ground arith

module _ (u : Unicode) (n : Net) (unmarshal : String → Option PolicyDocument)
    (grants : String → String → Grants) where
  require_permission-known :
      (action : String) (r : Request) (user_id org_id : String)
      → r.locals.user_id ≡ some user_id
      → r.locals.organization_id ≡ some org_id
      → require_permission u n unmarshal grants action r
        ≡ on_decision r (
            authorize u n unmarshal
              (grants user_id org_id)
              action
              (resource_name org_id r)
              (request_context r))
  unfolding require_permission
  require_permission-known action r user_id org_id e e' = ground (arith, e, e')

  require_permission-callers :
      (action : String) (r : Request)
      → require_permission u n unmarshal grants action r ≡ next r
      → (user_id : String) × (org_id : String) × (r.locals.user_id ≡ some user_id)
        × (r.locals.organization_id ≡ some org_id)
  unfolding require_permission
  require_permission-callers action r h = elim (Option-cases r.locals.user_id) [
    | inl e ↦ absurd (ground (arith, e))
    | inr (user_id, e) ↦ elim (Option-cases r.locals.organization_id) [
      | inl e' ↦ absurd (ground (arith, e, e'))
      | inr (org_id, e') ↦ (user_id, org_id, e, e')
    ]
  ]

  require_permission_iff :
      (action : String) (r : Request)
      → (require_permission u n unmarshal grants action r ≡ next r) ↔ (
          (user_id : String) × (org_id : String) × (r.locals.user_id ≡ some user_id)
          × (r.locals.organization_id ≡ some org_id)
          × IsAllowed u action
              (resource_name org_id r)
              n
              unmarshal
              (request_context r)
              (grants user_id org_id))
  require_permission_iff action r = (
    λ h.
        let (user_id, org_id, e, e') = require_permission-callers action r h in
        (
          user_id,
          org_id,
          e,
          e',
          (authorize_iff u action (resource_name org_id r) n unmarshal (request_context r)
                (grants user_id org_id)).0
              ((on_decision-next r _).0
                (sym (require_permission-known action r user_id org_id e e') ∙ h)),
        ),
    λ (user_id, org_id, e, e', allowed).
        require_permission-known action r user_id org_id e e'
        ∙ (on_decision-next r _).1 (
            (authorize_iff u action (resource_name org_id r) n unmarshal (request_context r)
                (grants user_id org_id)).1
              allowed),
  )

  -- On a path of two segments or more, for a request with the parameter id, RequirePermission
  -- lets the request through exactly if it carries a user and an organization whose grants allow,
  -- in the context of the caller's address, the action on
  -- "arn:monkeys:resource:<organization>:<kind>/<id>", where the kind is the last segment but one
  -- of the path, whatever comes before and after it.
  pub require_permission-path_of :
      (action : String) (r : Request) (before : List String) (kind last : String)
      → r.id ≢ ""
      → All IsSegment (before ++ kind ∷ last ∷ [])
      → r.path ≡ path_of (before ++ kind ∷ last ∷ [])
      → (require_permission u n unmarshal grants action r ≡ next r) ↔ (
          (user_id : String) × (org_id : String) × (r.locals.user_id ≡ some user_id)
          × (r.locals.organization_id ≡ some org_id)
          × IsAllowed u action
              (resource_arn org_id kind r.id)
              n
              unmarshal
              (request_context r)
              (grants user_id org_id))
  require_permission-path_of action r before kind last named segments path =
      let allowed_on : String → String → String → Type 0 = λ user_id org_id name.
        IsAllowed u action name n unmarshal (request_context r) (grants user_id org_id) in
      let same =
        λ (org_id : String). resource_name-path_of org_id r before kind last named segments path in
      (
        λ h.
            let (user_id, org_id, e, e', allowed) = (require_permission_iff action r).0 h in
            (user_id, org_id, e, e', subst (allowed_on user_id org_id) (same org_id) allowed),
        λ (user_id, org_id, e, e', allowed).
            (require_permission_iff action r).1 (
              user_id,
              org_id,
              e,
              e',
              subst (allowed_on user_id org_id) (sym (same org_id)) allowed,
            ),
      )
