-- ===== src/Middleware/Permission.antt =====
-- internal/middleware/auth.go: `RequirePermission`, over `Authorize` of the authorization service.
pub mod Names
pub mod Laws
use Prim.Native.Char.{code}
use Prim.Native.String
use monkeys_identity.Base.{
  Bool, ◌&&◌, String, List, [], ◌∷◌, Option, none, some, str_eq, ◌==◌, Result, ok, err,
  if◌then◌else◌,
}
use monkeys_identity.Platform.{Unicode, Net, trim}
use monkeys_identity.Authz.Value.{str}
use monkeys_identity.Authz.Conditions.{Context}
use monkeys_identity.Authz.Evaluator.{Decision, allow, PolicyDocument}
use monkeys_identity.Authz.Service.{Grants, AuthorizeError, authorize}
use monkeys_identity.Middleware.{Request, Outcome, next, reply, panic, Handler}
use monkeys_identity.Middleware.Auth.{split}

infixr 65 ◌+++◌
abbrev pub ◌+++◌ : String → String → String
s +++ t = String.◌++◌ s t

-- `pathParts[len(pathParts)-2]`, or "resource" where there are fewer than two parts
unfoldable pub resource_type : List String → String
resource_type [] = "resource"
resource_type (w ∷ []) = "resource"
resource_type (w ∷ x ∷ []) = w
resource_type (w ∷ x ∷ y ∷ ws) = resource_type (x ∷ y ∷ ws)

unfoldable pub resource_name : String → Request → String
unfolding trim resource_type split
resource_name org_id r =
    if str_eq r.id ""
    then "*"
    else "arn:monkeys:resource:"
      +++ org_id
      +++ ":"
      +++ resource_type (split b'/' (trim (λ c. c == b'/') r.path))
      +++ "/"
      +++ r.id

-- The only key of the context that conditions are evaluated in.
abbrev pub request_context : Request → Context
request_context r = ("ip", str r.ip) ∷ []

abbrev on_decision : Request → Result AuthorizeError Decision → Outcome
on_decision r (err e) = reply 500 "Authorization check failed"
on_decision r (ok allow) = next r
on_decision r (ok _) = reply 403 "Forbidden: Insufficient permissions"

-- `grants user org` is what the service's queries answer for a user of an organization. A missing
-- user or organization fails the type assertion.
module _ (u : Unicode) (n : Net) (unmarshal : String → Option PolicyDocument)
    (grants : String → String → Grants) where
  unfoldable pub require_permission : String → Handler
  require_permission action r = elim r.locals.user_id [
    | none ↦ panic
    | some user_id ↦ elim r.locals.organization_id [
      | none ↦ panic
      | some org_id ↦ on_decision r (
          authorize u n unmarshal (grants user_id org_id) action (resource_name org_id r)
            (request_context r))
    ]
  ]
