-- ===== src/Middleware/Tenant.antt =====
-- internal/middleware/tenant.go
use mathlib.Core.Option
use monkeys_identity.Base.{
  Bool, true, not, ◌&&◌, ◌||◌, String, List, [], ◌∷◌, Option, none, some, str_eq, any,
  if◌then◌else◌,
}
use monkeys_identity.Middleware.{TenantContext, Request, next, reply, Handler}

unfoldable pub internal_org_slugs : List String
internal_org_slugs = "system" ∷ "default" ∷ []

unfoldable pub is_internal_org : String → Bool
unfolding internal_org_slugs
is_internal_org slug = any (λ s. str_eq s slug) internal_org_slugs

unfoldable pub is_admin_role : TenantContext → Bool
is_admin_role tc = str_eq tc.role "admin" || str_eq tc.role "org-admin"

unfoldable pub can_access_org : TenantContext → String → Bool
can_access_org tc org_id = if tc.is_root then true else str_eq tc.organization_id org_id

unfoldable pub can_admin_org : TenantContext → String → Bool
unfolding is_admin_role
can_admin_org tc org_id =
    if tc.is_root then true else str_eq tc.organization_id org_id && is_admin_role tc

unfoldable pub org_filter : TenantContext → String
org_filter tc = if tc.is_root then "" else tc.organization_id

-- `value, _ := c.Locals(key).(string)`
abbrev pub text_or_empty : Option String → String
text_or_empty none = ""
text_or_empty (some s) = s

abbrev pub resolved : String → String → String → Request → TenantContext
resolved system_org_id user_id org_id r = record {
  user_id = user_id;
  email = text_or_empty r.locals.email;
  organization_id = org_id;
  role = text_or_empty r.locals.role;
  session_id = text_or_empty r.locals.session_id;
  is_root = not (str_eq system_org_id "") && str_eq org_id system_org_id;
}

-- The parameter is the system organization's id, resolved at startup; "" if there is none.
unfoldable pub resolve_tenant : String → Handler
resolve_tenant system_org_id r =
    let user_id = text_or_empty r.locals.user_id in
    let org_id = text_or_empty r.locals.organization_id in
    if str_eq user_id "" || str_eq org_id ""
    then reply 401 "Authentication context incomplete"
    else next (record r {
      locals = record (r.locals) {
        tenant_context = some (resolved system_org_id user_id org_id r);
      };
    })

-- The guards with a tenant: `RequireOrgAccess` and `RequireOrgAdmin` share their two first tests.
abbrev pub for_org : String → (TenantContext → String → Bool) → Handler
for_org message allowed r = elim r.locals.tenant_context [
  | none ↦ reply 401 "Tenant context not resolved"
  | some tc ↦
      if str_eq r.id ""
      then reply 400 "Organization ID is required"
      else if not (allowed tc r.id)
      then reply 403 message
      else next r
]

unfoldable pub require_org_access : Handler
unfolding can_access_org
require_org_access =
    for_org "Access denied: you do not have access to this organization" can_access_org

unfoldable pub require_org_admin : Handler
unfolding can_admin_org
require_org_admin =
    for_org "Access denied: admin privileges required for this organization" can_admin_org

unfoldable pub require_admin : Handler
unfolding is_admin_role
require_admin r = elim r.locals.tenant_context [
  | none ↦ reply 401 "Tenant context not resolved"
  | some tc ↦
      if not tc.is_root && not (is_admin_role tc)
      then reply 403 "Access denied: admin role required"
      else next r
]

unfoldable pub require_root : Handler
require_root r = elim r.locals.tenant_context [
  | none ↦ reply 401 "Tenant context not resolved"
  | some tc ↦ if not tc.is_root then reply 403 "Access denied: root privileges required" else next r
]

-- What a Redis client answers to a read: `none` without a client, else its value, "" on an error
-- or a miss.
abbrev cached_id : Option String → String
cached_id none = ""
cached_id (some value) = value

-- `ResolveSystemOrgID`: the id, and what is written to the cache. `row` is the database's answer,
-- `none` for an error or no row.
unfoldable pub resolve_system_org_id : Option String → Option String → String × Option String
resolve_system_org_id cache row =
    if not (str_eq (cached_id cache) "")
    then (cached_id cache, none)
    else elim row [ none ↦ ("", none) | some org_id ↦ (org_id, Option.map (λ _. org_id) cache) ]
