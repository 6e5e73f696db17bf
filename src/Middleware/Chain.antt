-- ===== src/Middleware/Chain.antt =====
-- The chains of internal/routes/routes.go: `RequireAuth`, `ResolveTenant`, and a guard.
use monkeys_identity.Base.{
  ℕ, Bool, true, String, some, str_eq, ◌≡◌, ◌≢◌, ◌⊎◌, inl, inr, refl, arith, eq_iff, Option-cases,
  not, ◌&&◌,
}
use monkeys_identity.Middleware.{
  TenantContext, Request, Outcome, next, reply, panic, Handler, ◌>>=◌,
}
use monkeys_identity.Middleware.Auth.{
  Jwt, AuthMiddleware, Claims, require_auth, with_claims, user_of,
}
use monkeys_identity.Middleware.Auth.Laws.{IsAuthenticated, require_auth-next}
use monkeys_identity.Middleware.Tenant.{
  resolve_tenant, require_org_admin, require_org_access, can_admin_org, can_access_org, for_org,
}

>>=-eq-next :
    (o : Outcome) (h : Handler) {r' : Request}
    → (o >>= h) ≡ next r'
    → (r : Request) × (o ≡ next r) × (h r ≡ next r')
>>=-eq-next (next r) h e = (r, refl, e)
>>=-eq-next (reply code message) h e = cc
>>=-eq-next panic h e = cc

-- A guard of one organization passes only for a tenant that it allows, and changes nothing.
for_org-next :
    (message : String) (allowed : TenantContext → String → Bool) (r r' : Request)
    → for_org message allowed r ≡ next r'
    → (tc : TenantContext) × (r.locals.tenant_context ≡ some tc)
      × (r.id ≢ "")
      × (allowed tc r.id ≡ true)
      × (r' ≡ r)
for_org-next message allowed r r' h = elim (Option-cases r.locals.tenant_context) [
  | inl missing ↦ let h' = rw missing at h in absurd (ground arith)
  | inr (tc, e) ↦
      let h' = rw e at h in (tc, e, ground (arith, eq_iff r.id ""), ground arith, ground arith)
]

require_org_access-next :
    (r r' : Request)
    → require_org_access r ≡ next r'
    → (tc : TenantContext) × (r.locals.tenant_context ≡ some tc)
      × (r.id ≢ "")
      × (can_access_org tc r.id ≡ true)
      × (r' ≡ r)
unfolding require_org_access
require_org_access-next r r' h = for_org-next _ can_access_org r r' h

require_org_admin-next :
    (r r' : Request)
    → require_org_admin r ≡ next r'
    → (tc : TenantContext) × (r.locals.tenant_context ≡ some tc)
      × (r.id ≢ "")
      × (can_admin_org tc r.id ≡ true)
      × (r' ≡ r)
unfolding require_org_admin
require_org_admin-next r r' h = for_org-next _ can_admin_org r r' h

module _ (jwt : Jwt) (am : AuthMiddleware) (sys : String) (now : ℕ) where
  -- `protected`: the handlers before every route that needs a tenant.
  unfoldable pub protected : Handler
  protected r = require_auth jwt am now r >>= resolve_tenant sys

  unfoldable pub org_admin_route : Handler
  unfolding protected
  org_admin_route r = protected r >>= require_org_admin

  unfoldable pub org_route : Handler
  unfolding protected
  org_route r = protected r >>= require_org_access

  -- The tenant that the claims of a verified token give.
  abbrev pub tenant_of : Claims → TenantContext
  tenant_of claims = record {
    user_id = user_of claims;
    email = claims.email;
    organization_id = claims.organization_id;
    role = claims.role;
    session_id = claims.jti;
    is_root = not (str_eq sys "") && str_eq claims.organization_id sys;
  }

  resolve_tenant-next :
      (claims : Claims) (r r' : Request)
      → resolve_tenant sys (with_claims claims r) ≡ next r'
      → (user_of claims ≢ "")
        × (claims.organization_id ≢ "")
        × (r'.id ≡ r.id)
        × (r'.locals.tenant_context ≡ some (tenant_of claims))
  unfolding resolve_tenant
  resolve_tenant-next claims r r' h =
      ground (arith, eq_iff (user_of claims) "", eq_iff claims.organization_id "")

  -- What the `protected` handlers have established for the next one.
  pub record IsProtected (r r' : Request) (claims : Claims) : Type 0 where
    pub known : Request
    pub authenticated : IsAuthenticated jwt am now r known claims
    pub has_user : user_of claims ≢ ""
    pub has_org : claims.organization_id ≢ ""
    pub same_id : r'.id ≡ r.id
    pub tenant : r'.locals.tenant_context ≡ some (tenant_of claims)

  -- A request passes RequireAuth and ResolveTenant only with a verified, unexpired token that is
  -- not known to be revoked, and the tenant that later handlers see is the one of its claims.
  pub protected-IsProtected :
      (r r' : Request) → protected r ≡ next r' → (claims : Claims) × IsProtected r r' claims
  unfolding protected
  protected-IsProtected r r' h =
      let (known, e, h') = >>=-eq-next (require_auth jwt am now r) (resolve_tenant sys) h in
      let (claims, a) = require_auth-next jwt am now r known e in
      let h'' = rw a.known_as at h' in
      let (user, org, same, tenant) = resolve_tenant-next claims r r' h'' in
      (
        claims,
        record {
          known = known;
          authenticated = a;
          has_user = user;
          has_org = org;
          same_id = same;
          tenant = tenant;
        },
      )

  -- The claims' organization is the system organization, and there is one.
  abbrev pub IsRoot : Claims → Type 0
  IsRoot claims = (sys ≢ "") × (claims.organization_id ≡ sys)

  can_access-tenant_of :
      (claims : Claims) (id : String)
      → can_access_org (tenant_of claims) id ≡ true
      → IsRoot claims ⊎ (claims.organization_id ≡ id)
  unfolding can_access_org
  can_access-tenant_of claims id h =
      ground
        (arith, eq_iff sys "", eq_iff claims.organization_id sys, eq_iff claims.organization_id id)

  can_admin-tenant_of :
      (claims : Claims) (id : String)
      → can_admin_org (tenant_of claims) id ≡ true
      → IsRoot claims
        ⊎ ((claims.organization_id ≡ id) × ((claims.role ≡ "admin") ⊎ (claims.role ≡ "org-admin")))
  unfolding can_admin_org
  can_admin-tenant_of claims id h = ground (
    arith,
    eq_iff sys "",
    eq_iff claims.organization_id sys,
    eq_iff claims.organization_id id,
    eq_iff claims.role "admin",
    eq_iff claims.role "org-admin",
  )

  -- A route of one organization lets a request through only if RequireAuth and ResolveTenant do,
  -- the route names an organization, and the claims' organization is that one or the system
  -- organization.
  pub org_route-next :
      (r r' : Request)
      → org_route r ≡ next r'
      → (claims : Claims) × IsProtected r r' claims
        × (r.id ≢ "")
        × (IsRoot claims ⊎ (claims.organization_id ≡ r.id))
  unfolding org_route
  org_route-next r r' h =
      let (r1, e, h') = >>=-eq-next (protected r) require_org_access h in
      let (claims, p) = protected-IsProtected r r1 e in
      let (tc, found, id, may, same) = require_org_access-next r1 r' h' in
      let here : tc ≡ tenant_of claims = ground (arith, p.tenant) in
      (
        claims,
        rw same p,
        rw (← p.same_id) id,
        rw p.same_id at (can_access-tenant_of claims r1.id (rw here at may)),
      )

  -- A route for the administrators of one organization lets a request through only if RequireAuth
  -- and ResolveTenant do, the route names an organization, and the claims' organization is the
  -- system organization, or it is that one and the claims' role is one of an administrator.
  pub org_admin_route-next :
      (r r' : Request)
      → org_admin_route r ≡ next r'
      → (claims : Claims) × IsProtected r r' claims
        × (r.id ≢ "")
        × (IsRoot claims
            ⊎ ((claims.organization_id ≡ r.id)
                × ((claims.role ≡ "admin") ⊎ (claims.role ≡ "org-admin"))))
  unfolding org_admin_route
  org_admin_route-next r r' h =
      let (r1, e, h') = >>=-eq-next (protected r) require_org_admin h in
      let (claims, p) = protected-IsProtected r r1 e in
      let (tc, found, id, may, same) = require_org_admin-next r1 r' h' in
      let here : tc ≡ tenant_of claims = ground (arith, p.tenant) in
      (
        claims,
        rw same p,
        rw (← p.same_id) id,
        rw p.same_id at (can_admin-tenant_of claims r1.id (rw here at may)),
      )
