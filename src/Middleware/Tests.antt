-- ===== src/Middleware/Tests.antt =====
-- Tests of the middleware, and the theorems at concrete inputs.
use monkeys_identity.Base.{
  ◌<◌, ◌+◌, ok, update_where, true, false, String, Text, text_eq, [], ◌∷◌, Option, none, some,
  str_eq, ◌≡◌, ◌≢◌, ◌↔◌, ◌⊎◌, inl, inr, refl, arith, if◌then◌else◌, Option-cases, All, eq_iff,
}
use monkeys_identity.Platform.{Net, ascii, equal_fold}
use monkeys_identity.Authz.Evaluator.{PolicyDocument, evaluate, matches, match_field}
use monkeys_identity.Authz.Value.{null, str}
use monkeys_identity.Authz.Wildcard.{match_wildcard}
use monkeys_identity.Authz.Service.{Grants, authorize}
use monkeys_identity.Authz.Service.Laws.{IsAllowed}
use monkeys_identity.Middleware.{Locals, Request, next, reply, panic}
use monkeys_identity.Middleware.Tenant.{
  is_internal_org, resolve_system_org_id, require_root, require_admin, resolve_tenant,
  require_org_access, require_org_admin,
}
use monkeys_identity.Middleware.Auth.{
  Method, hmac, Key, Claims, Jwt, AuthMiddleware, split, token_of, key_for, with_claims,
  require_auth, require_role, is_blacklisted,
}
use monkeys_identity.Middleware.Auth.Laws.{IsAuthenticated, require_auth-next}
use monkeys_identity.Middleware.Cors.{
  member, DynamicCors, OrganizationRow, parse_origins, handler, is_allowed_dynamic, refresh_cache,
  update_organization_origins,
}
use monkeys_identity.Middleware.Cors.Laws.{handler-refresh_cache}
use monkeys_identity.Middleware.Chain.{
  protected, org_route, org_admin_route, tenant_of, IsProtected, IsRoot, org_admin_route-next,
}
use monkeys_identity.Middleware.Permission.{require_permission, resource_name, request_context}
use monkeys_identity.Middleware.Permission.Names.{IsSegment, path_of, resource_arn}
use monkeys_identity.Middleware.Permission.Laws.{require_permission-path_of}

-- A stand-in for the JWT library: the text "t" is a token with the claims `claims` under the HMAC key.
module _ (claims : Claims) where
  abbrev read : Key → String → Option Claims
  read k token = if str_eq token "t" then some claims else none

  abbrev parse : (Method → Option Key) → String → Option Claims
  parse key_of token = elim (key_of hmac) [ none ↦ none | some k ↦ read k token ]

  parse_sound_lem :
      (key_of : Method → Option Key) (token : String) (c : Claims)
      → parse key_of token ≡ some c
      → (m : Method) × (k : Key) × (key_of m ≡ some k) × (read k token ≡ some c)
  parse_sound_lem key_of token c h = elim (Option-cases (key_of hmac)) [
    | inl e ↦ absurd (ground (arith, e))
    | inr (k, e) ↦ (hmac, k, e, ground (arith, e))
  ]

  abbrev jwt : Jwt
  jwt = record {
    parse_with_claims = parse;
    Verified = λ k token c. read k token ≡ some c;
    parse_sound = parse_sound_lem;
  }

abbrev claims : Claims
claims = record {
  user_id = "u";
  organization_id = "acme";
  email = "u@acme";
  role = "admin";
  jti = "s1";
  subject = "u";
  expires_at = some 100;
}

abbrev endless : Claims
endless = record claims { expires_at = none }

abbrev am : AuthMiddleware
am = record { jwt_secret = "k"; public_key = none; exists = λ key. some 0 }

abbrev revoking : AuthMiddleware
revoking = record am { exists = λ key. some 1 }

abbrev unknown : Locals
unknown = record {
  user_id = none;
  organization_id = none;
  email = none;
  role = none;
  session_id = none;
  tenant_context = none;
}

abbrev request : Request
request = record {
  authorization = "Bearer t";
  access_token = "";
  id = "acme";
  path = "/api/v1/organizations/acme";
  ip = "::1";
  locals = unknown;
}

abbrev known : Request
known = with_claims claims request

abbrev with_tenant : Request
with_tenant = record known {
  locals = record (known.locals) {
    tenant_context = some (tenant_of (jwt claims) am "sys" 50 claims);
  };
}

tenant_tests :
    (is_internal_org "system" ≡ true)
    × (is_internal_org "acme" ≡ false)
    × (resolve_system_org_id (some "") (some "sys") ≡ ("sys", some "sys"))
    × (resolve_system_org_id (some "sys") none ≡ ("sys", none))
    × (resolve_system_org_id none (some "sys") ≡ ("sys", none))
    × (require_root request ≡ reply 401 "Tenant context not resolved")
    × (require_admin with_tenant ≡ next with_tenant)
    × (require_role ("viewer" ∷ []) with_tenant ≡ reply 403 "Insufficient permissions")
unfolding is_internal_org resolve_system_org_id require_root require_admin require_role
tenant_tests = (refl, refl, refl, refl, refl, refl, refl, refl)

split_tests :
    (split b' ' "Bearer t" ≡ "Bearer" ∷ "t" ∷ [])
    × (token_of request ≡ "t")
    × (token_of (record request { authorization = "Basic t" }) ≡ "")
unfolding split token_of
split_tests = (refl, refl, refl)

require_auth_passes : require_auth (jwt claims) am 50 request ≡ next known
unfolding require_auth token_of key_for is_blacklisted
require_auth_passes = refl

protected_passes : protected (jwt claims) am "sys" 50 request ≡ next with_tenant
unfolding protected require_auth token_of key_for is_blacklisted resolve_tenant
protected_passes = refl

org_route_passes : org_route (jwt claims) am "sys" 50 request ≡ next with_tenant
unfolding org_route require_auth token_of key_for is_blacklisted resolve_tenant require_org_access
org_route_passes = refl

org_admin_route_passes : org_admin_route (jwt claims) am "sys" 50 request ≡ next with_tenant
unfolding org_admin_route require_auth token_of key_for is_blacklisted resolve_tenant
    require_org_admin
org_admin_route_passes = refl

has_token : token_of request ≢ ""
unfolding token_of
has_token e = cc

require_auth-next_example : (c : Claims) × IsAuthenticated (jwt claims) am 50 request known c
require_auth-next_example = require_auth-next (jwt claims) am 50 request known require_auth_passes

parse_endless : (jwt endless).parse_with_claims (key_for am) (token_of request) ≡ some endless
unfolding key_for token_of
parse_endless = refl

parse_revoked : (jwt claims).parse_with_claims (key_for revoking) (token_of request) ≡ some claims
unfolding key_for token_of
parse_revoked = refl

revoked : is_blacklisted revoking claims ≡ true
unfolding is_blacklisted
revoked = refl

org_admin_route-next_example :
    (c : Claims) × IsProtected (jwt claims) am "sys" 50 request with_tenant c
    × (request.id ≢ "")
    × (IsRoot (jwt claims) am "sys" 50 c
        ⊎ ((c.organization_id ≡ request.id) × ((c.role ≡ "admin") ⊎ (c.role ≡ "org-admin"))))
org_admin_route-next_example =
    org_admin_route-next (jwt claims) am "sys" 50 request with_tenant org_admin_route_passes

-- The service, with a document "all" that allows everything, and networks that hold one address.
abbrev singletons : Net
singletons = record {
  Address = Text;
  Network = Text;
  parse_ip = λ t. some t;
  parse_cidr = λ t. some t;
  contains_ip = λ n a. text_eq n a;
  equal_ip = λ a b. text_eq a b;
}

abbrev unmarshal : String → Option PolicyDocument
unmarshal text =
    if str_eq text "all"
    then some (record {
      version = "2012-10-17";
      statement =
          record {
            sid = "";
            effect = "Allow";
            action = str "*";
            resource = str "*";
            condition = null;
          }
          ∷ [];
    })
    else none

abbrev grants : String → String → Grants
grants user_id org_id = record {
  policies = some (if str_eq user_id "u" then "all" ∷ [] else []);
  permissions = some [];
  shares = some [];
}

permission_tests :
    (resource_name "acme" request ≡ "arn:monkeys:resource:acme:organizations/acme")
    × (require_permission ascii singletons unmarshal grants "org:Read" known ≡ next known)
    × (require_permission ascii singletons unmarshal grants "org:Read" request ≡ panic)
unfolding resource_name require_permission authorize evaluate matches match_field match_wildcard
    equal_fold
permission_tests = (refl, refl, refl)

-- Below a group the kind is the group's own id.
abbrev nested : Request
nested = record known { id = "g1"; path = "/groups/g1/members" }

nested_path : nested.path ≡ path_of ("groups" ∷ "g1" ∷ "members" ∷ [])
unfolding path_of
nested_path = refl

nested_segments : All IsSegment ("groups" ∷ "g1" ∷ "members" ∷ [])
nested_segments = (
  record { plain = refl; filled = λ e. ground (arith, eq_iff "groups" "") },
  (
    record { plain = refl; filled = λ e. ground (arith, eq_iff "g1" "") },
    (record { plain = refl; filled = λ e. ground (arith, eq_iff "members" "") }, tt),
  ),
)

nested_named : nested.id ≢ ""
nested_named e = ground (arith, eq_iff "g1" "")

require_permission-path_of_example :
    (require_permission ascii singletons unmarshal grants "org:Read" nested ≡ next nested) ↔ (
      (user_id : String) × (org_id : String) × (nested.locals.user_id ≡ some user_id)
      × (nested.locals.organization_id ≡ some org_id)
      × IsAllowed ascii "org:Read"
          (resource_arn org_id "g1" "g1")
          singletons
          unmarshal
          (request_context nested)
          (grants user_id org_id))
require_permission-path_of_example =
    require_permission-path_of ascii singletons unmarshal grants "org:Read" nested ("groups" ∷ [])
      "g1" "members" nested_named nested_segments nested_path

-- The cache of allowed origins.
abbrev acme_origins : OrganizationRow
acme_origins = record { id = "acme"; status = "active"; allowed_origins = none }

abbrev cors : DynamicCors
cors = record {
  static_origins = "https://own" ∷ [];
  allow_all = false;
  memory_cache = [];
  redis = record { members = []; expires_at = 0 };
}

abbrev allowing_app : DynamicCors → DynamicCors
allowing_app d = refresh_cache 10 (some ("https://app" ∷ [])) none d

cors_tests :
    (parse_origins ("https://own " ∷ "" ∷ " *" ∷ []) ≡ ("https://own" ∷ "*" ∷ [], true))
    × ((handler false 300 (allowing_app cors) "https://app" false).allow_origin
        ≡ some "https://app")
    × ((handler false 310 (allowing_app cors) "https://app" false).allow_origin ≡ none)
    × ((handler true 310 (allowing_app cors) "https://app" false).allow_origin ≡ some "https://app")
    × ((handler false 310 (allowing_app cors) "https://own" true).goes_on ≡ false)
unfolding parse_origins handler is_allowed_dynamic refresh_cache
cors_tests = (refl, refl, refl, refl, refl)

origin_named : ◌≢◌ {A = String} "https://app" ""
origin_named e = cc

handler-refresh_cache_example :
    ((handler false 310
        (refresh_cache 10 (some ("https://app" ∷ [])) none cors)
        "https://app"
        false).allow_origin
      ≡ some "https://app")
    ↔ ((member "https://app" (cors.static_origins) ≡ true)
        ⊎ ((310 < 10 + 300) × (member "https://app" ("https://app" ∷ []) ≡ true)))
handler-refresh_cache_example =
    handler-refresh_cache 10 310 ("https://app" ∷ []) cors "https://app" false origin_named refl

updated_origins :
    update_organization_origins false "acme" ("https://app" ∷ []) (acme_origins ∷ [])
    ≡ ok (record acme_origins { allowed_origins = some ("https://app" ∷ []) } ∷ [])
unfolding update_organization_origins update_where
updated_origins = refl
