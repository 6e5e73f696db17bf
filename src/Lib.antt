-- ===== src/Lib.antt =====
-- monkeys-identity: an identity and access management service in Go. This library models the parts
-- that decide who may do what, and states what they decide.
--
-- The parts and the files that model them:
-- * Authz (internal/authz, internal/services/authz_service.go): the policy evaluator. Wildcard is
--   `MatchWildcard`, over the regular expressions of Wildcard/Regex; Conditions is `Evaluate` of
--   conditions.go over the JSON values of Value; Evaluator is `Evaluate` of evaluator.go; Service is
--   `Authorize`, which joins the policies, the resource permissions and the shares.
-- * Middleware (internal/middleware): the handlers that stand before every route. Auth is auth.go,
--   with Permission for `RequirePermission`, which asks the service of Authz (Permission/Names is how
--   it reads a path, over the parts of a text in Parts); Tenant is tenant.go;
--   Chain composes them as internal/routes/routes.go does for the routes of one organization; Cors
--   is cors.go with its cache of allowed origins.
-- * Oidc (internal/services/oidc_service.go, internal/queries/oidc_queries.go,
--   internal/handlers/oidc_handler.go): the OpenID Connect provider. Clients and Codes are the
--   tables with their queries, Exchange is the exchange of a code for tokens, Handlers the endpoints.
-- * Policies (internal/queries/policy_queries.go): the second evaluator, which /authz/bulk-check and
--   the simulation of policies use, and the validation of documents; Store is the tables of the
--   policies and their versions, Versions the arithmetic of a version.
-- * Sessions (internal/queries/session_queries.go): the table of sessions and its statements,
--   with the update and the lists in Lists.
-- * Accounts (internal/handlers/auth.go, internal/queries/auth.go): Users, Roles and Keys are the
--   statements on the tables and the one-time tokens in Redis; Tokens is `generateTokens`; Login is
--   `Login`, `LoginMFAVerify` and `RefreshToken`; Recovery is `Register`, `ForgotPassword`,
--   `ResetPassword`, `VerifyEmail` and `ResendVerification`; Mfa holds the handlers of the second
--   factor, Mfa/Reach the step relation over all of these; Logout is `Logout`, whose blacklist the
--   middleware reads; Admin is `CreateAdminUser` with its transaction.
-- * Content (internal/handlers/content_handler.go, internal/queries/content_queries.go): Items is the
--   statements on items and collaborators, Handlers and Collaborators the requests with their
--   per-item check of the role, Listing the pages, Slug the slug of a title; Reach is the step
--   relation over the requests.
-- * Directory (internal/queries/role.go, internal/queries/group_queries.go and the handlers of roles
--   and groups in internal/handlers/handlers.go): Roles and Groups are the statements, RoleHandlers
--   and GroupHandlers the requests; Grants is `getPrincipalPolicies`, the query that a permission
--   check of Policies runs on these tables.
-- * Redis (Redis.antt): the commands that these handlers call, as an interface; Redis/Table is a
--   value of it.
-- * Base and Platform: lists, results and maps, and the parts of Go's packages `strings` and `net`.
--
-- How the code corresponds. A function of Go keeps its name in snake case. A call that can fail
-- answers with a `Result` or an `Option`; a handler answers with an `Outcome`, an `Ending` or a
-- `Reply`, its status as a number or a constructor. A table is a list of its rows, and a statement
-- of SQL is a function on that list. Times are seconds, drawn outside of the model and given as arguments.
-- Text that only is compared is a `String`; text that is scanned is a list of code points.
--
-- Loops are recursion on the list that they range over, and the regular expressions run on their
-- own items, so that no fuel is needed. The printing of a number has fuel, of twenty digits, and a number of 64
-- bits has no more: `print_int_enough` of Policies/Versions says that more fuel prints the same. The
-- loop of a slug has as many rounds as the text has code points, and each round drops one. The parts of a version wrap around as Go's int does; the other numbers are times and
-- statuses, far below its bounds.
--
-- Parameters, for code that the repository does not hold: `Unicode` (simple case folding), `Net`
-- (package net), `Jwt` (the JWT library, with the law that the claims which it returns were verified
-- with the key that the key function chose), the records `Crypto` (bcrypt, the RSA signatures, the
-- check of a one-time code), `Signer` (signing and parsing of the tokens of a login; a parsed token
-- that was signed here has the claims that were signed), `Redis`, json.Unmarshal of a policy's text,
-- time.Parse, the texts that PostgreSQL reads as a UUID, how it prints a JSONB document, the order of a list, the drawn identifiers,
-- and which calls of Redis and the database fail.
--
-- Not modelled: the transport (Fiber, JSON bodies, cookies), logging, configuration and startup, the
-- audit trail, the copies of sessions in Redis, which are never read back,
-- `RegisterOrganization`, the lists and the simulation of policies, the handlers of users,
-- organizations, resources and sessions with their queries, the lists of roles and groups, and the web
-- interface under ui.
pub mod Base
pub mod Platform
pub mod Redis
pub mod Authz
pub mod Middleware
pub mod Oidc
pub mod Policies
pub mod Sessions
pub mod Accounts
pub mod Content
pub mod Directory
