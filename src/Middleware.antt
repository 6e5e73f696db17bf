-- ===== src/Middleware.antt =====
-- internal/middleware: what a request carries from one handler of its chain to the next, and the
-- ways in which a handler ends.
pub mod Tenant
pub mod Auth
pub mod Parts
pub mod Chain
pub mod Permission
pub mod Cors
mod Tests
use monkeys_identity.Base.{Bool, ℕ, String, Option}

-- `TenantContext` of tenant.go.
pub record TenantContext : Type 0 where
  pub user_id : String
  pub email : String
  pub organization_id : String
  pub role : String
  pub session_id : String
  pub is_root : Bool

-- `c.Locals`, by key; `none` is a key that is not set.
pub record Locals : Type 0 where
  pub user_id : Option String
  pub organization_id : Option String
  pub email : Option String
  pub role : Option String
  pub session_id : Option String
  pub tenant_context : Option TenantContext

-- The parts of `fiber.Ctx` that the middleware reads. An empty text is a header, cookie or route
-- parameter that is not there.
pub record Request : Type 0 where
  pub authorization : String
  pub access_token : String
  pub id : String
  pub path : String
  pub ip : String
  pub locals : Locals

-- A handler calls the next one, answers with a status and a message, or panics.
pub data Outcome : Type 0 where
  next : Request → Outcome
  reply : ℕ → String → Outcome
  panic : Outcome

abbrev pub Handler : Type 0
Handler = Request → Outcome

-- The next handler of the chain runs if this one called it.
infixl 5 ◌>>=◌
abbrev pub ◌>>=◌ : Outcome → Handler → Outcome
next r >>= h = h r
reply code message >>= h = reply code message
panic >>= h = panic
