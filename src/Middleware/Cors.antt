-- ===== src/Middleware/Cors.antt =====
-- internal/middleware/cors.go. Redis is the set of allowed origins with the time at which it
-- expires; times are seconds.
pub mod Laws
use monkeys_identity.Platform.{trim, is_space}
use monkeys_identity.Middleware.Auth.{split}
use monkeys_identity.Base.{
  ℕ, ◌+◌, Bool, true, false, not, ◌&&◌, ◌||◌, String, List, [], ◌∷◌, ◌++◌, Option, none, some,
  str_eq, ltb, any, Result, ok, err, if◌then◌else◌, find, update_where,
}

-- Membership in a map[string]bool, or in a set of Redis.
abbrev pub member : String → List String → Bool
member origin origins = any (λ o. str_eq o origin) origins

-- A key of Redis that holds a set; an empty one is a key that is not there.
pub record OriginSet : Type 0 where
  pub members : List String
  pub expires_at : ℕ

-- The state of `DynamicCORS`, with what it keeps in Redis.
pub record DynamicCors : Type 0 where
  pub static_origins : List String
  pub allow_all : Bool
  pub memory_cache : List String
  pub redis : OriginSet

-- the loop of `NewDynamicCORS` over the configured origins
unfoldable pub parse_origins : List String → List String × Bool
unfolding trim is_space
parse_origins [] = ([], false)
parse_origins (part ∷ parts) =
    let rest = parse_origins parts in
    let o = trim is_space part in if str_eq o "" then rest else (o ∷ rest.0, str_eq o "*" || rest.1)

-- The first refresh, which runs beside the first requests, is a step of its own.
unfoldable pub new_dynamic_cors : String → OriginSet → DynamicCors
unfolding parse_origins split
new_dynamic_cors configured redis = record {
  static_origins = (parse_origins (split b',' configured)).0;
  allow_all = (parse_origins (split b',' configured)).1;
  memory_cache = [];
  redis = redis;
}

-- What a response carries: the origin in its headers, if any, and whether the chain goes on or the
-- answer is an empty one to a preflight request.
pub record CorsAnswer : Type 0 where
  pub allow_origin : Option String
  pub goes_on : Bool

-- SISMEMBER at a time; an expired key has no members.
abbrev pub is_member : ℕ → OriginSet → String → Bool
is_member now set origin = ltb now set.expires_at && member origin set.members

-- `down` is an error of Redis.
unfoldable pub is_allowed_dynamic : Bool → ℕ → DynamicCors → String → Bool
is_allowed_dynamic down now d origin =
    if down then member origin d.memory_cache else is_member now d.redis origin

abbrev pub answer : Option String → Bool → CorsAnswer
answer origin options = record { allow_origin = origin; goes_on = not options }

unfoldable pub handler : Bool → ℕ → DynamicCors → (origin : String) (options : Bool) → CorsAnswer
unfolding is_allowed_dynamic
handler down now d origin options =
    if str_eq origin ""
    then answer none false
    else if d.allow_all
    then answer (some "*") options
    else if member origin d.static_origins
    then answer (some origin) options
    else if is_allowed_dynamic down now d origin
    then answer (some origin) options
    else answer none options

-- A row of `organizations`.
pub record OrganizationRow : Type 0 where
  pub id : String
  pub status : String
  pub allowed_origins : Option (List String)

abbrev pub origins_of : OrganizationRow → List String
origins_of row =
    if str_eq row.status "deleted"
    then []
    else elim row.allowed_origins [ none ↦ [] | some os ↦ os ]

-- The origins of all organizations that are not deleted, as a set.
unfoldable pub load_origins_from_db : List OrganizationRow → List String
load_origins_from_db [] = []
load_origins_from_db (row ∷ rows) = origins_of row ++ load_origins_from_db rows

-- `corsCacheTTL`
abbrev pub cors_cache_ttl : ℕ
cors_cache_ttl = 300

-- `loaded` is what the database answers, `none` an error. `left` is what a failed pipeline leaves of
-- the key, `none` a pipeline that succeeds.
unfoldable pub refresh_cache :
    ℕ → Option (List String) → Option OriginSet → DynamicCors → DynamicCors
refresh_cache now none left d = d
refresh_cache now (some origins) left d = record d {
  redis = elim left [
    | none ↦ record { members = d.static_origins ++ origins; expires_at = now + cors_cache_ttl }
    | some set ↦ set
  ];
  memory_cache = d.static_origins ++ origins;
}

-- WHERE id = $1 AND status != 'deleted'
abbrev pub active_with : String → OrganizationRow → Bool
active_with id row = str_eq row.id id && not (str_eq row.status "deleted")

pub data CorsError : Type 0 where
  organization_not_found query_failed : CorsError

-- `UpdateOrganizationOrigins` on the rows; a success is followed by a refresh. `down` is an error of
-- the database.
unfoldable pub update_organization_origins :
    Bool → String → List String → List OrganizationRow → Result CorsError (List OrganizationRow)
update_organization_origins down id origins rows =
    if down
    then err query_failed
    else if any (active_with id) rows
    then ok
        (update_where (active_with id) (λ row. record row { allowed_origins = some origins }) rows)
    else err organization_not_found

unfoldable pub get_organization_origins :
    Bool → String → List OrganizationRow → Result CorsError (List String)
get_organization_origins down id rows =
    if down then err query_failed else (elim (find (active_with id) rows) [
      | none ↦ err organization_not_found
      | some row ↦ elim row.allowed_origins [ none ↦ ok [] | some origins ↦ ok origins ]
    ])
