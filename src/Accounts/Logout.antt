-- ===== src/Accounts/Logout.antt =====
-- `Logout` of internal/handlers/auth.go.
pub mod Laws
mod Tests
use Prim.Native.String
use Prim.Native.Char.{Char, code}
use monkeys_identity.Base.{
  ℕ, ◌-◌, Bool, true, false, not, ◌&&◌, String, List, [], ◌∷◌, Option, none, some, str_eq, ltb,
  ◌==◌, Result, ok, err, if◌then◌else◌,
}
use monkeys_identity.Redis.{Redis}
use monkeys_identity.Middleware.Auth.{AuthMiddleware}
use monkeys_identity.Sessions.{Session, get_session_by_token, revoke_session, or_same}
use monkeys_identity.Accounts.{World, Faults, Call, Reply, refused, answered, panicked}
use monkeys_identity.Accounts.Tokens.{MapClaims, Signer}

-- What is left of a text after a prefix; `none` where it does not start with it.
unfoldable pub cut_prefix : String → String → Option String
cut_prefix String.[] s = some s
cut_prefix (String.◌∷◌ c p) String.[] = none
cut_prefix (String.◌∷◌ c p) (String.◌∷◌ d s) =
    let rest = cut_prefix p s in if code c == code d then rest else none

-- Without the scheme, if something comes after it.
unfoldable pub bearer_token : String → String
unfolding cut_prefix
bearer_token header = elim (cut_prefix "Bearer " header) [
  | none ↦ header
  | some token ↦ if str_eq token "" then header else token
]

abbrev pub blacklist_key : String → String
blacklist_key jti = String.◌++◌ "blacklist:" jti

abbrev pub exp_of : MapClaims → ℕ
exp_of claims = elim claims.exp [ none ↦ 0 | some exp ↦ exp ]

-- The middleware, with Redis as it stands at a time, or with a Redis that cannot be read.
abbrev pub reading : (rd : Redis) → AuthMiddleware → (down : Bool) → ℕ → rd.Store → AuthMiddleware
reading rd am down t store = record am {
  exists = λ key. if down then none else some (elim (rd.get t key store) [ none ↦ 0 | some v ↦ 1 ]);
}

module _ (rd : Redis) (sg : Signer) where
  -- A session that is found by the token is revoked; the errors are dropped.
  abbrev pub revoke_token : Call → (token org_id : String) → List Session → List Session
  revoke_token call token org_id rows =
      let (found, rows') =
        get_session_by_token call.faults.read_session call.faults.write_session call.now token
          org_id rows in
      elim found [
        | err e ↦ rows'
        | ok s ↦ or_same rows' (revoke_session call.faults.write_session call.now s.id org_id rows')
      ]

  unfoldable pub delete_session_key : Call → (token : String) → rd.Store → rd.Store
  delete_session_key call token store =
      if call.faults.redis_del then store else rd.del (String.◌++◌ "session:" token) store

  -- The id of the token is kept until the token expires. exp - now on integers is positive exactly
  -- when exp is later.
  abbrev pub blacklist_id : Call → rd.Store → (exp : ℕ) → Option String → rd.Store
  blacklist_id call store exp none = store
  blacklist_id call store exp (some jti) =
      if ltb call.now exp && not call.faults.redis_set
      then rd.set call.now (blacklist_key jti) "revoked" (exp - call.now) store
      else store

  abbrev pub blacklist_claims : Call → rd.Store → Option MapClaims → rd.Store
  blacklist_claims call store none = store
  blacklist_claims call store (some claims) = blacklist_id call store (exp_of claims) claims.jti

  unfoldable pub blacklist : Call → (token : String) → rd.Store → rd.Store
  blacklist call token store = blacklist_claims call store (sg.parse_unverified token)

  unfoldable pub logout : Call → World rd → Reply String × World rd
  unfolding bearer_token get_session_by_token revoke_session delete_session_key blacklist
  logout call w = elim call.user_id [
    | none ↦ (refused 401 "Invalid session", w)
    | some user_id ↦
        if str_eq call.authorization ""
        then (refused 401 "No authorization token provided", w)
        else elim call.organization_id [
          | none ↦ (panicked, w)
          | some org_id ↦
              let token = bearer_token call.authorization in
              (
                answered "Successfully logged out",
                record w {
                  sessions = revoke_token call token org_id w.sessions;
                  redis = blacklist call token (delete_session_key call token w.redis);
                },
              )
        ]
  ]
