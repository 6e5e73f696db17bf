-- ===== src/Accounts/Logout/Tests.antt =====
-- A logout at concrete inputs.
use monkeys_identity.Base.{
  false, String, [], Option, none, some, ◌≡◌, ◌≢◌, refl, arith, eq_iff, Option-cases, inl, inr,
}
use monkeys_identity.Redis.Table.{table}
use monkeys_identity.Middleware.{Request, reply}
use monkeys_identity.Middleware.Auth.{
  Method, hmac, Key, Claims, Jwt, AuthMiddleware, token_of, key_for, require_auth, split,
}
use monkeys_identity.Accounts.{World, Call}
use monkeys_identity.Accounts.Tokens.{MapClaims, Signer}
use monkeys_identity.Accounts.Logout.{bearer_token, logout, reading, cut_prefix}
use monkeys_identity.Accounts.Logout.Laws.{logout_ends}

-- Every token carries the id "s1" and ends at 100.
abbrev carried : MapClaims
carried = record {
  iss = none;
  sub = none;
  jti = some "s1";
  user_id = some "u1";
  email = none;
  organization_id = some "acme";
  role = none;
  exp = some 100;
  iat = none;
  typ = some "access";
}

abbrev sg : Signer
sg = record {
  sign = λ claims. none;
  parse = λ secret t token. none;
  parse_unverified = λ token. some carried;
  parse_signed = λ claims claims' secret token t signed parsed. ground arith;
}

abbrev claims : Claims
claims = record {
  user_id = "u1";
  organization_id = "acme";
  email = "ann@a";
  role = "user";
  jti = "s1";
  subject = "u1";
  expires_at = some 100;
}

-- Whatever key is picked for HMAC.
parse_sound_lem :
    (key_of : Method → Option Key) (token : String) (c : Claims)
    → ◌≡◌ {A = Option Claims} (elim (key_of hmac) [ none ↦ none | some k ↦ some claims ]) (some c)
    → (m : Method) × (k : Key) × (key_of m ≡ some k) × Unit {0}
parse_sound_lem key_of token c h = elim (Option-cases (key_of hmac)) [
  | inl e ↦ absurd (ground (arith, e))
  | inr (k, e) ↦ (hmac, k, e, tt)
]

abbrev jwt : Jwt
jwt = record {
  parse_with_claims = λ key_of token. elim (key_of hmac) [ none ↦ none | some k ↦ some claims ];
  Verified = λ k token c. Unit;
  parse_sound = parse_sound_lem;
}

abbrev am : AuthMiddleware
am = record { jwt_secret = "k"; public_key = none; exists = λ key. some 0 }

abbrev call : Call
call = record {
  now = 5;
  ip = "::1";
  user_agent = "curl";
  authorization = "Bearer t";
  user_id = some "u1";
  organization_id = some "acme";
  token = "m";
  access_id = "a1";
  refresh_id = "r1";
  faults = record {
    read_user = false;
    write_user = false;
    read_role = false;
    read_session = false;
    write_session = false;
    redis_get = false;
    redis_set = false;
    redis_del = false;
    redis_keys = false;
    mail = false;
  };
}

abbrev world : World table
world = record {
  users = [];
  roles = [];
  role_assignments = [];
  sessions = [];
  redis = [];
  outbox = [];
}

abbrev request : Request
request = record {
  authorization = "Bearer t";
  access_token = "";
  id = "acme";
  path = "/api/v1/auth/me";
  ip = "::1";
  locals = record {
    user_id = none;
    organization_id = none;
    email = none;
    role = none;
    session_id = none;
    tenant_context = none;
  };
}

same_token : token_of request ≡ bearer_token "Bearer t"
unfolding token_of bearer_token split cut_prefix
same_token = refl

agree :
    (c : Claims)
    → jwt.parse_with_claims (key_for am) (bearer_token "Bearer t") ≡ some c
    → (c.jti ≡ "s1") × (c.expires_at ≡ some 100)
unfolding key_for
agree c e = ground (arith, e)

given : ◌≢◌ {A = String} "Bearer t" ""
given e = ground (arith, eq_iff "Bearer t" "")

named : ◌≢◌ {A = String} "s1" ""
named e = ground (arith, eq_iff "s1" "")

logout_ends_example :
    (message : String) × (require_auth jwt
        (reading table am false 60 (logout table sg call world).1.redis)
        60
        request
      ≡ reply 401 message)
logout_ends_example =
    logout_ends table sg jwt am call world false 60 100 "u1" "acme" "s1" carried request refl refl
      given same_token refl refl refl agree named refl refl (ground arith) (ground arith)
