-- ===== src/Sessions/Tests.antt =====
-- Tests of the sessions, and the theorems at concrete inputs.
use monkeys_identity.Base.{
  false, String, List, [], ◌∷◌, none, some, find, filter, update_where, ok, err, ◌≡◌, ◌≢◌, refl,
  arith, eq_iff,
}
use monkeys_identity.Sessions.{
  Session, session_not_found, session_expired, active_of, revoke_session, get_session,
  get_session_by_token, revoke_all_user_sessions, revoke_expired_sessions, extend_session,
  count_where,
}
use monkeys_identity.Sessions.Laws.{revoke_session_ends}

abbrev session : String → String → Session
session id org_id = record {
  id = id;
  session_token = id;
  principal_id = "u1";
  principal_type = "user";
  organization_id = org_id;
  mfa_verified = false;
  ip_address = none;
  user_agent = none;
  device_fingerprint = none;
  issued_at = 0;
  expires_at = 10;
  last_used_at = 0;
  status = "active";
}

abbrev rows : List Session
rows = session "s1" "acme" ∷ session "s2" "other" ∷ []

abbrev revoked : List Session
revoked =
    record (session "s1" "acme") { status = "revoked"; last_used_at = 5 }
    ∷ session "s2" "other"
    ∷ []

abbrev expired : List Session
expired =
    record (session "s1" "acme") { status = "expired" }
    ∷ record (session "s2" "other") { status = "expired" }
    ∷ []

abbrev extended : Session
extended = record (session "s1" "acme") { expires_at = 50; last_used_at = 20 }

-- An expired session is revoked by the lookup by its token.
lookup_revokes : get_session_by_token false false 20 "s1" "acme" rows ≡ (
  err session_expired,
  record (session "s1" "acme") { status = "revoked"; last_used_at = 20 }
      ∷ session "s2" "other"
      ∷ [],
)
unfolding get_session_by_token revoke_session find update_where
lookup_revokes = refl

revokes : revoke_session false 5 "s1" "acme" rows ≡ ok revoked
unfolding revoke_session update_where
revokes = refl

apart : ◌≢◌ {A = String} "other" "acme"
apart e = ground (arith, eq_iff "other" "acme")

revoke_session_ends_example :
    (get_session false false 6 "s1" "acme" revoked ≡ (err session_not_found, revoked))
    × (find (active_of "s2" "other") revoked ≡ find (active_of "s2" "other") rows)
revoke_session_ends_example =
    revoke_session_ends false false 5 6 "s1" "acme" "other" "s2" rows revoked revokes apart

revokes_all : revoke_all_user_sessions false 5 "u1" "acme" rows ≡ ok revoked
unfolding revoke_all_user_sessions update_where
revokes_all = refl

sweeps : revoke_expired_sessions false 20 rows ≡ ok (2, expired)
unfolding revoke_expired_sessions count_where filter update_where
sweeps = refl

finds : find (active_of "s1" "acme") rows ≡ some (session "s1" "acme")
unfolding find
finds = refl

extends : extend_session false 20 "s1" "acme" 50 rows ≡ ok (extended ∷ session "s2" "other" ∷ [])
unfolding extend_session update_where
extends = refl
