-- ===== src/Sessions/Lists.antt =====
-- `UpdateSession` and the lists of active sessions of internal/queries/session_queries.go. A list is
-- in the order of the table; the order by the last use is left out.
use monkeys_identity.Base.{
  ℕ, Bool, true, false, not, ◌&&◌, String, List, [], ◌∷◌, Option, none, some, str_eq, ltb, any, all,
  filter, update_where, Result, ok, err, if◌then◌else◌, ◌≡◌, refl, arith, Bool-cases, inl, inr,
}
use monkeys_identity.Sessions.{
  Session, SessionError, database_error, session_not_found, session_of, is_active, revoked_at,
  revoke_session,
}

-- the columns that an update writes
abbrev pub rewritten : Session → Session → Session
rewritten s row = record row {
  mfa_verified = s.mfa_verified;
  ip_address = s.ip_address;
  user_agent = s.user_agent;
  device_fingerprint = s.device_fingerprint;
  expires_at = s.expires_at;
  last_used_at = s.last_used_at;
  status = s.status;
}

unfoldable update_session :
    Bool → Session → (org_id : String) → List Session → Result SessionError (List Session)
update_session down s org_id rows =
    if down
    then err database_error
    else if any (session_of s.id org_id) rows
    then ok (update_where (session_of s.id org_id) (rewritten s) rows)
    else err session_not_found

abbrev listed : Bool → (Session → Bool) → List Session → Result SessionError (List Session)
listed down test rows = if down then err database_error else ok (filter test rows)

-- organization_id = $1 AND status = 'active' AND expires_at > NOW()
abbrev active_in : ℕ → String → Session → Bool
active_in now org_id s = str_eq s.organization_id org_id && is_active s && ltb now s.expires_at

unfoldable list_active_sessions :
    Bool → ℕ → (org_id : String) → List Session → Result SessionError (List Session)
unfolding filter
list_active_sessions down now org_id rows = listed down (active_in now org_id) rows

-- A column that is NULL equals nothing.
abbrev is_value : Option String → String → Bool
is_value none given = false
is_value (some value) given = str_eq value given

abbrev with_ip : (ip_address org_id : String) → Session → Bool
with_ip ip_address org_id s =
    is_value s.ip_address ip_address && str_eq s.organization_id org_id && is_active s

unfoldable get_sessions_by_ip :
    Bool → (ip_address org_id : String) → List Session → Result SessionError (List Session)
unfolding filter
get_sessions_by_ip down ip_address org_id rows = listed down (with_ip ip_address org_id) rows

abbrev with_fingerprint : (fingerprint org_id : String) → Session → Bool
with_fingerprint fingerprint org_id s =
    is_value s.device_fingerprint fingerprint && str_eq s.organization_id org_id && is_active s

unfoldable get_sessions_by_device_fingerprint :
    Bool → (fingerprint org_id : String) → List Session → Result SessionError (List Session)
unfolding filter
get_sessions_by_device_fingerprint down fingerprint org_id rows =
    listed down (with_fingerprint fingerprint org_id) rows

revoked_not_kept :
    (p : Session → Bool) (now : ℕ) (id org_id : String) (rows : List Session)
    → ((s : Session) → is_active s ≡ false → p s ≡ false)
    → all
        (λ s. not (session_of id org_id s))
        (filter p (update_where (session_of id org_id) (revoked_at now) rows))
      ≡ true
unfolding filter update_where
revoked_not_kept p now id org_id [] f = refl
revoked_not_kept p now id org_id (s ∷ rows) f = elim (Bool-cases (session_of id org_id s)) [
  | inl e ↦
      rw e (rw (f (revoked_at now s) (ground arith)) (revoked_not_kept p now id org_id rows f))
  | inr e ↦ rw e (ground (arith, e, revoked_not_kept p now id org_id rows f))
]

-- A session that was revoked is in no list of active sessions, by whatever the list is narrowed.
revoke_session-listed :
    (p : Session → Bool) (down : Bool) (now : ℕ) (id org_id : String) (rows rows' : List Session)
    → ((s : Session) → is_active s ≡ false → p s ≡ false)
    → revoke_session down now id org_id rows ≡ ok rows'
    → all (λ s. not (session_of id org_id s)) (filter p rows') ≡ true
unfolding revoke_session
revoke_session-listed p down now id org_id rows rows' f h =
    let same : update_where (session_of id org_id) (revoked_at now) rows ≡ rows' =
      ground (arith, h) in
    rw (← same) (revoked_not_kept p now id org_id rows f)
