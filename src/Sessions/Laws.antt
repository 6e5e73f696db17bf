-- ===== src/Sessions/Laws.antt =====
-- What revocation, extension and the sweep of expired sessions do to later lookups.
use monkeys_identity.Base.{
  ℕ, ◌<◌, ◌≤◌, Bool, false, String, List, [], ◌∷◌, some, find, update_where, ok, err, ◌≡◌, ◌≢◌,
  refl, arith, inl, inr, eq_iff, Bool-cases, find-none, filter-none, find-untouched,
  find-update_where,
}
use monkeys_identity.Sessions.{
  Session, session_not_found, session_expired, session_of, active_of, revoked_at, revoke_session,
  get_session, extend_session, user_session, revoke_all_user_sessions, is_overdue, count_where,
  revoke_expired_sessions, counted, count_active_sessions,
}

-- A session that was revoked is not found by its id at any later lookup, which changes nothing,
-- and the sessions of other organizations are found as before.
pub revoke_session_ends :
    (w w' : Bool) (now t : ℕ) (id org_id other id' : String) (rows rows' : List Session)
    → revoke_session w now id org_id rows ≡ ok rows'
    → other ≢ org_id
    → (get_session false w' t id org_id rows' ≡ (err session_not_found, rows'))
      × (find (active_of id' other) rows' ≡ find (active_of id' other) rows)
unfolding revoke_session get_session
revoke_session_ends w w' now t id org_id other id' rows rows' h apart =
    let same : update_where (session_of id org_id) (revoked_at now) rows ≡ rows' = ground arith in
    let none_left =
      find-none (active_of id org_id) (session_of id org_id) (revoked_at now) (λ s e. ground arith)
        (λ s e. ground arith) rows in
    rw (← same) (
      rw none_left refl,
      find-untouched (active_of id' other) (session_of id org_id) (revoked_at now)
          (λ s e. ground (arith, eq_iff s.organization_id org_id, eq_iff s.organization_id other))
          (λ s e. ground arith) rows,
    )

-- After all sessions of a user in an organization were revoked, the count of the user's active
-- sessions is 0 at any time.
pub revoke_all_user_sessions_ends :
    (w : Bool) (now t : ℕ) (user_id org_id : String) (rows rows' : List Session)
    → revoke_all_user_sessions w now user_id org_id rows ≡ ok rows'
    → count_active_sessions false t org_id user_id "user" rows' ≡ ok 0
unfolding revoke_all_user_sessions count_active_sessions count_where
revoke_all_user_sessions_ends w now t user_id org_id rows rows' h =
    let same : update_where (user_session user_id org_id) (revoked_at now) rows ≡ rows' =
      ground arith in
    rw (← same) (
      rw
        (filter-none (counted t org_id user_id "user") (user_session user_id org_id)
          (revoked_at now) (λ s e. ground arith) (λ s e. ground arith) rows)
        refl)

abbrev expire : Session → Session
expire s = record s { status = "expired" }

-- A second sweep at the same time finds nothing to do.
sweep_again :
    (now : ℕ) (rows : List Session)
    → update_where (is_overdue now) expire (update_where (is_overdue now) expire rows)
      ≡ update_where (is_overdue now) expire rows
unfolding update_where
sweep_again now [] = refl
sweep_again now (s ∷ rows) = elim (Bool-cases (is_overdue now s)) [
  | inl e ↦ ground (arith, e, sweep_again now rows)
  | inr e ↦ ground (arith, e, sweep_again now rows)
]

-- After a sweep of the expired sessions, a second one at the same time finds none and changes
-- nothing.
pub revoke_expired_sessions_twice :
    (w : Bool) (now n : ℕ) (rows rows' : List Session)
    → revoke_expired_sessions w now rows ≡ ok (n, rows')
    → revoke_expired_sessions false now rows' ≡ ok (0, rows')
unfolding revoke_expired_sessions count_where
revoke_expired_sessions_twice w now n rows rows' h =
    let same : update_where (is_overdue now) expire rows ≡ rows' = ground arith in
    let empty =
      filter-none (is_overdue now) (is_overdue now) expire (λ s e. e) (λ s e. ground arith) rows in
    rw (← same) (rw (empty, sweep_again now rows) refl)

-- A session that has expired, and that a lookup would refuse, is found again up to the new expiry
-- after it was extended, if nothing looked it up before.
pub extend_session_revives :
    (w w' : Bool) (now t expires_at : ℕ) (id org_id : String) (s : Session)
    (rows rows' : List Session)
    → find (active_of id org_id) rows ≡ some s
    → s.expires_at < now
    → now ≤ t
    → t ≤ expires_at
    → extend_session w now id org_id expires_at rows ≡ ok rows'
    → ((get_session false w' now id org_id rows).0 ≡ err session_expired)
      × ((get_session false w' t id org_id rows').0
          ≡ ok (record s { expires_at = expires_at; last_used_at = now }))
unfolding extend_session get_session
extend_session_revives w w' now t expires_at id org_id s rows rows' found over later until h =
    let extended = λ (r : Session). record r { expires_at = expires_at; last_used_at = now } in
    let same : update_where (active_of id org_id) extended rows ≡ rows' = ground arith in
    let after = rw found at (find-update_where (active_of id org_id) extended (λ r. refl) rows) in
    (ground (arith, found), rw (← same) (ground (arith, after)))
