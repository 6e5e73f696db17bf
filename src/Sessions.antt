-- ===== src/Sessions.antt =====
-- internal/queries/session_queries.go: the table of sessions. What the queries put into Redis is
-- never read back: `getCachedSession` always is an error.
pub mod Laws
mod Lists
mod Tests
use monkeys_identity.Base.{
  ℕ, ◌+◌, ◌-◌, Bool, true, false, not, ◌&&◌, ◌||◌, String, List, [], ◌∷◌, Option, none, some,
  str_eq, ltb, leb, any, all, find, update_where, length, filter, Result, ok, err, ◌>>=◌, ◌>>◌,
  ensure, if◌then◌else◌,
}

-- models.Session without the columns that no query reads or tests.
pub record Session : Type 0 where
  pub id : String
  pub session_token : String
  pub principal_id : String
  pub principal_type : String
  pub organization_id : String
  pub mfa_verified : Bool
  pub ip_address : Option String
  pub user_agent : Option String
  pub device_fingerprint : Option String
  pub issued_at : ℕ
  pub expires_at : ℕ
  pub last_used_at : ℕ
  pub status : String

pub data SessionError : Type 0 where
  database_error session_not_found session_expired : SessionError

abbrev pub is_active : Session → Bool
is_active s = str_eq s.status "active"

-- WHERE id = $1 AND organization_id = $2
abbrev pub session_of : String → String → Session → Bool
session_of id org_id s = str_eq s.id id && str_eq s.organization_id org_id

-- WHERE session_token = $1 AND organization_id = $2 AND status = 'active'
abbrev pub token_of : String → String → Session → Bool
token_of token org_id s =
    str_eq s.session_token token && str_eq s.organization_id org_id && is_active s

abbrev pub active_of : String → String → Session → Bool
active_of id org_id s = session_of id org_id s && is_active s

abbrev pub revoked_at : ℕ → Session → Session
revoked_at now s = record s { status = "revoked"; last_used_at = now }

-- `down` is an error of the database, be it a broken constraint.
unfoldable pub create_session : Bool → Session → List Session → Result SessionError (List Session)
create_session down s rows = if down then err database_error else ok (s ∷ rows)

unfoldable pub revoke_session :
    Bool → ℕ → (id org_id : String) → List Session → Result SessionError (List Session)
revoke_session down now id org_id rows =
    if down
    then err database_error
    else if any (session_of id org_id) rows
    then ok (update_where (session_of id org_id) (revoked_at now) rows)
    else err session_not_found

-- the rows after a call whose error is dropped
abbrev pub or_same : List Session → Result SessionError (List Session) → List Session
or_same rows (ok rows') = rows'
or_same rows (err e) = rows

-- What was found, unless it has expired: then it is revoked. `write` is a failure of that revocation.
abbrev unless_expired :
    Bool → ℕ → String → List Session → Option Session → Result SessionError Session × List Session
unless_expired write now org_id rows none = (err session_not_found, rows)
unless_expired write now org_id rows (some s) =
    if ltb s.expires_at now
    then (err session_expired, or_same rows (revoke_session write now s.id org_id rows))
    else (ok s, rows)

unfoldable pub get_session :
    (read write : Bool)
    → ℕ
    → (id org_id : String) → List Session
    → Result SessionError Session × List Session
unfolding revoke_session
get_session read write now id org_id rows =
    if read
    then (err database_error, rows)
    else unless_expired write now org_id rows (find (active_of id org_id) rows)

unfoldable pub get_session_by_token :
    (read write : Bool)
    → ℕ
    → (token org_id : String) → List Session
    → Result SessionError Session × List Session
unfolding revoke_session
get_session_by_token read write now token org_id rows =
    if read
    then (err database_error, rows)
    else unless_expired write now org_id rows (find (token_of token org_id) rows)

unfoldable pub delete_session :
    Bool → (id org_id : String) → List Session → Result SessionError (List Session)
delete_session down id org_id rows =
    if down
    then err database_error
    else if any (session_of id org_id) rows
    then ok (filter (λ s. not (session_of id org_id s)) rows)
    else err session_not_found

-- The new expiry is not bounded, and an expired session that is still "active" is extended too.
unfoldable pub extend_session :
    Bool
    → ℕ
    → (id org_id : String) → (expires_at : ℕ) → List Session
    → Result SessionError (List Session)
extend_session down now id org_id expires_at rows =
    if down
    then err database_error
    else if any (active_of id org_id) rows
    then ok (
        update_where (active_of id org_id)
          (λ s. record s { expires_at = expires_at; last_used_at = now }) rows)
    else err session_not_found

abbrev pub user_session : String → String → Session → Bool
user_session user_id org_id s =
    str_eq s.principal_id user_id
    && str_eq s.principal_type "user"
    && str_eq s.organization_id org_id
    && is_active s

unfoldable pub revoke_all_user_sessions :
    Bool → ℕ → (user_id org_id : String) → List Session → Result SessionError (List Session)
revoke_all_user_sessions down now user_id org_id rows =
    if down
    then err database_error
    else ok (update_where (user_session user_id org_id) (revoked_at now) rows)

abbrev pub is_overdue : ℕ → Session → Bool
is_overdue now s = ltb s.expires_at now && is_active s

unfoldable pub count_where {ℓ} : {A : Type ℓ} → (A → Bool) → List A → ℕ
count_where p rows = length (filter p rows)

-- the number of rows, and the rows
unfoldable pub revoke_expired_sessions :
    Bool → ℕ → List Session → Result SessionError (ℕ × List Session)
unfolding count_where
revoke_expired_sessions down now rows =
    if down
    then err database_error
    else ok (
      count_where (is_overdue now) rows,
      update_where (is_overdue now) (λ s. record s { status = "expired" }) rows,
    )

unfoldable pub update_last_used :
    Bool → ℕ → (id org_id : String) → List Session → Result SessionError (List Session)
update_last_used down now id org_id rows =
    if down
    then err database_error
    else ok (update_where (active_of id org_id) (λ s. record s { last_used_at = now }) rows)

abbrev pub counted : ℕ → (org_id principal_id principal_type : String) → Session → Bool
counted now org_id principal_id principal_type s =
    str_eq s.principal_id principal_id
    && str_eq s.principal_type principal_type
    && str_eq s.organization_id org_id
    && is_active s
    && ltb now s.expires_at

unfoldable pub count_active_sessions :
    Bool → ℕ → (org_id principal_id principal_type : String) → List Session → Result SessionError ℕ
unfolding count_where
count_active_sessions down now org_id principal_id principal_type rows =
    if down
    then err database_error
    else ok (count_where (counted now org_id principal_id principal_type) rows)
