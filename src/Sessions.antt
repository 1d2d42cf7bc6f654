-- ===== src/Sessions.antt =====
-- The sessions of people: internal/store/sqlite/session.go over the table session, what
-- resolveSession of internal/api/auth.go does to it, and logout, changeOwnPassword and deleteSession
-- of internal/api/handlers_auth.go. `owner` gives the account of an id with its factors.
pub mod Rows
pub mod Writes
pub mod Promise
pub mod Views
pub mod Steps
pub mod Uses
pub mod Refinement
pub mod Ownership
pub mod Opening
use duskrun.Base.{
  ℕ, ◌*◌, ◌/◌, ◌-◌, String, Bool, true, false, ◌&&◌, not, Option, none, some, List, [], ◌∷◌, ◌++◌,
  ◌==◌, ltb, leb, str_eq, if◌then◌else◌, any, select,
}
use duskrun.Model.{second, admin, at_least}
use duskrun.Access.{
  Session, User, Principal, Lookup, unknown_token, lookup_failed, session_of, touch_interval,
  slide_expiry,
}
use duskrun.Users.{SessionRow, drop_sessions}
use duskrun.Factors.Enrolment.{
  Reply, status_ok, bad_request, forbidden, missing, internal, busy, Password,
}
use duskrun.Login.{new_session, has_token}

-- The row of a token.
abbrev pub find_token : String → List SessionRow → Option SessionRow
find_token token [] = none
find_token token (r ∷ rows) = if str_eq r.token_hash token then some r else find_token token rows

-- `scanSession`: columns count seconds.
abbrev pub scanned : SessionRow → Session
scanned r = record {
  id = r.id;
  created_at = r.created_at * second;
  last_seen_at = r.last_seen_at * second;
  expires_at = r.expires_at * second;
}

abbrev pub joined : SessionRow → Option User → Lookup
joined r none = unknown_token
joined r (some u) = session_of (scanned r) u

abbrev pub with_owner : (ℕ → Option User) → Option SessionRow → Lookup
with_owner owner none = unknown_token
with_owner owner (some r) = joined r (owner r.user_id)

-- `SessionByToken`, which may fail.
unfoldable pub session_by_token : Bool → (ℕ → Option User) → List SessionRow → String → Lookup
session_by_token reads owner rows token =
    if reads then with_owner owner (find_token token rows) else lookup_failed

-- `GetSession`
abbrev pub get_session : ℕ → List SessionRow → Option SessionRow
get_session i [] = none
get_session i (r ∷ rows) = if r.id == i then some r else get_session i rows

-- `CreateSession`: nothing is stored where the token is there.
unfoldable pub begin_session : ℕ → ℕ → String → List SessionRow → List SessionRow
begin_session now i token rows =
    if has_token token rows then rows else rows ++ new_session now i token rows ∷ []

-- `DeleteSession`, with whether there was a row.
unfoldable pub delete_session : ℕ → List SessionRow → Bool × List SessionRow
delete_session i rows = (any (λ r. r.id == i) rows, select (λ r. not (r.id == i)) rows)

-- `TouchSession`
abbrev pub touched_row : ℕ → ℕ → ℕ → SessionRow → SessionRow
touched_row i seen expires r =
    if r.id == i then record r { last_seen_at = seen; expires_at = expires } else r

unfoldable pub touch_session : ℕ → ℕ → ℕ → List SessionRow → List SessionRow
touch_session i seen expires [] = []
touch_session i seen expires (r ∷ rows) =
    touched_row i seen expires r ∷ touch_session i seen expires rows

-- `DeleteExpiredSessions`
unfoldable pub delete_expired : ℕ → List SessionRow → List SessionRow
delete_expired now = select (λ r. not (leb r.expires_at (now / second)))

-- The table after `resolveSession` for what the lookup found; a deletion or an update may fail.
unfoldable pub after_lookup : Bool → Bool → ℕ → Lookup → List SessionRow → List SessionRow
unfolding delete_session touch_session slide_expiry
after_lookup deletes touches now unknown_token rows = rows
after_lookup deletes touches now lookup_failed rows = rows
after_lookup deletes touches now (session_of s u) rows =
    if not (ltb now s.expires_at)
    then (if deletes then (delete_session s.id rows).1 else rows)
    else if u.disabled
    then rows
    else if leb touch_interval (now - s.last_seen_at) && touches
    then touch_session s.id (now / second) (slide_expiry s.created_at now / second) rows
    else rows

-- `logout`, for the id of the caller's session if it has one; a missing row is no error.
unfoldable pub logout : Bool → Option ℕ → List SessionRow → Reply × List SessionRow
unfolding delete_session
logout deletes none rows = (status_ok none, rows)
logout deletes (some i) rows =
    if deletes then (status_ok none, (delete_session i rows).1) else (internal, rows)

abbrev pub user_id : Principal → ℕ
user_id p = elim p.user [ none ↦ 0 | some u ↦ u.id ]

abbrev pub end_found :
    Principal → Bool → List SessionRow → Option SessionRow → Reply × List SessionRow
end_found p deletes rows none = (missing, rows)
end_found p deletes rows (some r) =
    if not (at_least p.role admin) && not (r.user_id == user_id p)
    then (forbidden, rows)
    else if deletes
    then (status_ok none, (delete_session r.id rows).1)
    else (internal, rows)

-- `deleteSession` (the handler)
unfoldable pub end_session : Principal → Bool → ℕ → List SessionRow → Reply × List SessionRow
unfolding delete_session at_least
end_session p deletes i rows = end_found p deletes rows (get_session i rows)

-- The other sessions of a user, which `SetUserPassword` deletes.
abbrev pub is_other : ℕ → ℕ → SessionRow → Bool
is_other i keep r = r.user_id == i && not (r.id == keep)

abbrev store_hash : ℕ → ℕ → List SessionRow → Option String → Reply × List SessionRow
store_hash i keep rows none = (internal, rows)
store_hash i keep rows (some hash) = (status_ok none, drop_sessions (is_other i keep) rows)

abbrev pub old_verified :
    ℕ → ℕ → Option String → List SessionRow → Option Bool → Reply × List SessionRow
old_verified i keep hash rows none = (internal, rows)
old_verified i keep hash rows (some false) = (forbidden, rows)
old_verified i keep hash rows (some true) = store_hash i keep rows hash

-- `changeOwnPassword` of a user from the session with the id `keep`: whether the new password is valid,
-- the old one with what the library says, and the new hash. Its effect on app_user is that of
-- set_user_password.
-- The statements of SetUserPassword work and the user has a row.
unfoldable pub change_own_password :
    ℕ → ℕ → Bool → Password → Option String → List SessionRow → Reply × List SessionRow
change_own_password i keep is_valid old hash rows =
    if not is_valid
    then (bad_request, rows)
    else if not old.admitted
    then (busy, rows)
    else old_verified i keep hash rows old.verified
