-- ===== src/Sessions/Promise.antt =====
-- What the table of sessions promises: it is a map from tokens to grants, from which the ids of rows
-- are gone.
use duskrun.Base.{
  ℕ, ◌+◌, ◌*◌, ◌/◌, ◌-◌, String, Bool, true, false, ◌&&◌, not, Option, none, some, List, [], ◌∷◌,
  ◌==◌, ltb, leb, str_eq, if◌then◌else◌,
}
use duskrun.Model.{second}
use duskrun.Access.{User, touch_interval, slide_expiry, session_ttl}
use duskrun.Users.{SessionRow, drop_sessions}
use duskrun.Factors.Enrolment.{Password}
use duskrun.Sessions.{
  find_token, session_by_token, begin_session, delete_expired, after_lookup, logout,
  change_own_password,
}

-- What a token stands for.
pub record Grant : Type 0 where
  pub owner : ℕ
  pub created_at : ℕ
  pub last_seen_at : ℕ
  pub expires_at : ℕ

abbrev pub View : Type 0
View = String → Option Grant

abbrev pub grant_of : SessionRow → Grant
grant_of r = record {
  owner = r.user_id;
  created_at = r.created_at;
  last_seen_at = r.last_seen_at;
  expires_at = r.expires_at;
}

abbrev pub seen : Option SessionRow → Option Grant
seen none = none
seen (some r) = some (grant_of r)

abbrev pub view : List SessionRow → View
view rows token = seen (find_token token rows)

-- What happens to sessions: a login, a request with a token, a logout, a change of the password from a
-- session, the cleaning of expired ones, and the end of an account's access.
pub data SessionOp : Type 0 where
  begins : ℕ → ℕ → String → SessionOp
  presents : Bool → Bool → ℕ → String → SessionOp
  leaves : Bool → String → SessionOp
  changes_password : Bool → Password → Option String → String → SessionOp
  cleans : ℕ → SessionOp
  loses_access : ℕ → SessionOp

abbrev pub id_of : Option SessionRow → Option ℕ
id_of none = none
id_of (some r) = some r.id

abbrev pub changed :
    Bool → Password → Option String → List SessionRow → Option SessionRow → List SessionRow
changed is_valid old hash rows none = rows
changed is_valid old hash rows (some r) =
    (change_own_password r.user_id r.id is_valid old hash rows).1

-- The table after an operation.
unfoldable pub apply : (ℕ → Option User) → SessionOp → List SessionRow → List SessionRow
unfolding begin_session after_lookup session_by_token logout change_own_password delete_expired
apply owner (begins now i token) rows = begin_session now i token rows
apply owner (presents deletes touches now token) rows =
    after_lookup deletes touches now (session_by_token true owner rows token) rows
apply owner (leaves deletes token) rows = (logout deletes (id_of (find_token token rows)) rows).1
apply owner (changes_password is_valid old hash token) rows =
    changed is_valid old hash rows (find_token token rows)
apply owner (cleans now) rows = delete_expired now rows
apply owner (loses_access i) rows = drop_sessions (λ r. r.user_id == i) rows

unfoldable pub apply_all : (ℕ → Option User) → List SessionOp → List SessionRow → List SessionRow
unfolding apply
apply_all owner [] rows = rows
apply_all owner (op ∷ ops) rows = apply_all owner ops (apply owner op rows)

-- The promise of each operation, token by token.
abbrev pub held : (Grant → Bool) → Option Grant → Option Grant
held p none = none
held p (some g) = if p g then some g else none

abbrev pub of_others : ℕ → Option Grant → Option Grant
of_others i = held (λ g. not (g.owner == i))

abbrev pub fresh : ℕ → ℕ → Grant
fresh now i = record {
  owner = i;
  created_at = now / second;
  last_seen_at = now / second;
  expires_at = (now + session_ttl) / second;
}

abbrev pub or_fresh : ℕ → ℕ → Option Grant → Option Grant
or_fresh now i none = some (fresh now i)
or_fresh now i (some g) = some g

abbrev pub slid : ℕ → Grant → Grant
slid now g = record g {
  last_seen_at = now / second;
  expires_at = slide_expiry (g.created_at * second) now / second;
}

abbrev pub used : Bool → Bool → ℕ → Grant → Option User → Option Grant
used deletes touches now g none = some g
used deletes touches now g (some u) =
    if not (ltb now (g.expires_at * second))
    then (if deletes then none else some g)
    else if u.disabled
    then some g
    else if leb touch_interval (now - g.last_seen_at * second) && touches
    then some (slid now g)
    else some g

abbrev pub presented : (ℕ → Option User) → Bool → Bool → ℕ → Option Grant → Option Grant
presented owner deletes touches now none = none
presented owner deletes touches now (some g) = used deletes touches now g (owner g.owner)

abbrev pub is_right : Option Bool → Bool
is_right none = false
is_right (some b) = b

abbrev pub is_there : Option String → Bool
is_there none = false
is_there (some s) = true

-- A change of the password goes through.
abbrev pub accepted : Bool → Password → Option String → Bool
accepted is_valid old hash = is_valid && old.admitted && is_right old.verified && is_there hash

abbrev pub closed_others : Bool → String → View → Option Grant → View
closed_others goes_through token v none t = v t
closed_others goes_through token v (some g) t =
    if str_eq token t then v t else if goes_through then of_others g.owner (v t) else v t

unfoldable pub promise : (ℕ → Option User) → SessionOp → View → View
unfolding slide_expiry
promise owner (begins now i token) v t = if str_eq token t then or_fresh now i (v t) else v t
promise owner (presents deletes touches now token) v t =
    if str_eq token t then presented owner deletes touches now (v t) else v t
promise owner (leaves deletes token) v t = if str_eq token t && deletes then none else v t
promise owner (changes_password is_valid old hash token) v t =
    closed_others (accepted is_valid old hash) token v (v token) t
promise owner (cleans now) v t = held (λ g. not (leb g.expires_at (now / second))) (v t)
promise owner (loses_access i) v t = of_others i (v t)

unfoldable pub promise_all : (ℕ → Option User) → List SessionOp → View → View
unfolding promise
promise_all owner [] v = v
promise_all owner (op ∷ ops) v = promise_all owner ops (promise owner op v)
