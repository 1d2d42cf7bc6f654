-- ===== src/Access.antt =====
-- Who may reach a handler: authenticate, resolveSession, slideExpiry and guard of
-- internal/api/auth.go, and policyCovers of internal/api/mfa.go. Times and durations count
-- nanoseconds. A role is one of the three of the permission matrix, or none of them.
pub mod Guards
pub mod Pending
pub mod Throttle
pub mod SecondFactor
use duskrun.Base.{
  ℕ, ◌+◌, ◌*◌, ◌-◌, String, Bool, true, false, ◌&&◌, ◌||◌, not, Option, none, some, ltb, leb,
  str_eq, if◌then◌else◌,
}
use duskrun.Model.{Role, admin, at_least, hour, minute}

-- sessionTTL, sessionMaxAge and touchInterval
abbrev pub session_ttl : ℕ
session_ttl = 720 * hour

abbrev pub session_max_age : ℕ
session_max_age = 2160 * hour

abbrev pub touch_interval : ℕ
touch_interval = minute

pub record Session : Type 0 where
  pub id : ℕ
  pub created_at : ℕ
  pub last_seen_at : ℕ
  pub expires_at : ℕ

pub record User : Type 0 where
  pub id : ℕ
  pub role : Role
  pub disabled : Bool
  pub totp_enabled : Bool
  pub passkeys : ℕ

-- `principal`; the fields of a person are one option.
pub record Principal : Type 0 where
  pub role : Role
  pub user : Option User
  pub enroll_required : Bool

-- Setting mfa_required; any other stored value reads as off.
pub data MfaPolicy : Type 0 where
  policy_off policy_admins policy_all : MfaPolicy

abbrev pub is_admin : Role → Bool
is_admin admin = true
is_admin _ = false

-- `policyCovers`
abbrev pub policy_covers : MfaPolicy → Role → Bool
policy_covers policy_all role = true
policy_covers policy_admins role = is_admin role
policy_covers policy_off role = false

-- `User.MFAEnabled`
abbrev pub mfa_enabled : User → Bool
mfa_enabled u = u.totp_enabled || ltb 0 u.passkeys

-- `slideExpiry`
unfoldable pub slide_expiry : ℕ → ℕ → ℕ
slide_expiry created now =
    if ltb (created + session_max_age) (now + session_ttl)
    then created + session_max_age
    else now + session_ttl

-- How the lookup of a token ends: it is unknown, the store fails, or it has a session with its owner.
pub data Lookup : Type 0 where
  unknown_token : Lookup
  lookup_failed : Lookup
  session_of : Session → User → Lookup

pub data Resolution : Type 0 where
  no_session : Resolution
  store_failed : Resolution
  resolved : Principal → Resolution

abbrev pub person : User → Bool → Principal
person u enroll_required = record {
  role = u.role;
  user = some u;
  enroll_required = enroll_required;
}

-- The principal of a user who has a second factor or not; the policy is read (`none` for an error)
-- only where there is none.
abbrev pub principal_with : Option MfaPolicy → User → Bool → Resolution
principal_with policy u true = resolved (person u false)
principal_with none u false = store_failed
principal_with (some p) u false = resolved (person u (policy_covers p u.role))

-- `resolveSession`
unfoldable pub resolve_session : ℕ → Option MfaPolicy → Lookup → Resolution
resolve_session now policy unknown_token = no_session
resolve_session now policy lookup_failed = store_failed
resolve_session now policy (session_of s u) =
    if not (ltb now s.expires_at)
    then no_session
    else if u.disabled
    then no_session
    else principal_with policy u (mfa_enabled u)

-- The session after `TouchSession`, which a request makes once in a while and which may fail.
unfoldable pub touch : Bool → ℕ → Session → Session
unfolding slide_expiry
touch succeeds now s =
    if leb touch_interval (now - s.last_seen_at) && succeeds
    then record s { last_seen_at = now; expires_at = slide_expiry s.created_at now }
    else s

-- The session's row after a request with its token: an expired one is deleted (a failure to delete is
-- ignored), the one of a disabled account stays, any other is touched.
unfoldable pub row_after : Bool → Bool → ℕ → Session → User → Option Session
unfolding touch
row_after deletes touches now s u =
    if not (ltb now s.expires_at)
    then (if deletes then none else some s)
    else if u.disabled
    then some s
    else some (touch touches now s)

-- The answer to a request.
pub data Response : Type 0 where
  unauthorized : Response
  forbidden : Response
  unavailable : Response
  handled_for : Principal → Response

abbrev pub static_principal : Principal
static_principal = record { role = admin; user = none; enroll_required = false }

-- `guard`, for a route that demands a role and may be open during enrolment.
abbrev pub guard : Role → Bool → Principal → Response
guard want enroll_ok p =
    if p.enroll_required && not enroll_ok
    then forbidden
    else if at_least p.role want
    then handled_for p
    else forbidden

abbrev pub guard_resolved : Role → Bool → Resolution → Response
guard_resolved want enroll_ok no_session = unauthorized
guard_resolved want enroll_ok store_failed = unavailable
guard_resolved want enroll_ok (resolved p) = guard want enroll_ok p

-- `authenticate` before `guard`, for a bearer token ("" where there is none) and the static token
-- ("" where none is configured).
unfoldable pub authorize :
    String → ℕ → Option MfaPolicy → (String → Lookup) → Role → Bool → String → Response
unfolding resolve_session at_least
authorize static now policy lookup want enroll_ok token =
    if str_eq token ""
    then unauthorized
    else if not (str_eq static "") && str_eq token static
    then guard want enroll_ok static_principal
    else guard_resolved want enroll_ok (resolve_session now policy (lookup token))
