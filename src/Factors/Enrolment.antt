-- ===== src/Factors/Enrolment.antt =====
-- The self-service of second factors and the reset by an admin (internal/api/handlers_mfa.go). What
-- the libraries and the other stores answer comes with each request; `u` is the caller's account as
-- `authenticate` loaded it. A reply is the status that is written.
use duskrun.Base.{
  ℕ, ℤ, pos, ◌-ℤ◌, ltb_ℤ, String, Bool, true, false, not, Option, none, some, List, ◌==◌, str_eq,
  if◌then◌else◌,
}
use duskrun.Model.{Role}
use duskrun.Access.{User, MfaPolicy, policy_covers, mfa_enabled}
use duskrun.Factors.{
  FactorStore, Answer, done, refused, FactorError, not_found, duplicate_passkey, no_owner, put_totp,
  delete_totp, add_passkey, delete_passkey, replace_recovery_codes, reset_user_mfa,
}

pub data Reply : Type 0 where
  status_ok : Option (List String) → Reply
  bad_request forbidden missing conflict internal busy : Reply

-- The password of a request, whether a place for its hashing is free, and what `Verify` says.
pub record Password : Type 0 where
  pub text : String
  pub admitted : Bool
  pub verified : Option Bool

abbrev after_verify : Option Bool → Option Reply
after_verify none = some internal
after_verify (some false) = some forbidden
after_verify (some true) = none

-- `confirmPassword`: the failure that is written, if any.
unfoldable pub confirm_password : Password → Option Reply
confirm_password p =
    if str_eq p.text ""
    then some bad_request
    else if not p.admitted
    then some busy
    else after_verify p.verified

abbrev guard_policy : Option MfaPolicy → Role → Option Reply
guard_policy none role = some internal
guard_policy (some p) role = if policy_covers p role then some conflict else none

-- `lastFactorGuard`, for the policy that is read (`none` for an error).
unfoldable pub last_factor_guard : Option MfaPolicy → Role → ℤ → Option Reply
last_factor_guard policy role remaining =
    if ltb_ℤ (pos 0) remaining then none else guard_policy policy role

-- The handlers' `if !check { return }`.
abbrev pub unless {ℓ} : {S : Type ℓ} → Option Reply → Reply × S → S → Reply × S
unless none go s = go
unless (some r) go s = (r, s)

-- `storeErrStatus`
abbrev error_reply : FactorError → Reply
error_reply not_found = missing
error_reply duplicate_passkey = internal
error_reply no_owner = internal

abbrev pub answered : Option (List String) → Answer (Unit {0}) × FactorStore → Reply × FactorStore
answered codes (done tt, s) = (status_ok codes, s)
answered codes (refused e, s) = (error_reply e, s)

-- `firstFactorCodes`: the codes and their hashes, if there are any; `fresh` is what NewRecoveryCodes
-- gives (`none` for an error).
abbrev pub CodeSet : Type 0
CodeSet = Option (List String) × Option (List String)

unfoldable pub first_factor_codes : User → Option (List String × List String) → Option CodeSet
first_factor_codes u fresh =
    if mfa_enabled u
    then some (none, none)
    else elim fresh [ none ↦ none | some (codes, hashes) ↦ some (some codes, some hashes) ]

-- `totpConfirm` after the code was verified at a step.
unfoldable pub store_totp :
    User → ℤ → Option (String × String) → Option CodeSet → FactorStore → Reply × FactorStore
unfolding put_totp
store_totp u step none codes s = (internal, s)
store_totp u step (some sealed) none s = (internal, s)
store_totp u step (some (cipher, key)) (some (codes, hashes)) s =
    answered codes (
      put_totp (record { user_id = u.id; secret = cipher; key_id = key; last_step = step }) hashes
        s)

-- `totpConfirm`: whether a set-up is pending, the step at which its secret verifies the code, and what
-- `Seal` and NewRecoveryCodes answer. The pending set-up goes exactly with a stored secret.
unfoldable pub totp_confirm :
    User
    → Bool
    → Option ℤ
    → Option (String × String)
    → Option (List String × List String)
    → FactorStore
    → Reply × FactorStore
unfolding store_totp first_factor_codes
totp_confirm u false step sealed fresh s = (conflict, s)
totp_confirm u true none sealed fresh s = (bad_request, s)
totp_confirm u true (some step) sealed fresh s =
    store_totp u step sealed (first_factor_codes u fresh) s

-- `totpDisable`
unfoldable pub totp_disable : User → Option MfaPolicy → Password → FactorStore → Reply × FactorStore
unfolding last_factor_guard confirm_password delete_totp
totp_disable u policy p s =
    if not u.totp_enabled
    then (conflict, s)
    else unless (last_factor_guard policy u.role (pos u.passkeys))
        (unless (confirm_password p) (answered none (delete_totp u.id s)) s) s

-- What the WebAuthn library makes of a registration: it is not parsed, an error, not verified, or a
-- credential's id with its record.
pub data Registration : Type 0 where
  malformed load_failed unverified unencoded : Registration
  registered : String → String → Registration

abbrev pub register_answered : Option (List String) → Answer ℕ × FactorStore → Reply × FactorStore
register_answered codes (done id, s) = (status_ok codes, s)
register_answered codes (refused duplicate_passkey, s) = (conflict, s)
register_answered codes (refused not_found, s) = (internal, s)
register_answered codes (refused no_owner, s) = (internal, s)

unfoldable pub store_passkey :
    User → String → String → String → Option CodeSet → FactorStore → Reply × FactorStore
unfolding add_passkey
store_passkey u name credential blob none s = (internal, s)
store_passkey u name credential blob (some (codes, hashes)) s =
    register_answered codes (add_passkey u.id credential name blob hashes s)

-- `passkeyRegister`, for the pending enrolment's name (`none` where nothing is pending).
unfoldable pub passkey_register :
    User
    → Option String
    → Registration
    → Option (List String × List String)
    → FactorStore
    → Reply × FactorStore
unfolding store_passkey first_factor_codes
passkey_register u none reg fresh s = (conflict, s)
passkey_register u (some name) malformed fresh s = (bad_request, s)
passkey_register u (some name) load_failed fresh s = (internal, s)
passkey_register u (some name) unverified fresh s = (bad_request, s)
passkey_register u (some name) unencoded fresh s = (internal, s)
passkey_register u (some name) (registered credential blob) fresh s =
    store_passkey u name credential blob (first_factor_codes u fresh) s

-- The factors that are left when a passkey goes.
abbrev pub remaining_without : User → ℤ
remaining_without u = if u.totp_enabled then pos u.passkeys else pos u.passkeys -ℤ pos 1

-- `passkeyDelete`
unfoldable pub passkey_delete :
    User → ℕ → Option MfaPolicy → Password → FactorStore → Reply × FactorStore
unfolding last_factor_guard confirm_password delete_passkey ◌-ℤ◌
passkey_delete u id policy p s =
    unless (last_factor_guard policy u.role (remaining_without u))
      (unless (confirm_password p) (answered none (delete_passkey u.id id s)) s) s

unfoldable pub regenerate :
    User → Option (List String × List String) → FactorStore → Reply × FactorStore
unfolding replace_recovery_codes
regenerate u none s = (internal, s)
regenerate u (some (codes, hashes)) s = answered (some codes) (replace_recovery_codes u.id hashes s)

-- `regenerateRecoveryCodes`
unfoldable pub regenerate_recovery_codes :
    User → Password → Option (List String × List String) → FactorStore → Reply × FactorStore
unfolding regenerate confirm_password
regenerate_recovery_codes u p fresh s =
    if not (mfa_enabled u)
    then (conflict, s)
    else unless (confirm_password p) (regenerate u fresh s) s

-- `resetUserMFA` (the handler) by another admin; `caller` is none for the static token.
unfoldable pub reset_by_admin : Option ℕ → ℕ → FactorStore → Reply × FactorStore
unfolding reset_user_mfa
reset_by_admin none id s = answered none (reset_user_mfa id s)
reset_by_admin (some caller) id s =
    if caller == id then (conflict, s) else answered none (reset_user_mfa id s)
