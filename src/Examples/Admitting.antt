-- ===== src/Examples/Admitting.antt =====
-- Runs of internal/api/auth.go, internal/api/mfa.go and internal/auth/totp.go.
use duskrun.Base.{pos, ◌≡◌, refl, String, false, some, [], ◌∷◌, if◌then◌else◌, str_eq}
use duskrun.Model.{viewer, operator}
use duskrun.Access.{
  Session, User, policy_admins, Lookup, session_of, unknown_token, authorize, person,
}
use duskrun.Access.Guards.{Entitled, authorize_sound}
use duskrun.Access.SecondFactor.{
  Generator, Code, finish_login, finish_login-finish_login, verify_totp,
}

abbrev session : Session
session = record { id = 1; created_at = 0; last_seen_at = 0; expires_at = 1000 }

abbrev user : User
user = record { id = 4; role = operator; disabled = false; totp_enabled = false; passkeys = 0 }

abbrev lookup : String → Lookup
lookup t = if str_eq t "good" then session_of session user else unknown_token

authorize_sound_example :
    (s : Session) × (u : User) × (lookup "good" ≡ session_of s u)
    × Entitled 500 viewer false (some policy_admins) s u
unfolding authorize
authorize_sound_example =
    authorize_sound "static" 500 (some policy_admins) lookup viewer false "good" (person user false)
      refl refl

-- A secret that gives one code at every step.
abbrev code : Code
code = 49 ∷ 50 ∷ 51 ∷ 52 ∷ 53 ∷ 54 ∷ []

abbrev generate : Generator
generate step = some code

finish_login-finish_login_example :
    let (accepted, row) = finish_login generate code 3000 (some (pos 90)) (some (pos 90)) in
    (finish_login generate code 3010 (some (pos 90)) row).0 ≡ false
unfolding finish_login verify_totp
finish_login-finish_login_example =
    finish_login-finish_login generate code code 3000 3010 (pos 90) (pos 90) (pos 90) refl refl
