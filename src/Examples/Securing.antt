-- ===== src/Examples/Securing.antt =====
-- Runs of internal/api/handlers_mfa.go and internal/store/sqlite/mfa.go.
use duskrun.Base.{ℕ, ◌+◌, ◌≡◌, refl, pos, String, true, false, none, some, List, [], ◌∷◌, arith}
use duskrun.Model.{operator}
use duskrun.Access.{policy_all}
use duskrun.Users.{Account}
use duskrun.Factors.{PasskeyRow, CodeRow, FactorStore, count_recovery_codes, use_recovery_code}
use duskrun.Factors.Enrolment.{Password, totp_disable, passkey_delete, confirm_password}
use duskrun.Factors.Requests.{
  Request, disable_totp, remove_passkey, new_codes, redeem, loaded, serve_all,
}
use duskrun.Factors.Backed.{has_factor, Backed}
use duskrun.Factors.Served.{serve_all-Backed}
use duskrun.Factors.Required.{required_factor_kept}
use duskrun.Factors.Races.{stale_requests}
use duskrun.Factors.Spending.{use_all, use_all_spends}

abbrev eva : Account
eva = record {
  id = 7;
  email = "eva@example.org";
  name = "Eva";
  role = operator;
  password_hash = "h";
  last_login_at = none;
  disabled = false;
}

abbrev key_row : PasskeyRow
key_row = record {
  id = 3;
  user_id = 7;
  credential_id = "c";
  name = "Passkey";
  blob = "b";
  last_used_at = none;
}

abbrev code : ℕ → String → CodeRow
code i hash = record { id = i; user_id = 7; code_hash = hash; used_at = none }

-- One user with the app, a passkey and two codes.
abbrev store : FactorStore
store = record {
  accounts = record { users = eva ∷ []; sessions = [] };
  totp = record { user_id = 7; secret = "s"; key_id = "k"; last_step = pos 100 } ∷ [];
  passkeys = key_row ∷ [];
  codes = code 1 "x" ∷ code 2 "y" ∷ [];
}

abbrev right : Password
right = record { text = "pw"; admitted = true; verified = some true }

-- Switching off both factors takes the codes away.
abbrev requests : List (ℕ × Request)
requests =
    (7, redeem "x" 50)
    ∷ (7, disable_totp (some policy_all) right)
    ∷ (7, new_codes right (some ("z" ∷ [], "z" ∷ [])))
    ∷ (7, remove_passkey 3 none right)
    ∷ []

store-Backed : Backed store
store-Backed j h = ground (arith, h)

serve_all-Backed_example : Backed (serve_all requests store)
serve_all-Backed_example = serve_all-Backed requests store store-Backed

required_factor_kept_example :
    (has_factor 7 (totp_disable (loaded eva store) (some policy_all) right store).1 ≡ true)
    × (has_factor 7 (passkey_delete (loaded eva store) 3 (some policy_all) right store).1 ≡ true)
required_factor_kept_example =
    required_factor_kept eva 3 policy_all right store (refl, tt) refl refl

stale_requests_example :
    has_factor 7
      (passkey_delete
        (loaded eva store)
        3
        (some policy_all)
        right
        (totp_disable (loaded eva store) (some policy_all) right store).1).1
    ≡ false
unfolding confirm_password
stale_requests_example = stale_requests eva 3 (some policy_all) right store refl refl refl refl

-- The second use of a code is refused.
abbrev attempts : List (String × ℕ)
attempts = ("x", 50) ∷ ("x", 51) ∷ ("w", 52) ∷ []

attempts_run : (use_all 7 attempts store.codes).0 ≡ 1
unfolding use_recovery_code
attempts_run = refl

use_all_spends_example :
    (use_all 7 attempts store.codes).0 + count_recovery_codes 7 (use_all 7 attempts store.codes).1
    ≡ count_recovery_codes 7 store.codes
use_all_spends_example = use_all_spends 7 attempts store.codes (refl, (refl, tt))
