-- ===== src/Factors/Requests.antt =====
-- Requests about second factors as a client sends them, each with the answers of the libraries. The
-- caller's account is loaded by `authenticate` when a request comes in (internal/api/auth.go and
-- internal/store/sqlite/user.go).
use duskrun.Base.{ℕ, ℤ, String, Bool, Option, none, some, List, [], ◌∷◌, length}
use duskrun.Access.{User, MfaPolicy}
use duskrun.Users.{Account, get_user}
use duskrun.Factors.{FactorStore, has_totp, list_passkeys, use_recovery_code}
use duskrun.Factors.Enrolment.{
  Password, Registration, totp_confirm, totp_disable, passkey_register, passkey_delete,
  regenerate_recovery_codes, reset_by_admin,
}

-- What NewRecoveryCodes answers.
abbrev pub Fresh : Type 0
Fresh = Option (List String × List String)

pub data Request : Type 0 where
  confirm_totp : Bool → Option ℤ → Option (String × String) → Fresh → Request
  disable_totp : Option MfaPolicy → Password → Request
  register_passkey : Option String → Registration → Fresh → Request
  remove_passkey : ℕ → Option MfaPolicy → Password → Request
  new_codes : Password → Fresh → Request
  redeem : String → ℕ → Request
  reset_other : ℕ → Request

-- The account with its factors, as the columns of the query count them.
abbrev pub loaded : Account → FactorStore → User
loaded a s = record {
  id = a.id;
  role = a.role;
  disabled = a.disabled;
  totp_enabled = has_totp a.id s;
  passkeys = length (list_passkeys a.id s);
}

abbrev pub redeemed : ℕ → String → ℕ → FactorStore → FactorStore
redeemed i hash at s = record s { codes = (use_recovery_code i hash at s.codes).1 }

-- The store after a request of the caller; `redeem` is the statement that a login makes.
unfoldable pub handle : User → Request → FactorStore → FactorStore
handle u (confirm_totp pending step sealed fresh) s = (totp_confirm u pending step sealed fresh s).1
handle u (disable_totp policy p) s = (totp_disable u policy p s).1
handle u (register_passkey pending reg fresh) s = (passkey_register u pending reg fresh s).1
handle u (remove_passkey id policy p) s = (passkey_delete u id policy p s).1
handle u (new_codes p fresh) s = (regenerate_recovery_codes u p fresh s).1
handle u (redeem hash at) s = redeemed u.id hash at s
handle u (reset_other i) s = (reset_by_admin (some u.id) i s).1

abbrev pub serve_found : Option Account → Request → FactorStore → FactorStore
serve_found none r s = s
serve_found (some a) r s = handle (loaded a s) r s

-- One request after the other; the requests of an account that is not there are refused.
unfoldable pub serve_all : List (ℕ × Request) → FactorStore → FactorStore
unfolding handle
serve_all [] s = s
serve_all ((i, r) ∷ rs) s = serve_all rs (serve_found (get_user i s.accounts.users) r s)
