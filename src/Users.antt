-- ===== src/Users.antt =====
-- Accounts (internal/store/sqlite/user.go) over the tables app_user and session of
-- migrations/0007_users.sql. Each operation is one transaction of a single writer. An email is given
-- as `normalizeEmail` leaves it.
pub mod Rows
pub mod Admins
pub mod Ending
use duskrun.Base.{
  ℕ, suc, max, String, Bool, true, false, ◌&&◌, not, Option, none, some, List, [], ◌∷◌, ◌++◌, map,
  ◌==◌, str_eq, if◌then◌else◌, any, select, length,
}
use duskrun.Model.{Role, admin}
use duskrun.Access.{is_admin}

pub record Account : Type 0 where
  pub id : ℕ
  pub email : String
  pub name : String
  pub role : Role
  pub password_hash : String
  pub disabled : Bool
  pub last_login_at : Option ℕ

-- A row of the table session, less the client's name and address; times count seconds.
pub record SessionRow : Type 0 where
  pub id : ℕ
  pub user_id : ℕ
  pub token_hash : String
  pub created_at : ℕ
  pub last_seen_at : ℕ
  pub expires_at : ℕ

pub record Accounts : Type 0 where
  pub users : List Account
  pub sessions : List SessionRow

pub data UserError : Type 0 where
  no_user last_admin email_taken : UserError

pub data Answer {ℓ} (A : Type ℓ) : Type ℓ where
  done : A → Answer A
  refused : UserError → Answer A

abbrev pub user_ids : List Account → List ℕ
user_ids = map (λ u. u.id)

abbrev max_user : List Account → ℕ
max_user [] = 0
max_user (u ∷ us) = max u.id (max_user us)

abbrev pub get_user : ℕ → List Account → Option Account
get_user i [] = none
get_user i (u ∷ us) = if u.id == i then some u else get_user i us

-- UPDATE app_user SET … WHERE id = i
unfoldable pub update_account : ℕ → (Account → Account) → List Account → List Account
update_account i f [] = []
update_account i f (u ∷ us) = (if u.id == i then f u else u) ∷ update_account i f us

-- DELETE FROM app_user WHERE id = i
abbrev pub without_account : ℕ → List Account → List Account
without_account i = select (λ u. not (u.id == i))

abbrev pub is_enabled_admin : Account → Bool
is_enabled_admin u = is_admin u.role && not u.disabled

-- The admins that `ensureNotLastAdmin` counts.
abbrev pub is_other_admin : ℕ → Account → Bool
is_other_admin except u = is_enabled_admin u && not (u.id == except)

unfoldable pub is_last_admin : ℕ → List Account → Bool
is_last_admin except us = length (select (is_other_admin except) us) == 0

abbrev pub drop_sessions : (SessionRow → Bool) → List SessionRow → List SessionRow
drop_sessions p = select (λ s. not (p s))

unfoldable pub create_user : String → String → Role → String → Bool → Accounts → Answer ℕ × Accounts
create_user email name role hash disabled a =
    if any (λ u. str_eq u.email email) a.users then (refused email_taken, a) else (
      done (suc (max_user a.users)),
      record a {
        users =
            a.users
            ++ record {
              id = suc (max_user a.users);
              email = email;
              name = name;
              role = role;
              last_login_at = none;
              password_hash = hash;
              disabled = disabled;
            }
              ∷ [];
      },
    )

abbrev pub edited : String → Role → Bool → Account → Account
edited name role disabled u = record u { name = name; role = role; disabled = disabled }

-- `losingAdmin`
abbrev pub loses_admin : Account → Role → Bool → Bool
loses_admin cur role disabled = is_enabled_admin cur && not (is_admin role && not disabled)

-- `UpdateUser` for the row that was found.
unfoldable pub update_found_user :
    ℕ → String → Role → Bool → Accounts → Option Account → Answer (Unit {0}) × Accounts
unfolding update_account is_last_admin
update_found_user i name role disabled a none = (refused no_user, a)
update_found_user i name role disabled a (some cur) =
    if loses_admin cur role disabled && is_last_admin i a.users then (refused last_admin, a) else (
      done tt,
      record {
        users = update_account i (edited name role disabled) a.users;
        sessions =
            if disabled && not cur.disabled
            then drop_sessions (λ s. s.user_id == i) a.sessions
            else a.sessions;
      },
    )

unfoldable pub update_user : ℕ → String → Role → Bool → Accounts → Answer (Unit {0}) × Accounts
unfolding update_found_user
update_user i name role disabled a = update_found_user i name role disabled a (get_user i a.users)

-- `DeleteUser` for the row that was found; the sessions go by ON DELETE CASCADE.
unfoldable pub delete_found_user : ℕ → Accounts → Option Account → Answer (Unit {0}) × Accounts
unfolding is_last_admin
delete_found_user i a none = (refused no_user, a)
delete_found_user i a (some cur) =
    if is_enabled_admin cur && is_last_admin i a.users then (refused last_admin, a) else (
      done tt,
      record {
        users = without_account i a.users;
        sessions = drop_sessions (λ s. s.user_id == i) a.sessions;
      },
    )

unfoldable pub delete_user : ℕ → Accounts → Answer (Unit {0}) × Accounts
unfolding delete_found_user
delete_user i a = delete_found_user i a (get_user i a.users)

-- `SetUserPassword`; `keep` is the session that is spared.
unfoldable pub set_user_password : ℕ → String → ℕ → Accounts → Answer (Unit {0}) × Accounts
unfolding update_account
set_user_password i hash keep a = elim (get_user i a.users) [
  | none ↦ (refused no_user, a)
  | some u ↦ (
    done tt,
    record {
      users = update_account i (λ v. record v { password_hash = hash }) a.users;
      sessions = drop_sessions (λ s. s.user_id == i && not (s.id == keep)) a.sessions;
    },
  )
]
