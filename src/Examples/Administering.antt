-- ===== src/Examples/Administering.antt =====
-- Runs of internal/store/sqlite/user.go.
use duskrun.Base.{none, ℕ, String, ◌≡◌, refl, true, false, ◌&&◌, not, [], ◌∷◌, ◌==◌, any}
use duskrun.Model.{admin, viewer}
use duskrun.Users.{Account, Accounts, SessionRow, done, delete_user, update_user, set_user_password}
use duskrun.Users.Admins.{
  IsAdministered, creates, updates, deletes, apply_all, apply_all-IsAdministered,
}
use duskrun.Users.Ending.{owns, access_ends}

abbrev root : Account
root = record {
  id = 1;
  email = "root@example.org";
  name = "Root";
  role = admin;
  password_hash = "h";
  last_login_at = none;
  disabled = false;
}

abbrev session : ℕ → String → SessionRow
session i token = record {
  id = i;
  user_id = 1;
  token_hash = token;
  created_at = 0;
  last_seen_at = 0;
  expires_at = 9;
}

-- One administrator with two sessions.
abbrev accounts : Accounts
accounts = record { users = root ∷ []; sessions = session 1 "a" ∷ session 2 "b" ∷ [] }

-- The last administrator is not deleted; once there is another, the first may lose the role.
apply_all-IsAdministered_example : IsAdministered (
    apply_all accounts (
      deletes 1
      ∷ creates "eva@example.org" "Eva" admin "h" false
      ∷ updates 1 "Root" viewer false
      ∷ deletes 2
      ∷ []))
apply_all-IsAdministered_example =
    apply_all-IsAdministered accounts
      (deletes 1
        ∷ creates "eva@example.org" "Eva" admin "h" false
        ∷ updates 1 "Root" viewer false
        ∷ deletes 2
        ∷ [])
      (record { distinct = (refl, tt); admin = refl })

access_ends_example :
    ((delete_user 1 accounts).0 ≡ done tt
      → any (owns 1) (delete_user 1 accounts).1.sessions ≡ false)
    × ((update_user 1 "Root" viewer true accounts).0 ≡ done tt
        → any (owns 1) (update_user 1 "Root" viewer true accounts).1.sessions ≡ false)
    × (any (λ s. owns 1 s && not (s.id == 2)) (set_user_password 1 "g" 2 accounts).1.sessions
        ≡ false)
access_ends_example = access_ends 1 2 "Root" "g" viewer accounts root refl refl
