-- ===== src/Examples/Staying.antt =====
-- Runs over the table of sessions (internal/store/sqlite/session.go, internal/api/handlers_auth.go).
use duskrun.Base.{ℕ, ◌≡◌, refl, String, true, false, some, List, [], ◌∷◌}
use duskrun.Model.{viewer, hour, at_least}
use duskrun.Access.{User, Principal}
use duskrun.Users.{SessionRow}
use duskrun.Factors.Enrolment.{Password}
use duskrun.Sessions.{find_token, end_session}
use duskrun.Sessions.Rows.{Unique}
use duskrun.Sessions.Promise.{
  view, SessionOp, begins, presents, leaves, changes_password, cleans, loses_access, apply_all,
  promise_all,
}
use duskrun.Sessions.Refinement.{apply_all-refines}
use duskrun.Sessions.Ownership.{end_session-keeps}

abbrev row : ℕ → ℕ → String → SessionRow
row i owner token = record {
  id = i;
  user_id = owner;
  token_hash = token;
  created_at = 0;
  last_seen_at = 0;
  expires_at = 100000;
}

-- Two sessions of one account and one of another.
abbrev rows : List SessionRow
rows = row 1 7 "a" ∷ row 2 7 "b" ∷ row 3 8 "c" ∷ []

rows-Unique : Unique rows
rows-Unique = ((refl, refl, (refl, refl, (refl, refl, tt))))

abbrev person : ℕ → User
person i = record { id = i; role = viewer; disabled = false; totp_enabled = false; passkeys = 0 }

abbrev old : Password
old = record { text = "old"; admitted = true; verified = some true }

abbrev history : List SessionOp
history =
    begins hour 9 "d"
    ∷ presents true true hour "c"
    ∷ changes_password true old (some "hash") "a"
    ∷ leaves true "c"
    ∷ cleans hour
    ∷ loses_access 9
    ∷ []

apply_all-refines_example :
    view (apply_all (λ i. some (person i)) history rows)
    ≡ promise_all (λ i. some (person i)) history (view rows)
apply_all-refines_example = apply_all-refines (λ i. some (person i)) history rows rows-Unique

-- The session that the password was changed from is the one that is left.
history_run : apply_all (λ i. some (person i)) history rows ≡ row 1 7 "a" ∷ []
unfolding apply_all
history_run = refl

abbrev caller : Principal
caller = record { role = viewer; user = some (person 7); enroll_required = false }

end_session-keeps_example : find_token "c" (end_session caller true 3 rows).1 ≡ some (row 3 8 "c")
unfolding at_least
end_session-keeps_example =
    end_session-keeps caller true 3 rows "c" (row 3 8 "c") rows-Unique refl refl refl
