-- ===== src/Sessions/Refinement.antt =====
-- The table of sessions keeps its promise: the operations refine those on a map from tokens.
use duskrun.Base.{ℕ, ◌≡◌, refl, ap, ◌∙◌, Option, List, [], ◌∷◌}
use duskrun.Access.{User}
use duskrun.Users.{SessionRow}
use duskrun.Sessions.{find_token, session_by_token}
use duskrun.Sessions.Rows.{Unique}
use duskrun.Sessions.Promise.{
  view, SessionOp, begins, presents, leaves, changes_password, cleans, loses_access, apply,
  apply_all, promise, promise_all,
}
use duskrun.Sessions.Steps.{
  Refines, begins-Refines, cleans-Refines, loses_access-Refines, left_by-Refines,
}
use duskrun.Sessions.Uses.{changed_by-Refines, presented_by-Refines}

apply-Refines :
    (owner : ℕ → Option User) (op : SessionOp) (rows : List SessionRow)
    → Unique rows
    → Refines (apply owner op rows) (promise owner op (view rows))
unfolding apply session_by_token
apply-Refines owner (begins now i token) rows u = begins-Refines owner now i token rows u
apply-Refines owner (presents deletes touches now token) rows u =
    presented_by-Refines owner deletes touches now token rows (find_token token rows) u refl
apply-Refines owner (leaves deletes token) rows u =
    left_by-Refines owner deletes token rows (find_token token rows) u refl
apply-Refines owner (changes_password is_valid old hash token) rows u =
    changed_by-Refines owner is_valid old hash token rows (find_token token rows) u refl
apply-Refines owner (cleans now) rows u = cleans-Refines owner now rows u
apply-Refines owner (loses_access i) rows u = loses_access-Refines owner i rows u

-- The table of sessions refines a map from tokens to grants: over any history of logins, requests,
-- logouts, password changes, cleanings and ended accounts, whatever statements fail, each token stands
-- for what the operations on the map make of it. On the map, a logout ends its own token and no other,
-- a change of the password ends every token of the account but the one it comes from, and a use slides
-- the expiry of its own token; the table does all of this by ids, which are unique at the start, as the
-- tokens are.
pub apply_all-refines :
    (owner : ℕ → Option User) (ops : List SessionOp) (rows : List SessionRow)
    → Unique rows
    → view (apply_all owner ops rows) ≡ promise_all owner ops (view rows)
unfolding apply_all promise_all
apply_all-refines owner [] rows u = refl
apply_all-refines owner (op ∷ ops) rows u =
    let one = apply-Refines owner op rows u in
    let here : view (apply owner op rows) ≡ promise owner op (view rows) = λ i t. one.kept t i in
    apply_all-refines owner ops (apply owner op rows) one.unique ∙ ap (promise_all owner ops) here
