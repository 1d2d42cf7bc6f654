-- ===== src/Sessions/Uses.antt =====
-- Requests and password changes keep the promise of the table of sessions.
use duskrun.Base.{
  ℕ, ◌*◌, ◌-◌, ◌≡◌, refl, sym, ◌∙◌, String, Bool, true, false, ◌&&◌, not, Option, none, some, List,
  ltb, leb, str_eq, if◌then◌else◌, arith, Bool-cases, inl, inr,
}
use duskrun.Model.{second}
use duskrun.Access.{User, touch_interval, slide_expiry}
use duskrun.Users.{SessionRow, drop_sessions}
use duskrun.Factors.Enrolment.{Password}
use duskrun.Sessions.{
  find_token, delete_session, after_lookup, is_other, change_own_password, old_verified, joined,
  with_owner,
}
use duskrun.Sessions.Rows.{Unique, select-Unique}
use duskrun.Sessions.Writes.{touch_session-Unique}
use duskrun.Sessions.Promise.{
  Grant, grant_of, view, presents, changes_password, changed, used, is_right, is_there, accepted,
  promise,
}
use duskrun.Sessions.Views.{view-delete, view-touch_session, view-drop_others}
use duskrun.Sessions.Steps.{Refines, found_at}

old_verified-rows :
    (i keep : ℕ) (hash : Option String) (rows : List SessionRow) (verified : Option Bool)
    → (old_verified i keep hash rows verified).1
      ≡ (if is_right verified && is_there hash then drop_sessions (is_other i keep) rows else rows)
old_verified-rows i keep hash rows none = refl
old_verified-rows i keep hash rows (some false) = refl
old_verified-rows i keep none rows (some true) = refl
old_verified-rows i keep (some s) rows (some true) = refl

change_own_password-rows :
    (i keep : ℕ) (is_valid : Bool) (old : Password) (hash : Option String) (rows : List SessionRow)
    → (change_own_password i keep is_valid old hash rows).1
      ≡ (if accepted is_valid old hash then drop_sessions (is_other i keep) rows else rows)
unfolding change_own_password
change_own_password-rows i keep is_valid old hash rows =
    ground (arith, old_verified-rows i keep hash rows old.verified)

pub changed_by-Refines :
    (owner : ℕ → Option User) (is_valid : Bool) (old : Password) (hash : Option String)
    (token : String) (rows : List SessionRow) (o : Option SessionRow)
    → Unique rows
    → find_token token rows ≡ o
    → Refines
        (changed is_valid old hash rows o)
        (promise owner (changes_password is_valid old hash token) (view rows))
unfolding promise
changed_by-Refines owner is_valid old hash token rows none u h = record {
  unique = u;
  kept = λ t. rw h refl;
}
changed_by-Refines owner is_valid old hash token rows (some x) u h =
    let done = change_own_password-rows x.user_id x.id is_valid old hash rows in
    elim (Bool-cases (accepted is_valid old hash)) [
      | inl a ↦
          rw (done, a)
            (record {
              unique = select-Unique _ rows u;
              kept = λ t. rw (h, a) (view-drop_others token rows x u h t);
            })
      | inr a ↦ rw (done, a) (record { unique = u; kept = λ t. rw (h, a) (ground arith) })
    ]

-- What is promised for a request with the token of a row.
promise-presents :
    (owner : ℕ → Option User) (deletes touches : Bool) (now : ℕ) (token : String)
    (rows : List SessionRow) (x : SessionRow) (t : String)
    → find_token token rows ≡ some x
    → promise owner (presents deletes touches now token) (view rows) t ≡ (
        if str_eq token t
        then used deletes touches now (grant_of x) (owner x.user_id)
        else view rows t)
unfolding promise
promise-presents owner deletes touches now token rows x t h = elim (Bool-cases (str_eq token t)) [
  | inl e ↦ rw (found_at token t rows (some x) h e, e) refl
  | inr e ↦ rw e refl
]

-- A request that changes nothing.
view-unchanged :
    (token : String) (rows : List SessionRow) (x : SessionRow) (t : String)
    → find_token token rows ≡ some x
    → view rows t ≡ (if str_eq token t then some (grant_of x) else view rows t)
view-unchanged token rows x t h = elim (Bool-cases (str_eq token t)) [
  | inl e ↦ rw (found_at token t rows (some x) h e, e) refl
  | inr e ↦ rw e refl
]

abbrev After : String → List SessionRow → List SessionRow → Option Grant → Type 0
After token rows rows' g =
    Unique rows' × ((t : String) → view rows' t ≡ (if str_eq token t then g else view rows t))

if-After :
    (token : String) (rows : List SessionRow) (b : Bool) (r s : List SessionRow)
    (g k : Option Grant)
    → After token rows r g
    → After token rows s k
    → After token rows (if b then r else s) (if b then g else k)
if-After token rows true r s g k x y = x
if-After token rows false r s g k x y = y

after_lookup-After :
    (deletes touches : Bool) (now : ℕ) (token : String) (rows : List SessionRow) (x : SessionRow)
    (o : Option User)
    → Unique rows
    → find_token token rows ≡ some x
    → After token rows
        (after_lookup deletes touches now (joined x o) rows)
        (used deletes touches now (grant_of x) o)
unfolding after_lookup delete_session slide_expiry
after_lookup-After deletes touches now token rows x none u h =
    (u, λ t. view-unchanged token rows x t h)
after_lookup-After deletes touches now token rows x (some a) u h =
    let same : After token rows rows (some (grant_of x)) =
      (u, λ t. view-unchanged token rows x t h) in
    if-After token rows (not (ltb now (x.expires_at * second))) _ _ _ _
      (if-After token rows deletes _ _ _ _ (select-Unique _ rows u, view-delete token rows x u h)
        same)
      (if-After token rows a.disabled _ _ _ _ same (
        if-After token rows (leb touch_interval (now - x.last_seen_at * second) && touches) _ _ _ _
          (touch_session-Unique x.id _ _ rows u, view-touch_session token rows x u h _ _) same))

pub presented_by-Refines :
    (owner : ℕ → Option User) (deletes touches : Bool) (now : ℕ) (token : String)
    (rows : List SessionRow) (o : Option SessionRow)
    → Unique rows
    → find_token token rows ≡ o
    → Refines
        (after_lookup deletes touches now (with_owner owner o) rows)
        (promise owner (presents deletes touches now token) (view rows))
unfolding after_lookup promise
presented_by-Refines owner deletes touches now token rows none u h = record {
  unique = u;
  kept = λ t. elim (Bool-cases (str_eq token t)) [
    | inl e ↦ rw (found_at token t rows none h e, e) refl
    | inr e ↦ rw e refl
  ];
}
presented_by-Refines owner deletes touches now token rows (some x) u h =
    let all = after_lookup-After deletes touches now token rows x (owner x.user_id) u h in
    record {
      unique = all.0;
      kept = λ t. all.1 t ∙ sym (promise-presents owner deletes touches now token rows x t h);
    }
