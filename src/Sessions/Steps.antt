-- ===== src/Sessions/Steps.antt =====
-- Logins, logouts, cleanings and ended accounts keep the promise of the table of sessions.
use duskrun.Base.{
  ℕ, ◌/◌, ◌≡◌, refl, sym, ap, ◌∙◌, String, Bool, true, false, not, Option, none, some, List, [],
  ◌∷◌, ◌++◌, ◌==◌, leb, str_eq, eq_iff, if◌then◌else◌, arith, Bool-cases, Option-cases, inl, inr,
}
use duskrun.Model.{second}
use duskrun.Access.{User}
use duskrun.Users.{SessionRow}
use duskrun.Login.{new_session, has_token}
use duskrun.Sessions.{find_token, begin_session, delete_session, delete_expired, logout}
use duskrun.Sessions.Rows.{Unique, select-Unique, has_token-none, find_token-none}
use duskrun.Sessions.Writes.{find_token-append, append-Unique, has_id-above}
use duskrun.Sessions.Promise.{
  View, view, begins, leaves, cleans, loses_access, apply, or_fresh, promise, id_of,
}
use duskrun.Sessions.Views.{view-select, view-delete}

-- The table is valid afterwards and stands for what was promised.
pub record Refines (rows : List SessionRow) (v : View) : Type 0 where
  pub unique : Unique rows
  pub kept : (t : String) → view rows t ≡ v t

-- The row of a token, found under an equal one.
pub found_at :
    (token t : String) (rows : List SessionRow) (o : Option SessionRow)
    → find_token token rows ≡ o
    → str_eq token t ≡ true
    → find_token t rows ≡ o
found_at token t rows o h e = ap (λ k. find_token k rows) (sym ((eq_iff _ _).0 e)) ∙ h

begun-none :
    (now i : ℕ) (token : String) (rows : List SessionRow) (t : String)
    → find_token token rows ≡ none
    → view (rows ++ new_session now i token rows ∷ []) t
      ≡ (if str_eq token t then or_fresh now i (view rows t) else view rows t)
begun-none now i token rows t h = elim (Bool-cases (str_eq token t)) [
  | inl e ↦
      rw
        (find_token-append t rows (new_session now i token rows), found_at token t rows none h e, e)
        refl
  | inr e ↦ elim (Option-cases (find_token t rows)) [
    | inl k ↦ rw (find_token-append t rows (new_session now i token rows), k, e) refl
    | inr (y, k) ↦ rw (find_token-append t rows (new_session now i token rows), k, e) refl
  ]
]

begun-some :
    (now i : ℕ) (token : String) (rows : List SessionRow) (x : SessionRow) (t : String)
    → find_token token rows ≡ some x
    → view rows t ≡ (if str_eq token t then or_fresh now i (view rows t) else view rows t)
begun-some now i token rows x t h = elim (Bool-cases (str_eq token t)) [
  | inl e ↦ rw (found_at token t rows (some x) h e, e) refl
  | inr e ↦ rw e refl
]

pub begins-Refines :
    (owner : ℕ → Option User) (now i : ℕ) (token : String) (rows : List SessionRow)
    → Unique rows
    → Refines
        (apply owner (begins now i token) rows)
        (promise owner (begins now i token) (view rows))
unfolding apply begin_session promise
begins-Refines owner now i token rows u = elim (Bool-cases (has_token token rows)) [
  | inr free ↦
      let new = new_session now i token rows in
      let h = find_token-none token rows free in
      rw (begin_session, free)
        (record {
          unique = append-Unique rows new free (has_id-above new.id rows (omega arith)) u;
          kept = λ t. begun-none now i token rows t h;
        })
  | inl taken ↦ elim (Option-cases (find_token token rows)) [
    | inl h ↦ absurd (ground (arith, taken, has_token-none token rows h))
    | inr (x, h) ↦
        rw (begin_session, taken)
          (record { unique = u; kept = λ t. begun-some now i token rows x t h })
  ]
]

pub cleans-Refines :
    (owner : ℕ → Option User) (now : ℕ) (rows : List SessionRow)
    → Unique rows
    → Refines (apply owner (cleans now) rows) (promise owner (cleans now) (view rows))
unfolding apply delete_expired promise
cleans-Refines owner now rows u = record {
  unique = select-Unique _ rows u;
  kept = λ t.
      view-select (λ r. not (leb r.expires_at (now / second)))
        (λ g. not (leb g.expires_at (now / second))) rows t u (λ r. refl);
}

pub loses_access-Refines :
    (owner : ℕ → Option User) (i : ℕ) (rows : List SessionRow)
    → Unique rows
    → Refines (apply owner (loses_access i) rows) (promise owner (loses_access i) (view rows))
unfolding apply promise
loses_access-Refines owner i rows u = record {
  unique = select-Unique _ rows u;
  kept =
      λ t. view-select (λ r. not (r.user_id == i)) (λ g. not (g.owner == i)) rows t u (λ r. refl);
}

pub left_by-Refines :
    (owner : ℕ → Option User) (deletes : Bool) (token : String) (rows : List SessionRow)
    (o : Option SessionRow)
    → Unique rows
    → find_token token rows ≡ o
    → Refines (logout deletes (id_of o) rows).1 (promise owner (leaves deletes token) (view rows))
unfolding logout delete_session promise
left_by-Refines owner deletes token rows none u h = record {
  unique = u;
  kept = λ t. elim (Bool-cases (str_eq token t)) [
    | inl e ↦ rw (found_at token t rows none h e, e) (ground arith)
    | inr e ↦ rw e refl
  ];
}
left_by-Refines owner true token rows (some x) u h = record {
  unique = select-Unique _ rows u;
  kept = λ t. view-delete token rows x u h t ∙ ground arith;
}
left_by-Refines owner false token rows (some x) u h = record {
  unique = u;
  kept = λ t. ground arith;
}
