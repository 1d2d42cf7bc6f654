-- ===== src/Sessions/Views.antt =====
-- What the statements on the table of sessions do to what a token stands for.
use duskrun.Base.{
  ℕ, ◌≡◌, refl, sym, ap, ◌∙◌, String, Bool, false, not, Option, none, some, List, ◌==◌, str_eq,
  eq_iff, if◌then◌else◌, select, arith, Bool-cases, Option-cases, inl, inr,
}
use duskrun.Users.{SessionRow, drop_sessions}
use duskrun.Sessions.{find_token, touch_session, is_other}
use duskrun.Sessions.Rows.{Unique, kept_if, find_token-select, find_token-one}
use duskrun.Sessions.Writes.{find_token-touch_session}
use duskrun.Sessions.Promise.{Grant, grant_of, seen, view, held, of_others}

-- A selection by what a grant has is the same selection of grants.
pub view-select :
    (p : SessionRow → Bool) (q : Grant → Bool) (rows : List SessionRow) (t : String)
    → Unique rows
    → ((r : SessionRow) → p r ≡ q (grant_of r))
    → view (select p rows) t ≡ held q (view rows t)
view-select p q rows t u same =
    ap seen (find_token-select p t rows u) ∙ seen-kept_if (find_token t rows)
  where
    seen-kept_if : (o : Option SessionRow) → seen (kept_if p o) ≡ held q (seen o)
    seen-kept_if none = refl
    seen-kept_if (some r) = elim (Bool-cases (p r)) [
      | inl e ↦ rw (e, sym (same r) ∙ e) refl
      | inr e ↦ rw (e, sym (same r) ∙ e) refl
    ]

-- The row of a token, and no row of another token, has its id.
module _ (token : String) (rows : List SessionRow) (x : SessionRow) (u : Unique rows)
    (h : find_token token rows ≡ some x) where
  other_id :
      (t : String) (y : SessionRow)
      → str_eq token t ≡ false
      → find_token t rows ≡ some y
      → (y.id == x.id) ≡ false
  other_id t y n k = elim (Bool-cases (y.id == x.id)) [
    | inr e ↦ e
    | inl e ↦ absurd (
        ground (
          arith,
          n,
          (eq_iff token t).1 (find_token-one token t rows x y u h k (ground (arith, e))),
        ))
  ]

  pub view-delete :
      (t : String)
      → view (select (λ r. not (r.id == x.id)) rows) t
        ≡ (if str_eq token t then none else view rows t)
  view-delete t = elim (Bool-cases (str_eq token t)) [
    | inl e ↦
        let here : find_token t rows ≡ some x =
          ap (λ k. find_token k rows) (sym ((eq_iff _ _).0 e)) ∙ h in
        rw (find_token-select (λ r. not (r.id == x.id)) t rows u, here, e) (ground arith)
    | inr e ↦ elim (Option-cases (find_token t rows)) [
      | inl k ↦ rw (find_token-select (λ r. not (r.id == x.id)) t rows u, k, e) refl
      | inr (y, k) ↦
          rw (find_token-select (λ r. not (r.id == x.id)) t rows u, k, e, other_id t y e k) refl
    ]
  ]

  pub view-touch_session :
      (at expires : ℕ) (t : String)
      → view (touch_session x.id at expires rows) t ≡ (
          if str_eq token t
          then some (record (grant_of x) { last_seen_at = at; expires_at = expires })
          else view rows t)
  view-touch_session at expires t = elim (Bool-cases (str_eq token t)) [
    | inl e ↦
        let here : find_token t rows ≡ some x =
          ap (λ k. find_token k rows) (sym ((eq_iff _ _).0 e)) ∙ h in
        rw (find_token-touch_session x.id at expires t rows, here, e) (ground arith)
    | inr e ↦ elim (Option-cases (find_token t rows)) [
      | inl k ↦ rw (find_token-touch_session x.id at expires t rows, k, e) refl
      | inr (y, k) ↦
          rw (find_token-touch_session x.id at expires t rows, k, e, other_id t y e k) refl
    ]
  ]

  pub view-drop_others :
      (t : String)
      → view (drop_sessions (is_other x.user_id x.id) rows) t
        ≡ (if str_eq token t then view rows t else of_others x.user_id (view rows t))
  view-drop_others t = elim (Bool-cases (str_eq token t)) [
    | inl e ↦
        let here : find_token t rows ≡ some x =
          ap (λ k. find_token k rows) (sym ((eq_iff _ _).0 e)) ∙ h in
        rw (find_token-select (λ r. not (is_other x.user_id x.id r)) t rows u, here, e)
          (ground arith)
    | inr e ↦ elim (Option-cases (find_token t rows)) [
      | inl k ↦ rw (find_token-select (λ r. not (is_other x.user_id x.id r)) t rows u, k, e) refl
      | inr (y, k) ↦
          rw (find_token-select (λ r. not (is_other x.user_id x.id r)) t rows u, k, e)
            (ground (arith, other_id t y e k))
    ]
  ]
