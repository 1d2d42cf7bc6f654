-- ===== src/Sessions/Ownership.antt =====
-- Whose sessions a caller can end (deleteSession of internal/api/handlers_auth.go).
use duskrun.Base.{
  ℕ, ◌≡◌, refl, sym, ap, ◌∙◌, String, Bool, true, false, not, Option, none, some, List, [], ◌∷◌,
  ◌==◌, str_eq, arith, Bool-cases, inl, inr,
}
use duskrun.Model.{admin, at_least}
use duskrun.Access.{Principal}
use duskrun.Users.{SessionRow}
use duskrun.Sessions.{find_token, get_session, end_session, end_found, delete_session, user_id}
use duskrun.Sessions.Rows.{has_id, Unique, find_token-select, find_token-has_id, get_session-has_id}

-- The row of an id and the row of a token that has this id are one.
get_session-one :
    (i : ℕ) (t : String) (rows : List SessionRow) (x y : SessionRow)
    → Unique rows
    → get_session i rows ≡ some x
    → find_token t rows ≡ some y
    → (y.id == x.id) ≡ true
    → y ≡ x
get_session-one i t [] x y u h k e = absurd (ground (arith, h))
get_session-one i t (r ∷ rows) x y u h k e = elim (Bool-cases (r.id == i)) [
  | inl a ↦
      let h' : some r ≡ some x = simp a at h in
      let here : r ≡ x = cc in
      elim (Bool-cases (str_eq r.token_hash t)) [
        | inl b ↦
            let k' : some r ≡ some y = simp b at k in let there : r ≡ y = cc in sym there ∙ here
        | inr b ↦
            let found = find_token-has_id t rows y (simp b at k) in
            let ids : y.id ≡ r.id = ground (arith, e, ap (λ (z : SessionRow). z.id) here) in
            absurd (ground (arith, u.1, ap (λ j. has_id j rows) (sym ids) ∙ found))
      ]
  | inr a ↦ elim (Bool-cases (str_eq r.token_hash t)) [
    | inl b ↦
        let k' : some r ≡ some y = simp b at k in
        let there : r ≡ y = cc in
        let found = get_session-has_id i rows x (simp a at h) in
        let ids : x.id ≡ r.id = ground (arith, e, ap (λ (z : SessionRow). z.id) there) in
        absurd (ground (arith, u.1, ap (λ j. has_id j rows) (sym ids) ∙ found))
    | inr b ↦ get_session-one i t rows x y u.2 (simp a at h) (simp b at k) e
  ]
]

end_found-keeps :
    (p : Principal) (deletes : Bool) (i : ℕ) (rows : List SessionRow) (t : String) (y : SessionRow)
    (o : Option SessionRow)
    → Unique rows
    → at_least p.role admin ≡ false
    → find_token t rows ≡ some y
    → (y.user_id == user_id p) ≡ false
    → get_session i rows ≡ o
    → find_token t (end_found p deletes rows o).1 ≡ some y
unfolding delete_session
end_found-keeps p deletes i rows t y none u a k n h = k
end_found-keeps p deletes i rows t y (some x) u a k n h =
    elim (Bool-cases (x.user_id == user_id p)) [
      | inr e ↦ rw (a, e) k
      | inl e ↦ elim (Bool-cases deletes) [
        | inr d ↦ rw (a, e, d) k
        | inl d ↦ elim (Bool-cases (y.id == x.id)) [
          | inl same ↦
              let one = get_session-one i t rows x y u h k same in
              absurd (ground (arith, n, e, ap (λ (z : SessionRow). z.user_id) one))
          | inr other ↦
              rw (a, e, d, find_token-select (λ r. not (r.id == x.id)) t rows u, k, other) refl
        ]
      ]
    ]

-- Only an admin ends the session of someone else: whatever id a caller of another role names, the
-- session of a token that belongs to another account is still there, whether the deletion works or
-- not. Ids and tokens of the table are unique.
pub end_session-keeps :
    (p : Principal) (deletes : Bool) (i : ℕ) (rows : List SessionRow) (t : String) (y : SessionRow)
    → Unique rows
    → at_least p.role admin ≡ false
    → find_token t rows ≡ some y
    → (y.user_id == user_id p) ≡ false
    → find_token t (end_session p deletes i rows).1 ≡ some y
unfolding end_session
end_session-keeps p deletes i rows t y u a k n =
    end_found-keeps p deletes i rows t y (get_session i rows) u a k n refl
