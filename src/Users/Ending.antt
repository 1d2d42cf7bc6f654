-- ===== src/Users/Ending.antt =====
-- Access ends at once (internal/store/sqlite/user.go).
use duskrun.Base.{
  if-keeps, ℕ, ◌≡◌, refl, String, Bool, true, false, ◌&&◌, not, Option, none, some, List, [], ◌∷◌,
  ◌==◌, any, arith, Bool-cases, inl, inr,
}
use duskrun.Model.{Role}
use duskrun.Users.{
  Account, Accounts, SessionRow, Answer, done, get_user, drop_sessions, update_found_user,
  update_user, delete_found_user, delete_user, set_user_password, loses_admin, is_last_admin,
  is_enabled_admin,
}

abbrev pub owns : ℕ → SessionRow → Bool
owns i s = s.user_id == i

any-drop :
    (p q : SessionRow → Bool) (ss : List SessionRow)
    → ((s : SessionRow) → q s ≡ true → p s ≡ true)
    → any q (drop_sessions p ss) ≡ false
any-drop p q [] h = refl
any-drop p q (s ∷ ss) h = elim (Bool-cases (p s)) [
  | inl e ↦ rw e (any-drop p q ss h)
  | inr e ↦ elim (Bool-cases (q s)) [
    | inl f ↦ absurd (ground (arith, e, f, h s))
    | inr f ↦ rw (e, f) (any-drop p q ss h)
  ]
]

-- What an operation that was done ends.
abbrev Ends : (SessionRow → Bool) → Answer (Unit {0}) × Accounts → Type 0
Ends q x = x.0 ≡ done tt → any q x.1.sessions ≡ false

delete_found_user-Ends :
    (i : ℕ) (a : Accounts) (found : Option Account) → Ends (owns i) (delete_found_user i a found)
unfolding delete_found_user
delete_found_user-Ends i a none = λ k. absurd (ground (arith, k))
delete_found_user-Ends i a (some cur) =
    if-keeps (Ends (owns i)) (is_enabled_admin cur && is_last_admin i a.users)
      (λ k. absurd (ground (arith, k))) (λ k. any-drop (owns i) (owns i) a.sessions (λ s h. h))

update_found_user-Ends :
    (i : ℕ) (name : String) (role : Role) (a : Accounts) (cur : Account)
    → cur.disabled ≡ false
    → Ends (owns i) (update_found_user i name role true a (some cur))
unfolding update_found_user
update_found_user-Ends i name role a cur n =
    if-keeps (Ends (owns i)) (loses_admin cur role true && is_last_admin i a.users)
      (λ k. absurd (ground (arith, k)))
      (λ k. rw n (any-drop (owns i) (owns i) a.sessions (λ s h. h)))

-- Access ends at once. For an enabled account that is found: when its deletion is done, no session of
-- the user is left, nor when its disabling is done, and after a change of its password no session of
-- the user is left but the one that is spared.
pub access_ends :
    (i keep : ℕ) (name hash : String) (role : Role) (a : Accounts) (cur : Account)
    → get_user i a.users ≡ some cur
    → cur.disabled ≡ false
    → ((delete_user i a).0 ≡ done tt → any (owns i) (delete_user i a).1.sessions ≡ false)
      × ((update_user i name role true a).0 ≡ done tt
          → any (owns i) (update_user i name role true a).1.sessions ≡ false)
      × (any (λ s. owns i s && not (s.id == keep)) (set_user_password i hash keep a).1.sessions
          ≡ false)
unfolding delete_user update_user set_user_password
access_ends i keep name hash role a cur e n = (
  delete_found_user-Ends i a (get_user i a.users),
  rw e (update_found_user-Ends i name role a cur n),
  rw (set_user_password, e) (any-drop _ _ a.sessions (λ s h. h)),
)
