-- ===== src/Users/Rows.antt =====
-- The rows of the table app_user under UPDATE and DELETE (internal/store/sqlite/user.go): their ids,
-- and the enabled administrators among them.
use duskrun.Base.{
  ℕ, ◌<◌, ◌≡◌, ap, ◌∙◌, subst, refl, Bool, true, false, not, some, List, [], ◌∷◌, ◌++◌, ◌==◌, any,
  contains, Distinct, arith, Bool-cases, inl, inr,
}
use duskrun.Users.{
  Account, user_ids, get_user, update_account, without_account, is_enabled_admin, is_other_admin,
  is_last_admin, max_user,
}

-- Some account is an enabled administrator.
abbrev pub has_admin : List Account → Bool
has_admin = any is_enabled_admin

pub is_last_admin-eq :
    (i : ℕ) (us : List Account) → is_last_admin i us ≡ not (any (is_other_admin i) us)
unfolding is_last_admin
is_last_admin-eq i [] = ground arith
is_last_admin-eq i (u ∷ us) = elim (Bool-cases (is_other_admin i u)) [
  | inl e ↦ rw e (ground arith)
  | inr e ↦ rw e (is_last_admin-eq i us)
]

pub others_stay :
    (i : ℕ) (f : Account → Account) (us : List Account)
    → any (is_other_admin i) us ≡ true
    → has_admin (update_account i f us) ≡ true
unfolding update_account
others_stay i f [] h = ground (arith, h)
others_stay i f (u ∷ us) h = ground (arith, h, others_stay i f us)

pub others_remain :
    (i : ℕ) (us : List Account)
    → any (is_other_admin i) us ≡ true
    → has_admin (without_account i us) ≡ true
others_remain i [] h = ground (arith, h)
others_remain i (u ∷ us) h = elim (Bool-cases (u.id == i)) [
  | inl e ↦ rw e (others_remain i us (ground (arith, h, e)))
  | inr e ↦ rw e (ground (arith, h, e, others_remain i us))
]

absent_others :
    (i : ℕ) (us : List Account)
    → contains (user_ids us) i ≡ false
    → any (is_other_admin i) us ≡ has_admin us
absent_others i [] h = refl
absent_others i (u ∷ us) h = ground (arith, h, absent_others i us)

-- An administrator other than one that is none.
pub others_of :
    (i : ℕ) (cur : Account) (us : List Account)
    → Distinct (user_ids us)
    → get_user i us ≡ some cur
    → is_enabled_admin cur ≡ false
    → has_admin us ≡ true
    → any (is_other_admin i) us ≡ true
others_of i cur [] d e n h = ground (arith, h)
others_of i cur (u ∷ us) d e n h = elim (Bool-cases (u.id == i)) [
  | inl k ↦
      let found : some u ≡ some cur = simp k at e in
      let same : u ≡ cur = cc in
      let not_admin : is_enabled_admin u ≡ false = ap is_enabled_admin same ∙ n in
      let gone : contains (user_ids us) i ≡ false =
        subst (λ j. contains (user_ids us) j ≡ false) (ground (arith, k)) d.0 in
      ground (arith, not_admin, h, absent_others i us gone)
  | inr k ↦ ground (arith, k, h, others_of i cur us d.1 (simp k at e) n)
]

pub now_admin :
    (i : ℕ) (f : Account → Account) (cur : Account) (us : List Account)
    → get_user i us ≡ some cur
    → ((u : Account) → is_enabled_admin (f u) ≡ true)
    → has_admin (update_account i f us) ≡ true
unfolding update_account
now_admin i f cur [] e h = ground (arith, e)
now_admin i f cur (u ∷ us) e h = elim (Bool-cases (u.id == i)) [
  | inl k ↦ rw (k, h u) refl
  | inr k ↦ ground (arith, k, now_admin i f cur us (simp k at e) h)
]

pub user_ids-update :
    (i : ℕ) (f : Account → Account) (us : List Account)
    → ((u : Account) → (f u).id ≡ u.id)
    → user_ids (update_account i f us) ≡ user_ids us
unfolding update_account
user_ids-update i f [] h = refl
user_ids-update i f (u ∷ us) h = ground (arith, h u, user_ids-update i f us h)

contains-without :
    (i j : ℕ) (us : List Account)
    → contains (user_ids us) j ≡ false
    → contains (user_ids (without_account i us)) j ≡ false
contains-without i j [] h = refl
contains-without i j (u ∷ us) h = elim (Bool-cases (u.id == i)) [
  | inl e ↦ rw e (contains-without i j us (ground (arith, h)))
  | inr e ↦ rw e (ground (arith, h, contains-without i j us))
]

pub Distinct-without :
    (i : ℕ) (us : List Account)
    → Distinct (user_ids us)
    → Distinct (user_ids (without_account i us))
Distinct-without i [] d = tt
Distinct-without i (u ∷ us) d = elim (Bool-cases (u.id == i)) [
  | inl e ↦ rw e (Distinct-without i us d.1)
  | inr e ↦ rw e (contains-without i u.id us d.0, Distinct-without i us d.1)
]

pub contains-above_users :
    (i : ℕ) (us : List Account) → max_user us < i → contains (user_ids us) i ≡ false
contains-above_users i [] h = refl
contains-above_users i (u ∷ us) h = ground (arith, contains-above_users i us)

pub user_ids-append : (us vs : List Account) → user_ids (us ++ vs) ≡ user_ids us ++ user_ids vs
user_ids-append [] vs = refl
user_ids-append (u ∷ us) vs = ap (◌∷◌ u.id) (user_ids-append us vs)

pub has_admin-append : (us vs : List Account) → has_admin us ≡ true → has_admin (us ++ vs) ≡ true
has_admin-append [] vs h = ground (arith, h)
has_admin-append (u ∷ us) vs h = ground (arith, h, has_admin-append us vs)

pub same_admins :
    (i : ℕ) (f : Account → Account) (us : List Account)
    → ((u : Account) → is_enabled_admin (f u) ≡ is_enabled_admin u)
    → has_admin (update_account i f us) ≡ has_admin us
unfolding update_account
same_admins i f [] h = refl
same_admins i f (u ∷ us) h = ground (arith, h u, same_admins i f us h)
