-- ===== src/Retention/Forget/Newest.antt =====
-- `Forget` under a policy that is off or on (internal/core/retention.go): with no rule nothing is
-- kept, with any rule the newest artifact survives.
use duskrun.Base.{
  ◌∙◌, ℕ, zero, suc, ◌≡◌, refl, ap, true, false, not, Option, none, some, List, [], ◌∷◌, ◌≢◌, ℤ,
  pos, negsuc, take, select, contains, arith, All, Distinct,
}
use duskrun.Retention.Policy.{Policy, Gfs, is_enabled, is_positive, gfs_enabled}
use duskrun.Retention.Periods.{day_key, week_key, month_key}
use duskrun.Retention.Forget.{
  Artifact, ids, newer, insert_newest, newest_first, count_of, keep_by_period, merge_into, gfs_keep,
  keep_set, forget,
}
use duskrun.Retention.Forget.Rules.{keep_set-newest}
use duskrun.Retention.Forget.Order.{Ordered, newest_first-Ordered}

insert_newest-ne-nil : (a : Artifact) (l : List Artifact) → insert_newest a l ≢ []
unfolding insert_newest
insert_newest-ne-nil a [] h = cc
insert_newest-ne-nil a (b ∷ l) h = ground arith

keep_by_period_off :
    (key : ℕ → ℕ) (count : ℤ) (l : List Artifact)
    → is_positive count ≡ false
    → keep_by_period l count key ≡ []
unfolding keep_by_period
keep_by_period_off key (pos zero) l h = refl
keep_by_period_off key (pos (suc n)) l h = ground arith
keep_by_period_off key (negsuc n) l h = refl

gfs_keep_off :
    (g : Option Gfs) (l : List Artifact) (keep : List ℕ)
    → gfs_enabled g ≡ false
    → gfs_keep l g keep ≡ keep
unfolding gfs_keep merge_into
gfs_keep_off none l keep h = refl
gfs_keep_off (some g) l keep h = rw (
  keep_by_period_off day_key g.daily l (ground arith),
  keep_by_period_off week_key g.weekly l (ground arith),
  keep_by_period_off month_key g.monthly l (ground arith),
)

take_off : (n : ℤ) (l : List Artifact) → is_positive n ≡ false → take (count_of n) l ≡ []
take_off (pos zero) l h = refl
take_off (pos (suc n)) l h = ground arith
take_off (negsuc n) l h = refl

keep_set_disabled :
    (ret : Policy) (l : List Artifact) → is_enabled ret ≡ false → keep_set ret l ≡ []
unfolding keep_set is_enabled
keep_set_disabled ret l h =
    gfs_keep_off ret.gfs l _ (ground arith) ∙ ap ids (take_off ret.keep_last l (ground arith))

select_none :
    (l : List Artifact)
    → (select (λ a. not (contains [] a.id)) l ≡ l) × (select (λ a. contains [] a.id) l ≡ [])
select_none [] = (refl, refl)
select_none (a ∷ rest) = let (all, nothing) = select_none rest in (ap (◌∷◌ a) all, nothing)

newest_first-nil : (l : List Artifact) → newest_first l ≡ [] → l ≡ []
unfolding newest_first
newest_first-nil [] h = refl
newest_first-nil (a ∷ rest) h = absurd (insert_newest-ne-nil a (newest_first rest) h)

-- A policy with no rule on keeps nothing: `Forget` then deletes every artifact, which is why the
-- sweep asks `Enabled` first.
pub forget_disabled :
    (ret : Policy) (artifacts : List Artifact)
    → is_enabled ret ≡ false
    → forget ret artifacts ≡ ([], newest_first artifacts)
unfolding forget keep_set is_enabled
forget_disabled ret artifacts h =
    let l = newest_first artifacts in
    let (all, nothing) = select_none l in rw (keep_set_disabled ret l h) (λ i. (nothing i, all i))

-- A policy with any rule on never deletes the newest artifact: of a non-empty list with distinct
-- ids it keeps one that is newer than every other artifact it was given.
pub forget-newest :
    (ret : Policy) (artifacts : List Artifact)
    → is_enabled ret ≡ true
    → Distinct (ids artifacts)
    → artifacts ≢ []
    → (a : Artifact) × (rest : List Artifact) × (newest_first artifacts ≡ a ∷ rest)
      × All (λ b. newer a b ≡ true) rest
      × ((forget ret artifacts).0 ≡ a ∷ select (λ b. contains (keep_set ret (a ∷ rest)) b.id) rest)
unfolding forget
forget-newest ret artifacts on d ne =
    head_kept (newest_first artifacts) refl (newest_first-Ordered artifacts d)
  where
    head_kept :
        (l : List Artifact)
        → newest_first artifacts ≡ l
        → Ordered l
        → (a : Artifact) × (rest : List Artifact) × (l ≡ a ∷ rest)
          × All (λ b. newer a b ≡ true) rest
          × (select (λ b. contains (keep_set ret l) b.id) l
              ≡ a ∷ select (λ b. contains (keep_set ret (a ∷ rest)) b.id) rest)
    head_kept [] e o = absurd (ne (newest_first-nil artifacts e))
    head_kept (a ∷ rest) e o = (a, rest, refl, o.0, rw (keep_set-newest ret a rest on) refl)
