-- ===== src/Retention/Forget/Rules.antt =====
-- Which artifacts `Forget` keeps (internal/core/retention.go), by their place in the newest-first
-- order.
use duskrun.Base.{
  ℕ, zero, suc, ◌≤◌, ◌<◌, ◌≡◌, refl, Bool, true, false, ◌||◌, ◌&&◌, not, Option, none, some, List,
  [], ◌∷◌, ◌++◌, ℤ, pos, negsuc, ltb, if◌then◌else◌, length, take, contains, contains-append, arith,
  Bool-cases, inl, inr, ◌⊎◌,
}
use duskrun.Retention.Policy.{Policy, Gfs, is_enabled, is_positive, gfs_enabled}
use duskrun.Retention.Periods.{day_key, week_key, month_key}
use duskrun.Retention.Forget.{
  Artifact, ids, count_of, period_loop, keep_by_period, gfs_keep, keep_set,
}

-- The distinct periods of a list of artifacts, added to those already seen.
abbrev pub periods : (ℕ → ℕ) → List ℕ → List Artifact → List ℕ
periods key seen [] = seen
periods key seen (a ∷ rest) =
    let k = key a.created_at in periods key (if contains seen k then seen else k ∷ seen) rest

-- Fewer than `count` periods have a newer artifact, and the period of `a` is none of them.
abbrev pub opens_period : (ℕ → ℕ) → ℤ → List Artifact → Artifact → Bool
opens_period key count before a =
    let seen = periods key [] before in
    not (contains seen (key a.created_at)) && ltb (length seen) (count_of count)

length-periods-le :
    (key : ℕ → ℕ) (seen : List ℕ) (l : List Artifact) → length seen ≤ length (periods key seen l)
length-periods-le key seen [] = omega arith
length-periods-le key seen (a ∷ rest) = elim (Bool-cases (contains seen (key a.created_at))) [
  | inl e ↦ rw e (length-periods-le key seen rest)
  | inr e ↦ rw e (ground (arith, length-periods-le key (key a.created_at ∷ seen) rest))
]

-- The loop collects ids of the list only.
period_loop-absent :
    (key : ℕ → ℕ) (count : ℕ) (seen : List ℕ) (l : List Artifact) (i : ℕ)
    → contains (ids l) i ≡ false
    → contains (period_loop key count seen l) i ≡ false
unfolding period_loop
period_loop-absent key count seen [] i h = refl
period_loop-absent key count seen (a ∷ rest) i h = ground (
  arith,
  period_loop-absent key count seen rest i,
  period_loop-absent key count (key a.created_at ∷ seen) rest i,
)

period_loop-member :
    (key : ℕ → ℕ) (count : ℕ) (seen : List ℕ) (before : List Artifact) (a : Artifact)
    (after : List Artifact)
    → length seen < count
    → contains (ids before) a.id ≡ false
    → contains (ids after) a.id ≡ false
    → contains (period_loop key count seen (before ++ a ∷ after)) a.id ≡ (
        not (contains (periods key seen before) (key a.created_at))
        && ltb (length (periods key seen before)) count)
unfolding period_loop
period_loop-member key count seen [] a after room hb ha =
    ground (arith, period_loop-absent key count seen after a.id)
period_loop-member key count seen (b ∷ before) a after room hb ha = ground (
  arith,
  period_loop-member key count seen before a after,
  period_loop-member key count (key b.created_at ∷ seen) before a after,
  length-periods-le key (key b.created_at ∷ seen) before,
)

keep_by_period-member :
    (key : ℕ → ℕ) (count : ℤ) (before : List Artifact) (a : Artifact) (after : List Artifact)
    → contains (ids before) a.id ≡ false
    → contains (ids after) a.id ≡ false
    → contains (keep_by_period (before ++ a ∷ after) count key) a.id
      ≡ opens_period key count before a
unfolding keep_by_period
keep_by_period-member key (pos zero) before a after hb ha = ground arith
keep_by_period-member key (pos (suc n)) before a after hb ha =
    period_loop-member key (suc n) [] before a after (omega arith) hb ha
keep_by_period-member key (negsuc n) before a after hb ha = ground arith

take-member :
    (n : ℕ) (before : List Artifact) (a : Artifact) (after : List Artifact)
    → contains (ids before) a.id ≡ false
    → contains (ids after) a.id ≡ false
    → contains (ids (take n (before ++ a ∷ after))) a.id ≡ ltb (length before) n
take-member zero [] a after hb ha = refl
take-member zero (b ∷ before) a after hb ha = ground arith
take-member (suc n) [] a after hb ha = ground arith
take-member (suc n) (b ∷ before) a after hb ha = ground (arith, take-member n before a after)

-- The rules of a policy for an artifact with the artifacts `before` newer than it: it is one of
-- the `keep_last` newest, or the newest of its day, week or month while fewer than the configured
-- number of days, weeks or months have a newer artifact.
abbrev pub opens_gfs : Option Gfs → List Artifact → Artifact → Bool
opens_gfs none before a = false
opens_gfs (some g) before a =
    opens_period day_key g.daily before a
    || opens_period week_key g.weekly before a
    || opens_period month_key g.monthly before a

abbrev pub is_kept : Policy → List Artifact → Artifact → Bool
is_kept ret before a = ltb (length before) (count_of ret.keep_last) || opens_gfs ret.gfs before a

gfs_keep-member :
    (g : Option Gfs) (keep : List ℕ) (before : List Artifact) (a : Artifact) (after : List Artifact)
    → contains (ids before) a.id ≡ false
    → contains (ids after) a.id ≡ false
    → contains (gfs_keep (before ++ a ∷ after) g keep) a.id
      ≡ (contains keep a.id || opens_gfs g before a)
unfolding gfs_keep
gfs_keep-member none keep before a after hb ha = ground arith
gfs_keep-member (some g) keep before a after hb ha = ground (
  arith,
  contains-append monthly (weekly ++ (daily ++ keep)) a.id,
  contains-append weekly (daily ++ keep) a.id,
  contains-append daily keep a.id,
  keep_by_period-member day_key g.daily before a after hb ha,
  keep_by_period-member week_key g.weekly before a after hb ha,
  keep_by_period-member month_key g.monthly before a after hb ha,
)
  where
    l : List Artifact
    l = before ++ a ∷ after

    daily : List ℕ
    daily = keep_by_period l g.daily day_key

    weekly : List ℕ
    weekly = keep_by_period l g.weekly week_key

    monthly : List ℕ
    monthly = keep_by_period l g.monthly month_key

-- `Forget` keeps an artifact exactly when a rule of the policy says so: where the newest-first
-- order is `before`, `a`, `after` and no other artifact has the id of `a`, the keep set holds that
-- id if and only if `a` is among the `keep_last` newest or opens a day, week or month in time.
pub keep_set-eq-is_kept :
    (ret : Policy) (before : List Artifact) (a : Artifact) (after : List Artifact)
    → contains (ids before) a.id ≡ false
    → contains (ids after) a.id ≡ false
    → contains (keep_set ret (before ++ a ∷ after)) a.id ≡ is_kept ret before a
unfolding keep_set
keep_set-eq-is_kept ret before a after hb ha =
    rw (gfs_keep-member ret.gfs _ before a after hb ha)
      (rw (take-member (count_of ret.keep_last) before a after hb ha))

keep_by_period-newest :
    (key : ℕ → ℕ) (count : ℤ) (a : Artifact) (rest : List Artifact)
    → is_positive count ≡ true
    → contains (keep_by_period (a ∷ rest) count key) a.id ≡ true
unfolding keep_by_period
keep_by_period-newest key (pos zero) a rest h = ground arith
keep_by_period-newest key (pos (suc n)) a rest h = ground arith
keep_by_period-newest key (negsuc n) a rest h = ground arith

gfs_keep-newest :
    (g : Option Gfs) (keep : List ℕ) (a : Artifact) (rest : List Artifact)
    → (contains keep a.id ≡ true) ⊎ (gfs_enabled g ≡ true)
    → contains (gfs_keep (a ∷ rest) g keep) a.id ≡ true
unfolding gfs_keep
gfs_keep-newest none keep a rest h = ground arith
gfs_keep-newest (some g) keep a rest h = ground (
  arith,
  contains-append monthly (weekly ++ (daily ++ keep)) a.id,
  contains-append weekly (daily ++ keep) a.id,
  contains-append daily keep a.id,
  keep_by_period-newest day_key g.daily a rest,
  keep_by_period-newest week_key g.weekly a rest,
  keep_by_period-newest month_key g.monthly a rest,
)
  where
    daily : List ℕ
    daily = keep_by_period (a ∷ rest) g.daily day_key

    weekly : List ℕ
    weekly = keep_by_period (a ∷ rest) g.weekly week_key

    monthly : List ℕ
    monthly = keep_by_period (a ∷ rest) g.monthly month_key

take-newest :
    (n : ℤ) (a : Artifact) (rest : List Artifact)
    → is_positive n ≡ true
    → contains (ids (take (count_of n) (a ∷ rest))) a.id ≡ true
take-newest (pos zero) a rest h = ground arith
take-newest (pos (suc n)) a rest h = ground arith
take-newest (negsuc n) a rest h = ground arith

-- A policy with any rule on keeps the newest artifact.
pub keep_set-newest :
    (ret : Policy) (a : Artifact) (rest : List Artifact)
    → is_enabled ret ≡ true
    → contains (keep_set ret (a ∷ rest)) a.id ≡ true
unfolding keep_set is_enabled
keep_set-newest ret a rest h =
    gfs_keep-newest ret.gfs _ a rest (elim (Bool-cases (is_positive ret.keep_last)) [
      | inl e ↦ inl (take-newest ret.keep_last a rest e)
      | inr e ↦ inr (ground arith)
    ])
