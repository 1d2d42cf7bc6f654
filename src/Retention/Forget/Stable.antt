-- ===== src/Retention/Forget/Stable.antt =====
-- `Forget` after `Forget` (internal/core/retention.go): a rule that kept an artifact keeps it when
-- fewer artifacts are left, so a second pass deletes nothing.
use mathlib.Core.List.{append_assoc}
use duskrun.Base.{
  subst, ◌∙◌, ℕ, ◌≡◌, refl, sym, ap, Bool, true, false, ◌||◌, ◌&&◌, not, Option, none, some, List,
  [], ◌∷◌, ◌++◌, ℤ, if◌then◌else◌, select, contains, arith, Bool-cases, inl, inr, All, Distinct,
  ◌==◌, length-select-le, length-le_of_subset,
}
use duskrun.Retention.Policy.{Policy, Gfs}
use duskrun.Retention.Periods.{day_key, week_key, month_key}
use duskrun.Retention.Forget.{Artifact, ids, newest_first, keep_set, forget}
use duskrun.Retention.Forget.Rules.{periods, opens_period, opens_gfs, is_kept, keep_set-eq-is_kept}
use duskrun.Retention.Forget.Order.{
  contains-ids-append, select-Ordered, newest_first-Ordered, newest_first-Distinct,
  newest_first_of_Ordered,
}

periods-Distinct :
    (key : ℕ → ℕ) (seen : List ℕ) (l : List Artifact)
    → Distinct seen
    → Distinct (periods key seen l)
periods-Distinct key seen [] d = d
periods-Distinct key seen (a ∷ rest) d = elim (Bool-cases (contains seen (key a.created_at))) [
  | inl e ↦ rw e (periods-Distinct key seen rest d)
  | inr e ↦ rw e (periods-Distinct key (key a.created_at ∷ seen) rest (e, d))
]

-- A period is among those of a list if it was seen before or an entry has it.
abbrev has_period : (ℕ → ℕ) → List Artifact → ℕ → Bool
has_period key [] k = false
has_period key (a ∷ rest) k = (key a.created_at == k) || has_period key rest k

contains-periods :
    (key : ℕ → ℕ) (seen : List ℕ) (l : List Artifact) (k : ℕ)
    → contains (periods key seen l) k ≡ (contains seen k || has_period key l k)
contains-periods key seen [] k = ground arith
contains-periods key seen (a ∷ rest) k = elim (Bool-cases (contains seen (key a.created_at))) [
  | inl e ↦ rw e (ground (arith, same e, contains-periods key seen rest k))
  | inr e ↦ rw e (ground (arith, contains-periods key (key a.created_at ∷ seen) rest k))
]
  where
    same :
        contains seen (key a.created_at) ≡ true
        → ((key a.created_at == k) && not (contains seen k)) ≡ false
    same e = ground arith

has_period-select :
    (key : ℕ → ℕ) (p : Artifact → Bool) (l : List Artifact) (k : ℕ)
    → has_period key (select p l) k ≡ true
    → has_period key l k ≡ true
has_period-select key p [] k h = h
has_period-select key p (a ∷ rest) k h = ground (arith, has_period-select key p rest k)

periods-select :
    (key : ℕ → ℕ) (p : Artifact → Bool) (l : List Artifact) (k : ℕ)
    → contains (periods key [] (select p l)) k ≡ true
    → contains (periods key [] l) k ≡ true
periods-select key p l k h = ground (
  arith,
  contains-periods key [] (select p l) k,
  contains-periods key [] l k,
  has_period-select key p l k,
)

opens_period-select :
    (key : ℕ → ℕ) (count : ℤ) (p : Artifact → Bool) (before : List Artifact) (a : Artifact)
    → opens_period key count before a ≡ true
    → opens_period key count (select p before) a ≡ true
opens_period-select key count p before a h = ground (
  arith,
  periods-select key p before (key a.created_at),
  length-le_of_subset (periods key [] (select p before)) (periods key [] before)
      (periods-Distinct key [] (select p before) tt) (periods-select key p before),
)

opens_gfs-select :
    (g : Option Gfs) (p : Artifact → Bool) (before : List Artifact) (a : Artifact)
    → opens_gfs g before a ≡ true
    → opens_gfs g (select p before) a ≡ true
opens_gfs-select none p before a h = h
opens_gfs-select (some g) p before a h = ground (
  arith,
  opens_period-select day_key g.daily p before a,
  opens_period-select week_key g.weekly p before a,
  opens_period-select month_key g.monthly p before a,
)

-- With fewer newer artifacts around, every rule that kept an artifact keeps it still.
pub is_kept-select :
    (ret : Policy) (p : Artifact → Bool) (before : List Artifact) (a : Artifact)
    → is_kept ret before a ≡ true
    → is_kept ret (select p before) a ≡ true
is_kept-select ret p before a h =
    ground (arith, length-select-le p before, opens_gfs-select ret.gfs p before a)

select-append :
    (p : Artifact → Bool) (xs ys : List Artifact) → select p (xs ++ ys) ≡ select p xs ++ select p ys
select-append p [] ys = refl
select-append p (x ∷ xs) ys = ground (arith, select-append p xs ys)

contains-ids-select :
    (p : Artifact → Bool) (xs : List Artifact) (i : ℕ)
    → contains (ids xs) i ≡ false
    → contains (ids (select p xs)) i ≡ false
contains-ids-select p [] i h = h
contains-ids-select p (x ∷ xs) i h = ground (arith, contains-ids-select p xs i)

-- No other entry of a list without repetition has the id of `a`.
Distinct-split :
    (before : List Artifact) (a : Artifact) (after : List Artifact)
    → Distinct (ids (before ++ a ∷ after))
    → (contains (ids before) a.id ≡ false) × (contains (ids after) a.id ≡ false)
Distinct-split [] a after d = (refl, d.0)
Distinct-split (b ∷ before) a after d =
    let rest = Distinct-split before a after d.1 in
    (ground (arith, d.0, rest.0, contains-ids-append before (a ∷ after) b.id), rest.1)

module _ (ret : Policy) (l : List Artifact) (d : Distinct (ids l)) where
  abbrev kept : Artifact → Bool
  kept a = contains (keep_set ret l) a.id

  kept_again :
      (before : List Artifact) (a : Artifact) (after : List Artifact)
      → l ≡ before ++ a ∷ after
      → kept a ≡ true
      → contains (keep_set ret (select kept l)) a.id ≡ true
  kept_again before a after e h =
      let (hb, ha) = Distinct-split before a after (subst (λ m. Distinct (ids m)) e d) in
      let was : is_kept ret before a ≡ true =
        sym (keep_set-eq-is_kept ret before a after hb ha)
        ∙ ap (λ m. contains (keep_set ret m) a.id) (sym e)
        ∙ h in
      let split : select kept l ≡ select kept before ++ a ∷ select kept after =
        ap (select kept) e
        ∙ select-append kept before (a ∷ after)
        ∙ ap (λ b. select kept before ++ (if b then a ∷ select kept after else select kept after))
            h in
      ap (λ m. contains (keep_set ret m) a.id) split
      ∙ keep_set-eq-is_kept ret (select kept before) a (select kept after)
          (contains-ids-select kept before a.id hb) (contains-ids-select kept after a.id ha)
      ∙ is_kept-select ret kept before a was

  kept-All :
      (before after : List Artifact)
      → l ≡ before ++ after
      → All (λ a. contains (keep_set ret (select kept l)) a.id ≡ true) (select kept after)
  kept-All before [] e = tt
  kept-All before (a ∷ after) e =
      let rest = kept-All (before ++ a ∷ []) after (e ∙ sym (append_assoc before (a ∷ []) after)) in
      elim (Bool-cases (kept a)) [
        | inl h ↦ rw h (kept_again before a after e h, rest)
        | inr h ↦ rw h rest
      ]

select-All :
    (p : Artifact → Bool) (l : List Artifact)
    → All (λ a. p a ≡ true) l
    → (select p l ≡ l) × (select (λ a. not (p a)) l ≡ [])
select-All p [] h = (refl, refl)
select-All p (a ∷ rest) h =
    let (kept', gone) = select-All p rest h.1 in (ground (arith, h.0), ground (arith, h.0))

-- A second pass deletes nothing: for artifacts with distinct ids, `Forget` on the artifacts that
-- `Forget` kept, under the same policy, keeps all of them in the same order.
pub forget-forget :
    (ret : Policy) (artifacts : List Artifact)
    → Distinct (ids artifacts)
    → forget ret (forget ret artifacts).0 ≡ ((forget ret artifacts).0, [])
unfolding forget
forget-forget ret artifacts d =
    let l = newest_first artifacts in
    let k = select (λ a. contains (keep_set ret l) a.id) l in
    let same : newest_first k ≡ k =
      newest_first_of_Ordered k (select-Ordered _ l (newest_first-Ordered artifacts d)) in
    let all = kept-All ret l (newest_first-Distinct artifacts d) [] l refl in
    let (keeps, drops) = select-All (λ a. contains (keep_set ret k) a.id) k all in
    rw same (λ i. (keeps i, drops i))
