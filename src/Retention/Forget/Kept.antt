-- ===== src/Retention/Forget/Kept.antt =====
-- What `Forget` keeps (internal/core/retention.go), of the artifacts in the order of their time.
use duskrun.Base.{
  ap, ℕ, ◌<◌, ◌≡◌, refl, ◌⊎◌, inl, inr, true, false, ◌&&◌, List, [], ◌∷◌, ◌++◌, ◌==◌, select,
  contains, All, Distinct, Perm, subst, arith, Bool-cases,
}
use duskrun.Retention.Policy.{Policy}
use duskrun.Retention.Forget.{Artifact, ids, newer, keep_set, newest_first, forget}
use duskrun.Retention.Forget.Rules.{is_kept, keep_set-eq-is_kept}
use duskrun.Retention.Forget.Order.{
  Ordered, newest_first-Ordered, newest_first-Distinct, contains-ids-append,
}
use duskrun.Retention.Forget.Partition.{newest_first-perm}

-- An artifact was made later than another one, or at the same time with a higher id.
abbrev pub IsLater : Artifact → Artifact → Type 0
IsLater a b = (b.created_at < a.created_at) ⊎ ((b.created_at ≡ a.created_at) × (b.id < a.id))

-- From the latest to the earliest.
abbrev pub Descending : List Artifact → Type 0
Descending [] = Unit {0}
Descending (a ∷ rest) = All (IsLater a) rest × Descending rest

newer-IsLater : (a b : Artifact) → newer a b ≡ true → IsLater a b
newer-IsLater a b h = elim (Bool-cases (a.created_at == b.created_at)) [
  | inl e ↦ inr (ground (arith, e), ground (arith, e, h))
  | inr e ↦ inl (ground (arith, e, h))
]

All-IsLater : (a : Artifact) (l : List Artifact) → All (λ b. newer a b ≡ true) l → All (IsLater a) l
All-IsLater a [] h = tt
All-IsLater a (b ∷ l) h = (newer-IsLater a b h.0, All-IsLater a l h.1)

Ordered-Descending : (l : List Artifact) → Ordered l → Descending l
Ordered-Descending [] o = tt
Ordered-Descending (a ∷ l) o = (All-IsLater a l o.0, Ordered-Descending l o.1)

contains-ids-kept :
    (keep : List ℕ) (l : List Artifact) (i : ℕ)
    → contains (ids (select (λ a. contains keep a.id) l)) i
      ≡ (contains (ids l) i && contains keep i)
contains-ids-kept keep [] i = refl
contains-ids-kept keep (a ∷ l) i = elim (Bool-cases (a.id == i)) [
  | inl e ↦
      let same : a.id ≡ i = ground (arith, e) in
      ground (arith, e, same, ap (contains keep) same, contains-ids-kept keep l i)
  | inr e ↦ ground (arith, e, contains-ids-kept keep l i)
]

Distinct-absent :
    (before : List Artifact) (a : Artifact) (after : List Artifact)
    → Distinct (ids (before ++ a ∷ after))
    → (contains (ids before) a.id ≡ false) × (contains (ids after) a.id ≡ false)
Distinct-absent [] a after h = (refl, h.0)
Distinct-absent (b ∷ before) a after h =
    let rest = Distinct-absent before a after h.1 in
    (ground (arith, h.0, rest.0, contains-ids-append before (a ∷ after) b.id), rest.1)

-- `Forget` keeps an artifact exactly when a rule of the policy says so. Where the ids of the task's
-- artifacts are distinct, and `before`, `a`, `after` is their order in `Forget`, `a` is kept if and
-- only if it is among the `keep_last` first or opens a day, a week or a month in time. That order
-- goes from the latest to the earliest, by the higher id at equal times, and holds every artifact
-- once.
pub forget-eq-is_kept :
    (ret : Policy) (artifacts before : List Artifact) (a : Artifact) (after : List Artifact)
    → Distinct (ids artifacts)
    → newest_first artifacts ≡ before ++ a ∷ after
    → (contains (ids (forget ret artifacts).0) a.id ≡ is_kept ret before a)
      × Descending (before ++ a ∷ after)
      × Perm (before ++ a ∷ after) artifacts
unfolding forget
forget-eq-is_kept ret artifacts before a after h e =
    let whole = before ++ a ∷ after in
    let absent =
      Distinct-absent before a after
        (subst (λ l. Distinct (ids l)) e (newest_first-Distinct artifacts h)) in
    (
      rw (e, contains-ids-kept (keep_set ret whole) whole a.id)
          (ground (
            arith,
            contains-ids-append before (a ∷ after) a.id,
            keep_set-eq-is_kept ret before a after absent.0 absent.1,
          )),
      Ordered-Descending whole (subst Ordered e (newest_first-Ordered artifacts h)),
      subst (λ l. Perm l artifacts) e (newest_first-perm artifacts),
    )
