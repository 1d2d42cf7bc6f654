-- ===== src/Retention/Forget/Order.antt =====
-- The newest-first order of `Forget` (internal/core/retention.go).
use duskrun.Base.{
  ℕ, ◌≡◌, refl, Bool, true, false, ◌||◌, List, [], ◌∷◌, ◌++◌, select, contains, arith, Bool-cases,
  inl, inr, All, All-select, Distinct, ◌==◌,
}
use duskrun.Retention.Forget.{Artifact, ids, newer, insert_newest, newest_first}

-- Each entry is newer than all that follow it.
abbrev pub Ordered : List Artifact → Type 0
Ordered [] = Unit {0}
Ordered (a ∷ rest) = All (λ b. newer a b ≡ true) rest × Ordered rest

pub select-Ordered : (p : Artifact → Bool) (l : List Artifact) → Ordered l → Ordered (select p l)
select-Ordered p [] o = tt
select-Ordered p (a ∷ rest) o = elim (Bool-cases (p a)) [
  | inl e ↦ rw e (All-select _ p rest o.0, select-Ordered p rest o.1)
  | inr e ↦ rw e (select-Ordered p rest o.1)
]

newer_trans : (a b c : Artifact) → newer a b ≡ true → newer b c ≡ true → newer a c ≡ true
newer_trans a b c p q = ground arith

newer_total : (a b : Artifact) → (a.id == b.id) ≡ false → newer a b ≡ false → newer b a ≡ true
newer_total a b p q = ground arith

All-newer_trans :
    (a b : Artifact) (l : List Artifact)
    → newer a b ≡ true
    → All (λ c. newer b c ≡ true) l
    → All (λ c. newer a c ≡ true) l
All-newer_trans a b [] h k = tt
All-newer_trans a b (c ∷ l) h k = (newer_trans a b c h k.0, All-newer_trans a b l h k.1)

All-insert_newest :
    (a b : Artifact) (l : List Artifact)
    → newer b a ≡ true
    → All (λ c. newer b c ≡ true) l
    → All (λ c. newer b c ≡ true) (insert_newest a l)
unfolding insert_newest
All-insert_newest a b [] h k = (h, tt)
All-insert_newest a b (c ∷ l) h k = elim (Bool-cases (newer a c)) [
  | inl e ↦ rw e (h, k)
  | inr e ↦ rw e (k.0, All-insert_newest a b l h k.1)
]

insert_newest-Ordered :
    (a : Artifact) (l : List Artifact)
    → contains (ids l) a.id ≡ false
    → Ordered l
    → Ordered (insert_newest a l)
unfolding insert_newest
insert_newest-Ordered a [] n o = (tt, tt)
insert_newest-Ordered a (b ∷ l) n o = elim (Bool-cases (newer a b)) [
  | inl e ↦ rw e ((e, All-newer_trans a b l e o.0), o)
  | inr e ↦ rw e (
    All-insert_newest a b l (newer_total a b (ground arith) e) o.0,
    insert_newest-Ordered a l (ground arith) o.1,
  )
]

contains-insert_newest :
    (a : Artifact) (l : List Artifact) (i : ℕ)
    → contains (ids (insert_newest a l)) i ≡ ((a.id == i) || contains (ids l) i)
unfolding insert_newest
contains-insert_newest a [] i = refl
contains-insert_newest a (b ∷ l) i = ground (arith, contains-insert_newest a l i)

pub contains-newest_first :
    (l : List Artifact) (i : ℕ) → contains (ids (newest_first l)) i ≡ contains (ids l) i
unfolding newest_first
contains-newest_first [] i = refl
contains-newest_first (a ∷ rest) i =
    ground (arith, contains-insert_newest a (newest_first rest) i, contains-newest_first rest i)

pub newest_first-Ordered : (l : List Artifact) → Distinct (ids l) → Ordered (newest_first l)
unfolding newest_first
newest_first-Ordered [] d = tt
newest_first-Ordered (a ∷ rest) d =
    insert_newest-Ordered a (newest_first rest) (rw (contains-newest_first rest a.id) d.0)
      (newest_first-Ordered rest d.1)

insert_newest-Distinct :
    (a : Artifact) (l : List Artifact)
    → contains (ids l) a.id ≡ false
    → Distinct (ids l)
    → Distinct (ids (insert_newest a l))
unfolding insert_newest
insert_newest-Distinct a [] n d = (refl, tt)
insert_newest-Distinct a (b ∷ l) n d = elim (Bool-cases (newer a b)) [
  | inl e ↦ rw e (n, d)
  | inr e ↦ rw e (
    ground (arith, d.0, contains-insert_newest a l b.id),
    insert_newest-Distinct a l (ground arith) d.1,
  )
]

pub newest_first-Distinct : (l : List Artifact) → Distinct (ids l) → Distinct (ids (newest_first l))
unfolding newest_first
newest_first-Distinct [] d = tt
newest_first-Distinct (a ∷ rest) d =
    insert_newest-Distinct a (newest_first rest) (rw (contains-newest_first rest a.id) d.0)
      (newest_first-Distinct rest d.1)

-- An ordered list is left as it is.
pub newest_first_of_Ordered : (l : List Artifact) → Ordered l → newest_first l ≡ l
unfolding newest_first insert_newest
newest_first_of_Ordered [] o = refl
newest_first_of_Ordered (a ∷ []) o = refl
newest_first_of_Ordered (a ∷ b ∷ l) o =
    rw (newest_first_of_Ordered (b ∷ l) o.1) (ground (arith, o.0.0))

All-insert {κ} :
    (P : Artifact → Type κ) (a : Artifact) (l : List Artifact)
    → P a
    → All P l
    → All P (insert_newest a l)
unfolding insert_newest
All-insert P a [] h k = (h, tt)
All-insert P a (b ∷ l) h k = elim (Bool-cases (newer a b)) [
  | inl e ↦ rw e (h, k)
  | inr e ↦ rw e (k.0, All-insert P a l h k.1)
]

pub All-newest_first {κ} :
    (P : Artifact → Type κ) (l : List Artifact) → All P l → All P (newest_first l)
unfolding newest_first
All-newest_first P [] h = tt
All-newest_first P (a ∷ rest) h =
    All-insert P a (newest_first rest) h.0 (All-newest_first P rest h.1)

pub contains-ids-append :
    (xs ys : List Artifact) (i : ℕ)
    → contains (ids (xs ++ ys)) i ≡ (contains (ids xs) i || contains (ids ys) i)
contains-ids-append [] ys i = refl
contains-ids-append (x ∷ xs) ys i = ground (arith, contains-ids-append xs ys i)
