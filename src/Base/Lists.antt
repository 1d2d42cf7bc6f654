-- ===== src/Base/Lists.antt =====
-- Lists measured by native numbers, lists as finite sets of ids (Go's `map[int64]bool`), and
-- predicates on all entries.
use Prim.Native.Nat.{ℕ, zero, suc, ◌+◌, ◌≤◌, min}
use mathlib.Core.Path.{◌≡◌, refl}
use mathlib.Core.Logic.{inl, inr}
use mathlib.Core.Bool.{Bool, true, false, ◌||◌}
use mathlib.Core.List.{List, [], ◌∷◌, ◌++◌}
use native.Mathlib.Omega.{arith}
use duskrun.Base.Tests.{Bool-cases, ◌==◌, if◌then◌else◌}

module _ {ℓ} {A : Type ℓ} where
  abbrev pub length : List A → ℕ
  length [] = 0
  length (x ∷ xs) = suc (length xs)

  abbrev pub take : ℕ → List A → List A
  take zero xs = []
  take (suc n) [] = []
  take (suc n) (x ∷ xs) = x ∷ take n xs

  -- The entries that pass a test, in order.
  abbrev pub select : (A → Bool) → List A → List A
  select p [] = []
  select p (x ∷ xs) = let rest = select p xs in if p x then x ∷ rest else rest

  abbrev pub any : (A → Bool) → List A → Bool
  any p [] = false
  any p (x ∷ xs) = p x || any p xs

  -- Every entry has the property.
  abbrev pub All {κ} : (A → Type κ) → List A → Type κ
  All P [] = Unit
  All P (x ∷ xs) = P x × All P xs

  pub length-append : (xs ys : List A) → length (xs ++ ys) ≡ length xs + length ys
  length-append [] ys = omega arith
  length-append (x ∷ xs) ys = omega (arith, length-append xs ys)

  pub length-take : (n : ℕ) (xs : List A) → length (take n xs) ≡ min n (length xs)
  length-take zero xs = omega arith
  length-take (suc n) [] = omega arith
  length-take (suc n) (x ∷ xs) = omega (arith, length-take n xs)

-- A set of ids.
abbrev pub contains : List ℕ → ℕ → Bool
contains [] a = false
contains (x ∷ xs) a = (x == a) || contains xs a

pub contains-append :
    (xs ys : List ℕ) (a : ℕ) → contains (xs ++ ys) a ≡ (contains xs a || contains ys a)
contains-append [] ys a = refl
contains-append (x ∷ xs) ys a = ground (arith, contains-append xs ys a)

abbrev pub Distinct : List ℕ → Type 0
Distinct [] = Unit
Distinct (x ∷ xs) = (contains xs x ≡ false) × Distinct xs

abbrev drop_id : ℕ → List ℕ → List ℕ
drop_id a [] = []
drop_id a (x ∷ xs) = if x == a then xs else x ∷ drop_id a xs

length-drop_id :
    (a : ℕ) (ys : List ℕ) → contains ys a ≡ true → suc (length (drop_id a ys)) ≡ length ys
length-drop_id a [] h = ground arith
length-drop_id a (y ∷ ys) h = ground (arith, length-drop_id a ys)

contains-drop_id :
    (a b : ℕ) (ys : List ℕ)
    → (b == a) ≡ false
    → contains ys b ≡ true
    → contains (drop_id a ys) b ≡ true
contains-drop_id a b [] n h = ground arith
contains-drop_id a b (y ∷ ys) n h = ground (arith, contains-drop_id a b ys)

-- A set without repetition is no longer than one that holds all its members.
pub length-le_of_subset :
    (xs ys : List ℕ)
    → Distinct xs
    → ((a : ℕ) → contains xs a ≡ true → contains ys a ≡ true)
    → length xs ≤ length ys
length-le_of_subset [] ys d h = omega arith
length-le_of_subset (x ∷ xs) ys d h =
    let here : contains ys x ≡ true = h x (ground arith) in
    omega (
      arith,
      length-drop_id x ys here,
      length-le_of_subset xs (drop_id x ys) d.1
          (λ a m. contains-drop_id x a ys (ground (arith, d.0)) (h a (ground arith))),
    )

module _ {ℓ} {A : Type ℓ} where
  -- Entries found in a selection are found in the list.
  pub All-select {κ} :
      (P : A → Type κ) (p : A → Bool) (xs : List A) → All P xs → All P (select p xs)
  All-select P p [] h = tt
  All-select P p (x ∷ xs) h = elim (Bool-cases (p x)) [
    | inl e ↦ rw e (h.0, All-select P p xs h.1)
    | inr e ↦ rw e (All-select P p xs h.1)
  ]

  pub length-select-le : (p : A → Bool) (xs : List A) → length (select p xs) ≤ length xs
  length-select-le p [] = omega arith
  length-select-le p (x ∷ xs) = ground (arith, length-select-le p xs)
