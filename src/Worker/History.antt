-- ===== src/Worker/History.antt =====
-- What a run is judged against (internal/core/runevents.go): the median of recent runs, and the size
-- anomaly. Sizes and durations are not negative.
use duskrun.Base.{
  ℕ, ap, ◌∙◌, zero, suc, ◌+◌, ◌*◌, ◌/◌, ◌%◌, ◌-◌, ◌≤◌, ◌<◌, ◌≡◌, refl, Bool, true, false, ◌||◌, not,
  Option, none, some, List, [], ◌∷◌, ltb, leb, ◌==◌, if◌then◌else◌, length, All, arith, Bool-cases,
  inl, inr,
}

-- `slices.Sort`
abbrev pub insert_sorted : ℕ → List ℕ → List ℕ
insert_sorted x [] = x ∷ []
insert_sorted x (y ∷ ys) = let rest = insert_sorted x ys in if leb x y then x ∷ y ∷ ys else y ∷ rest

unfoldable pub sorted : List ℕ → List ℕ
sorted [] = []
sorted (x ∷ xs) = insert_sorted x (sorted xs)

-- The entry at an index that is in range, and 0 outside.
abbrev pub entry : List ℕ → ℕ → ℕ
entry [] i = 0
entry (x ∷ xs) zero = x
entry (x ∷ xs) (suc i) = entry xs i

unfoldable pub median : List ℕ → ℕ
unfolding sorted
median xs =
    let s = sorted xs in
    let n = length s in
    if n % 2 == 1 then entry s (n / 2) else (entry s (n / 2 - 1) + entry s (n / 2)) / 2

-- minHistory and sizeAnomalyFloor
abbrev pub min_history : ℕ
min_history = 3

abbrev pub anomaly_floor : ℕ
anomaly_floor = 65536

-- Below half of `usual`, and by at least the floor. The comparison of two floating point numbers is
-- exact for sizes below 2 ^ 53.
abbrev pub is_far_below : ℕ → ℕ → Bool
is_far_below usual size = not (leb usual (size * 2) || ltb usual (size + anomaly_floor))

-- `sizeAnomaly`, given the sizes of the last runs.
unfoldable pub is_size_anomaly : Option (List ℕ) → ℕ → Bool
unfolding median
is_size_anomaly none size = false
is_size_anomaly (some sizes) size =
    if ltb (length sizes) min_history then false else is_far_below (median sizes) size

entry-All : (P : ℕ → Type 0) (xs : List ℕ) (i : ℕ) → All P xs → i < length xs → P (entry xs i)
entry-All P [] i h l = absurd (omega (arith, l))
entry-All P (x ∷ xs) zero h l = h.0
entry-All P (x ∷ xs) (suc i) h l = entry-All P xs i h.1 (omega (arith, l))

insert_sorted-All :
    (P : ℕ → Type 0) (x : ℕ) (xs : List ℕ) → P x → All P xs → All P (insert_sorted x xs)
insert_sorted-All P x [] p h = (p, tt)
insert_sorted-All P x (y ∷ ys) p h = elim (Bool-cases (leb x y)) [
  | inl e ↦ rw e (p, h)
  | inr e ↦ rw e (h.0, insert_sorted-All P x ys p h.1)
]

sorted-All : (P : ℕ → Type 0) (xs : List ℕ) → All P xs → All P (sorted xs)
unfolding sorted
sorted-All P [] h = tt
sorted-All P (x ∷ xs) h = insert_sorted-All P x (sorted xs) h.0 (sorted-All P xs h.1)

length-insert_sorted : (x : ℕ) (xs : List ℕ) → length (insert_sorted x xs) ≡ suc (length xs)
length-insert_sorted x [] = refl
length-insert_sorted x (y ∷ ys) = ground (arith, length-insert_sorted x ys)

length-sorted : (xs : List ℕ) → length (sorted xs) ≡ length xs
unfolding sorted
length-sorted [] = refl
length-sorted (x ∷ xs) = length-insert_sorted x (sorted xs) ∙ ap suc (length-sorted xs)

-- The median of some runs lies between their bounds.
pub median_bounds :
    (lo hi : ℕ) (xs : List ℕ)
    → 0 < length xs
    → All (λ x. (lo ≤ x) × (x ≤ hi)) xs
    → (lo ≤ median xs) × (median xs ≤ hi)
unfolding median
median_bounds lo hi xs n h =
    let s = sorted xs in
    let bounds : (i : ℕ) → i < length s → (lo ≤ entry s i) × (entry s i ≤ hi) =
      λ i l. entry-All _ s i (sorted-All _ xs h) l in
    let len : length s ≡ length xs = length-sorted xs in
    let middle = bounds (length s / 2) (omega (arith, len, n)) in
    elim (Bool-cases (length s % 2 == 1)) [
      | inl e ↦ rw e middle
      | inr e ↦
          let before = bounds (length s / 2 - 1) (omega (arith, len, n)) in
          rw e (omega (arith, middle.0, before.0), omega (arith, middle.1, before.1))
    ]

-- A reported size is far from what was usual: at least three sizes are known, it is less than half of
-- a size between their bounds, and at least 64 KiB below it.
pub size_anomaly_sound :
    (lo hi size : ℕ) (sizes : List ℕ)
    → All (λ x. (lo ≤ x) × (x ≤ hi)) sizes
    → is_size_anomaly (some sizes) size ≡ true
    → (3 ≤ length sizes) × (2 * size < hi) × (size + 65536 ≤ hi)
unfolding is_size_anomaly
size_anomaly_sound lo hi size sizes h e = elim (Bool-cases (ltb (length sizes) min_history)) [
  | inl short ↦ absurd (ground (arith, short, e))
  | inr enough ↦
      let n : 3 ≤ length sizes = ground (arith, enough) in
      let bounds = median_bounds lo hi sizes (omega (arith, n)) h in
      ground (arith, n, bounds.1, enough, e)
]
