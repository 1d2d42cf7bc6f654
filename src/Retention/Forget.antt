-- ===== src/Retention/Forget.antt =====
-- `Forget`, `keepByPeriod` and `mergeInto` (internal/core/retention.go). A Go set of ids is the
-- list of its members.
pub mod Rules
pub mod Stable
pub mod Kept
pub mod Newest
pub mod Order
pub mod Partition
use duskrun.Base.{
  ℕ, zero, suc, String, Bool, true, false, ◌||◌, ◌&&◌, not, Option, none, some, List, [], ◌∷◌, ◌++◌,
  ℤ, pos, negsuc, ltb, leb, ◌==◌, if◌then◌else◌, length, take, contains, select, map,
}
use duskrun.Retention.Policy.{Policy, Gfs}
use duskrun.Retention.Periods.{day_key, week_key, month_key}

pub record Artifact : Type 0 where
  pub id : ℕ
  pub run_id : ℕ
  pub storage_id : ℕ
  pub key : String
  pub size : ℕ
  pub checksum : String
  pub created_at : ℕ
  pub expires_hint : Option ℕ

-- The order of `sort.Slice`: newest first, ties by the higher id.
abbrev pub newer : Artifact → Artifact → Bool
newer a b = if a.created_at == b.created_at then ltb b.id a.id else ltb b.created_at a.created_at

-- `sort.Slice` by `newer`, which orders artifacts of distinct ids in one way only.
pub insert_newest : Artifact → List Artifact → List Artifact
insert_newest a [] = a ∷ []
insert_newest a (b ∷ bs) =
    let rest = insert_newest a bs in if newer a b then a ∷ b ∷ bs else b ∷ rest

unfoldable pub newest_first : List Artifact → List Artifact
unfolding insert_newest
newest_first [] = []
newest_first (a ∷ rest) = insert_newest a (newest_first rest)

abbrev pub ids : List Artifact → List ℕ
ids = map (λ a. a.id)

-- A negative count acts as 0 in `i < ret.KeepLast` and in `count <= 0`.
abbrev pub count_of : ℤ → ℕ
count_of (pos n) = n
count_of (negsuc n) = 0

-- The loop of `keepByPeriod` at a positive count; `seen` and `keep` grow together.
unfoldable pub period_loop : (ℕ → ℕ) → ℕ → List ℕ → List Artifact → List ℕ
period_loop key count seen [] = []
period_loop key count seen (a ∷ rest) =
    let k = key a.created_at in
    elim (contains seen k) [
      | true ↦ period_loop key count seen rest
      | false ↦ a.id ∷ elim (leb count (suc (length seen))) [
        | true ↦ []
        | false ↦ period_loop key count (k ∷ seen) rest
      ]
    ]

unfoldable pub keep_by_period : List Artifact → ℤ → (ℕ → ℕ) → List ℕ
unfolding period_loop
keep_by_period sorted (pos zero) key = []
keep_by_period sorted (pos (suc n)) key = period_loop key (suc n) [] sorted
keep_by_period sorted (negsuc n) key = []

unfoldable pub merge_into : List ℕ → List ℕ → List ℕ
merge_into dst src = src ++ dst

unfoldable pub gfs_keep : List Artifact → Option Gfs → List ℕ → List ℕ
unfolding merge_into
gfs_keep sorted none keep = keep
gfs_keep sorted (some g) keep =
    merge_into
      (merge_into (merge_into keep (keep_by_period sorted g.daily day_key))
        (keep_by_period sorted g.weekly week_key))
      (keep_by_period sorted g.monthly month_key)

unfoldable pub keep_set : Policy → List Artifact → List ℕ
unfolding gfs_keep
keep_set ret sorted = gfs_keep sorted ret.gfs (ids (take (count_of ret.keep_last) sorted))

-- The kept and the deleted artifacts, each newest first.
unfoldable pub forget : Policy → List Artifact → List Artifact × List Artifact
forget ret artifacts =
    let sorted = newest_first artifacts in
    let keep = keep_set ret sorted in
    (select (λ a. contains keep a.id) sorted, select (λ a. not (contains keep a.id)) sorted)
