-- ===== src/Examples/Retaining.antt =====
-- Runs of internal/core/retention.go.
use duskrun.Base.{leb, ℕ, ◌≡◌, refl, true, false, none, some, List, [], ◌∷◌, pos, contains, Perm}
use duskrun.Retention.Policy.{Policy}
use duskrun.Retention.Periods.{day_key, week_key, month_key}
use duskrun.Retention.Forget.{Artifact, ids, forget, keep_by_period, keep_set, newest_first}
use duskrun.Retention.Forget.Rules.{is_kept}
use duskrun.Retention.Forget.Kept.{Descending, forget-eq-is_kept}
use duskrun.Retention.Prune.{Turn, Located, prune, location}
use duskrun.Retention.Prune.Safety.{Tracked, prune-Tracked}
use duskrun.Retention.Prune.Progress.{IsPruned, prune_progress}

abbrev artifact : ℕ → ℕ → Artifact
artifact i at = record {
  id = i;
  run_id = i;
  storage_id = 1;
  key = "nightly/all/dump";
  size = 100;
  checksum = "";
  created_at = at;
  expires_hint = none;
}

-- Noon of 1 March, 29 February and 28 February 2024, and of 31 January 2024.
abbrev mar_1 : Artifact
mar_1 = artifact 4 1709294400

abbrev feb_29 : Artifact
feb_29 = artifact 3 1709208000

abbrev feb_28 : Artifact
feb_28 = artifact 2 1709121600

abbrev jan_31 : Artifact
jan_31 = artifact 1 1706702400

abbrev catalog : List Artifact
catalog = jan_31 ∷ feb_29 ∷ mar_1 ∷ feb_28 ∷ []

-- The newest artifact, and the newest of each of two months.
abbrev monthly_two : Policy
monthly_two = record {
  keep_last = pos 1;
  gfs = some (record { daily = pos 0; weekly = pos 0; monthly = pos 2 });
}

monthly_run : forget monthly_two catalog ≡ (mar_1 ∷ feb_29 ∷ [], feb_28 ∷ jan_31 ∷ [])
unfolding forget newest_first keep_set keep_by_period month_key day_key week_key
monthly_run = refl

forget-eq-is_kept_example :
    (contains (ids (forget monthly_two catalog).0) 2
      ≡ is_kept monthly_two (mar_1 ∷ feb_29 ∷ []) feb_28)
    × Descending (mar_1 ∷ feb_29 ∷ feb_28 ∷ jan_31 ∷ [])
    × Perm (mar_1 ∷ feb_29 ∷ feb_28 ∷ jan_31 ∷ []) catalog
unfolding newest_first
forget-eq-is_kept_example =
    forget-eq-is_kept monthly_two catalog (mar_1 ∷ feb_29 ∷ []) feb_28 (jan_31 ∷ [])
      (refl, (refl, (refl, (refl, tt)))) refl

-- The object of artifact 2 cannot be deleted.
abbrev stuck : Artifact → Turn
stuck a = record {
  cancelled = false;
  opens = true;
  object_deletes = leb a.id 1;
  row_deletes = true;
}

abbrev objects : List Located
objects = location jan_31 ∷ []

prune-Tracked_example : Tracked feb_28 (prune monthly_two stuck (some catalog) catalog objects)
prune-Tracked_example =
    prune-Tracked monthly_two stuck (jan_31 ∷ feb_29 ∷ mar_1 ∷ []) feb_28 [] catalog objects refl
      refl (λ h. refl)

prune_progress_example : IsPruned jan_31 (prune monthly_two stuck (some catalog) catalog objects)
unfolding forget newest_first keep_set keep_by_period month_key day_key week_key
prune_progress_example =
    prune_progress monthly_two stuck catalog catalog objects (feb_28 ∷ []) jan_31 [] refl
      (refl, (refl, tt)) (refl, refl, refl)
