-- ===== src/Sweeper.antt =====
-- One pass of the retention over all tasks (internal/core/sweep.go): sweepLocked, sweepTask and the
-- outcome that `record` stores. The number of orphans that `Orphans` reports is a parameter.
pub mod Untouched
use duskrun.Base.{
  ℕ, suc, ◌+◌, Bool, true, false, ◌||◌, not, Option, none, some, List, [], ◌∷◌, ◌==◌, if◌then◌else◌,
  select, length,
}
use duskrun.Model.{Task}
use duskrun.Retention.Policy.{is_enabled}
use duskrun.Retention.Forget.{Artifact}
use duskrun.Retention.Prune.{Turn, Located, Pruning, PruneError, prune}

-- The store's catalog and the storages' objects.
pub record Stored : Type 0 where
  pub catalog : List Artifact
  pub objects : List Located

-- What the calls for one task answer: whether the artifacts are listed, each turn of the pruning, the
-- orphans that are found and whether their search fails, and whether the context is done afterwards.
pub record SweepAnswers : Type 0 where
  pub lists : Bool
  pub turn : Artifact → Turn
  pub orphans : ℕ
  pub orphans_failed : Bool
  pub cancelled : Bool

-- The counts of a sweep under construction, and the number of errors.
pub record Totals : Type 0 where
  pub deleted_count : ℕ
  pub freed_bytes : ℕ
  pub orphan_count : ℕ
  pub failures : ℕ

pub data SweepStatus : Type 0 where
  sweep_success sweep_failed : SweepStatus

abbrev pub sizes : List Artifact → ℕ
sizes [] = 0
sizes (a ∷ rest) = a.size + sizes rest

-- `ListArtifactsByTask`, for the artifacts that belong to a task.
abbrev pub listed : (ℕ → Artifact → Bool) → Bool → ℕ → List Artifact → Option (List Artifact)
listed belongs lists task catalog = if lists then some (select (belongs task) catalog) else none

-- `Prune` where a policy is on; an empty policy keeps everything.
unfoldable pub prune_task : (ℕ → Artifact → Bool) → SweepAnswers → Task → Stored → Pruning
unfolding prune
prune_task belongs ans t s =
    if is_enabled t.retention
    then prune t.retention ans.turn (listed belongs ans.lists t.id s.catalog) s.catalog s.objects
    else record { catalog = s.catalog; objects = s.objects; seen = []; deleted = []; errs = [] }

abbrev pub has_errors : List PruneError → Bool
has_errors errs = not (length errs == 0)

abbrev pub one_if : Bool → ℕ
one_if true = 1
one_if false = 0

-- The body of the loop of `sweepLocked` for one task; a task's errors are joined to one.
unfoldable pub add_task : SweepAnswers → Pruning → Totals → Totals
add_task ans p totals = record {
  deleted_count = totals.deleted_count + length p.deleted;
  freed_bytes = totals.freed_bytes + sizes p.deleted;
  orphan_count = totals.orphan_count + ans.orphans;
  failures = totals.failures + one_if (has_errors p.errs || ans.orphans_failed);
}

abbrev stored : Pruning → Stored
stored p = record { catalog = p.catalog; objects = p.objects }

unfoldable pub sweep_loop :
    (ℕ → Artifact → Bool) → (Task → SweepAnswers) → List Task → Totals × Stored → Totals × Stored
unfolding prune_task add_task
sweep_loop belongs answers [] x = x
sweep_loop belongs answers (t ∷ ts) (totals, s) =
    let p = prune_task belongs (answers t) t s in
    let counted = add_task (answers t) p totals in
    let rest = sweep_loop belongs answers ts (counted, stored p) in
    if (answers t).cancelled
    then (record counted { failures = suc counted.failures }, stored p)
    else rest

abbrev no_totals : ℕ → Totals
no_totals failures = record {
  deleted_count = 0;
  freed_bytes = 0;
  orphan_count = 0;
  failures = failures;
}

-- The status that `record` stores.
abbrev pub status_of : Totals → SweepStatus
status_of totals = if totals.failures == 0 then sweep_success else sweep_failed

-- `sweepLocked`, given what `ListTasks` answered (`none` is its error).
unfoldable pub sweep_tasks :
    (ℕ → Artifact → Bool) → (Task → SweepAnswers) → Option (List Task) → Stored → Totals × Stored
unfolding sweep_loop
sweep_tasks belongs answers none s = (no_totals 1, s)
sweep_tasks belongs answers (some tasks) s = sweep_loop belongs answers tasks (no_totals 0, s)
