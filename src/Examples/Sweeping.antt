-- ===== src/Examples/Sweeping.antt =====
-- Runs of internal/core/sweep.go.
use duskrun.Base.{
  ℕ, ◌≡◌, Bool, true, false, none, some, [], ◌∷◌, ◌==◌, pos, if◌then◌else◌, contains, arith,
}
use duskrun.Model.{Task, skip}
use duskrun.Retention.Policy.{is_enabled}
use duskrun.Retention.Forget.{Artifact, ids}
use duskrun.Sweeper.{Stored, SweepAnswers, sweep_tasks}
use duskrun.Sweeper.Untouched.{KeptBy, sweep_tasks_untouched}

-- Task 7 has no policy, task 8 keeps its newest artifact.
abbrev unlimited : Task
unlimited = record {
  id = 7;
  name = "nightly";
  connection_id = 1;
  dumper_opts = "{}";
  codec_chain = [];
  storage_id = 3;
  cron = "0 2 * * *";
  retention = record { keep_last = pos 0; gfs = none };
  notifiers = [];
  enabled = true;
  misfire = skip;
  retries = pos 2;
  timeout = pos 0;
  watchdog = pos 0;
  enabled_at = 0;
  created_at = 0;
}

abbrev newest_only : Task
newest_only = record unlimited { id = 8; retention = record { keep_last = pos 1; gfs = none } }

abbrev artifact : ℕ → Artifact
artifact i = record {
  id = i;
  run_id = i;
  storage_id = 3;
  key = "nightly/a";
  size = 10;
  checksum = "c0";
  created_at = i;
  expires_hint = none;
}

-- Artifact 1 is of task 7, the others are of task 8.
abbrev belongs : ℕ → Artifact → Bool
belongs task a = (if a.id == 1 then 7 else 8) == task

abbrev answers : Task → SweepAnswers
answers t = record {
  lists = true;
  turn = λ a. record { cancelled = false; opens = true; object_deletes = true; row_deletes = true };
  orphans = 0;
  orphans_failed = false;
  cancelled = false;
}

abbrev before : Stored
before = record { catalog = artifact 1 ∷ artifact 2 ∷ artifact 3 ∷ []; objects = [] }

only_task_8 : KeptBy belongs 1 (unlimited ∷ newest_only ∷ [])
unfolding is_enabled
only_task_8 = (λ e a h. absurd (ground (arith, e)), (λ e a h. ground (arith, h), tt))

sweep_tasks_untouched_example :
    contains
      (ids (sweep_tasks belongs answers (some (unlimited ∷ newest_only ∷ [])) before).1.catalog)
      1
    ≡ contains (ids before.catalog) 1
sweep_tasks_untouched_example =
    sweep_tasks_untouched belongs answers 1 (unlimited ∷ newest_only ∷ []) before only_task_8
