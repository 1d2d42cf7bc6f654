-- ===== src/Examples/Deleting.antt =====
-- Runs of internal/store/sqlite/delete.go.
use duskrun.Base.{◌≡◌, refl, pos, true, false, none, [], ◌∷◌}
use duskrun.Model.{Task, skip}
use duskrun.Queue.{Run, success, has_active}
use duskrun.Retention.Forget.{Artifact}
use duskrun.Deletions.{Catalog, delete_storage, delete_task, status, conflict}
use duskrun.Deletions.Linked.{Linked, connection, storage, task, run_all, run_all-Linked}
use duskrun.Deletions.Active.{delete_task-has_active}

abbrev job : Task
job = record {
  id = 1;
  name = "orders";
  connection_id = 1;
  dumper_opts = "{}";
  codec_chain = [];
  storage_id = 1;
  cron = "0 * * * *";
  retention = record { keep_last = pos 0; gfs = none };
  notifiers = [];
  enabled = true;
  misfire = skip;
  retries = pos 0;
  timeout = pos 0;
  watchdog = pos 0;
  enabled_at = 0;
  created_at = 0;
}

abbrev run : Run
run = record {
  id = 5;
  task_id = 1;
  status = success;
  worker = "";
  attempt = 1;
  started_at = none;
  finished_at = none;
  error = "";
  log = "";
  created_at = 0;
}

abbrev artifact : Artifact
artifact = record {
  id = 9;
  run_id = 5;
  storage_id = 1;
  key = "orders/a";
  size = 1;
  checksum = "";
  created_at = 0;
  expires_hint = none;
}

abbrev catalog : Catalog
catalog = record {
  connections = 1 ∷ 2 ∷ [];
  storages = 1 ∷ [];
  tasks = job ∷ [];
  runs = run ∷ [];
  artifacts = artifact ∷ [];
}

-- A storage that is used stays until the task is gone.
storage_run : status (delete_storage 1 catalog).0 ≡ conflict
unfolding delete_storage status
storage_run = refl

run_all-Linked_example :
    Linked (run_all (storage 1 ∷ connection 2 ∷ task false 1 ∷ storage 1 ∷ []) catalog)
run_all-Linked_example =
    run_all-Linked (storage 1 ∷ connection 2 ∷ task false 1 ∷ storage 1 ∷ []) catalog
      (record { tasks = ((refl, refl), tt); runs = (refl, tt); artifacts = ((refl, refl), tt) })

delete_task-has_active_example :
    has_active 1 (delete_task 1 catalog).1.runs ≡ has_active 1 catalog.runs
delete_task-has_active_example = delete_task-has_active 1 1 catalog
