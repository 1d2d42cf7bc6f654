-- ===== src/Deletions.antt =====
-- Deletion of connections, storages and tasks (internal/store/sqlite/delete.go and
-- internal/api/handlers_delete.go) over the tables of migrations/0001_init.sql, with what their foreign
-- keys restrict and cascade to. Tables of which only the ids matter are lists of ids.
pub mod Linked
pub mod Active
use duskrun.Base.{ℕ, Bool, true, false, ◌||◌, not, List, ◌==◌, any, select, contains, if◌then◌else◌}
use duskrun.Model.{Task}
use duskrun.Queue.{Run, has_active}
use duskrun.Retention.Forget.{Artifact}

pub record Catalog : Type 0 where
  pub connections : List ℕ
  pub storages : List ℕ
  pub tasks : List Task
  pub runs : List Run
  pub artifacts : List Artifact

-- No error, ErrInUse, ErrNotFound.
pub data Deletion : Type 0 where
  deleted in_use not_found : Deletion

abbrev pub without : ℕ → List ℕ → List ℕ
without i = select (λ j. not (j == i))

abbrev pub uses_connection : ℕ → Task → Bool
uses_connection i t = t.connection_id == i

abbrev pub uses_storage : ℕ → Task → Bool
uses_storage i t = t.storage_id == i

abbrev pub lies_in : ℕ → Artifact → Bool
lies_in i a = a.storage_id == i

-- `deleteGuarded`, for whether a foreign key restricts the row and whether it is there.
abbrev pub guarded : Bool → Bool → Catalog → Catalog → Deletion × Catalog
guarded is_used is_there c after =
    if is_used then (in_use, c) else if is_there then (deleted, after) else (not_found, c)

-- `DeleteConnection`
unfoldable pub delete_connection : ℕ → Catalog → Deletion × Catalog
delete_connection i c =
    guarded (any (uses_connection i) c.tasks) (contains c.connections i) c
      (record c { connections = without i c.connections })

-- `DeleteStorage`
unfoldable pub delete_storage : ℕ → Catalog → Deletion × Catalog
delete_storage i c =
    guarded (any (uses_storage i) c.tasks || any (lies_in i) c.artifacts) (contains c.storages i) c
      (record c { storages = without i c.storages })

abbrev pub is_of : ℕ → Run → Bool
is_of i r = r.task_id == i

-- Whether a run of the list made the artifact.
abbrev pub made_by : List Run → Artifact → Bool
made_by runs a = any (λ r. r.id == a.run_id) runs

-- DELETE FROM task, with its runs and their artifacts.
unfoldable pub drop_task : ℕ → Catalog → Catalog
drop_task i c = record c {
  tasks = select (λ t. not (t.id == i)) c.tasks;
  runs = select (λ r. not (is_of i r)) c.runs;
  artifacts = select (λ a. not (made_by (select (is_of i) c.runs) a)) c.artifacts;
}

abbrev pub has_task : ℕ → List Task → Bool
has_task i = any (λ t. t.id == i)

-- The second statement of `DeleteTask`, for what the first one counted.
unfoldable pub delete_counted : Bool → ℕ → Catalog → Deletion × Catalog
unfolding drop_task
delete_counted is_active i c = guarded is_active (has_task i c.tasks) c (drop_task i c)

-- `DeleteTask`, where nothing comes between its two statements.
unfoldable pub delete_task : ℕ → Catalog → Deletion × Catalog
unfolding delete_counted
delete_task i c = delete_counted (has_active i c.runs) i c

-- `writeDeleteResult`
pub data DeleteStatus : Type 0 where
  no_content missing conflict : DeleteStatus

unfoldable pub status : Deletion → DeleteStatus
status deleted = no_content
status not_found = missing
status in_use = conflict
