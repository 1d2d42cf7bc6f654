-- ===== src/Queue/Reap.antt =====
-- ReapStale (internal/store/sqlite/queue.go): what a restart leaves behind.
use duskrun.Base.{ℕ, ◌≡◌, refl, Bool, false, ◌&&◌, ◌||◌, List, [], ◌∷◌, map, arith, ◌==◌, All}
use duskrun.Queue.{Run, Table, is_queued, is_running, has_active, reap, reap_stale}

-- A queued run of the task.
abbrev pub has_queued : ℕ → List Run → Bool
has_queued task [] = false
has_queued task (r ∷ rs) = (is_queued r.status && r.task_id == task) || has_queued task rs

reap-none_running :
    (now : ℕ) (rs : List Run) → All (λ r. is_running r.status ≡ false) (map (reap now) rs)
reap-none_running now [] = tt
reap-none_running now (r ∷ rs) = (ground arith, reap-none_running now rs)

has_active-reap-eq-has_queued :
    (now task : ℕ) (rs : List Run) → has_active task (map (reap now) rs) ≡ has_queued task rs
has_active-reap-eq-has_queued now task [] = refl
has_active-reap-eq-has_queued now task (r ∷ rs) =
    ground (arith, has_active-reap-eq-has_queued now task rs)

-- After a restart no run is left running, and a task is held up only by a run that is still queued:
-- a task has an active run after ReapStale exactly if it had a queued one before.
pub reap_stale_frees :
    (now task : ℕ) (t : Table)
    → let t' = (reap_stale now t).1 in
      All (λ r. is_running r.status ≡ false) t'.runs
      × (has_active task t'.runs ≡ has_queued task t.runs)
unfolding reap_stale
reap_stale_frees now task t =
    (reap-none_running now t.runs, has_active-reap-eq-has_queued now task t.runs)
