-- ===== src/Queue/Insert.antt =====
-- Enqueue and Requeue (internal/store/sqlite/queue.go) on every branch.
use duskrun.Base.{
  List, ℕ, suc, ◌≡◌, refl, true, false, ◌||◌, [], ◌∷◌, contains, arith, ◌==◌, length, length-append,
  ◌+◌,
}
use duskrun.Queue.{Run, Table, ok, err, active_run, has_active, max_id, new_run, run_ids, enqueue}
use duskrun.Queue.Rows.{has_active-append, contains-above}

-- `Enqueue` on a task with a queued or running run answers ErrActiveRun and leaves the table alone.
-- On a task that exists and has no active run it answers an id that no run has, and from then on
-- the task has an active run, every other task has one exactly if it had, and the table has one row
-- more.
pub enqueue_cases :
    (now task other : ℕ) (t : Table)
    → (has_active task t.runs ≡ true → enqueue now task t ≡ (err active_run, t))
      × (has_active task t.runs ≡ false
          → contains t.tasks task ≡ true
          → let (r, t') = enqueue now task t in
            (r ≡ ok (suc (max_id t.runs)))
            × (contains (run_ids t.runs) (suc (max_id t.runs)) ≡ false)
            × (has_active other t'.runs ≡ (has_active other t.runs || task == other))
            × (length t'.runs ≡ length t.runs + 1))
unfolding enqueue
enqueue_cases now task other t = (λ h. ground arith, accepted)
  where
    row : List Run
    row = new_run now task 1 t.runs ∷ []

    accepted :
        has_active task t.runs ≡ false
        → contains t.tasks task ≡ true
        → let (r, t') = enqueue now task t in
          (r ≡ ok (suc (max_id t.runs)))
          × (contains (run_ids t.runs) (suc (max_id t.runs)) ≡ false)
          × (has_active other t'.runs ≡ (has_active other t.runs || task == other))
          × (length t'.runs ≡ length t.runs + 1)
    accepted h k =
        rw (h, k)
          (
            refl,
            contains-above (suc (max_id t.runs)) t.runs (omega arith),
            ground (arith, has_active-append other t.runs row),
            ground (arith, length-append t.runs row),
          )
