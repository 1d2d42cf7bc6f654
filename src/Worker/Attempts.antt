-- ===== src/Worker/Attempts.antt =====
-- The number of attempts of a task's runs (internal/core/worker.go, internal/store/sqlite/queue.go).
use duskrun.Base.{
  ℕ, pos, ltb_ℤ, ◌+ℤ◌, pos_part, max, ◌≤◌, ◌≡◌, String, false, Option, none, some, List, All, arith,
  Bool-cases, Option-cases, inl, inr, contains,
}
use duskrun.Model.{Task}
use duskrun.Queue.{
  Run, RunStatus, Table, has_active, insert_run, requeue, update_run, claim_next, claimed,
  oldest_queued, finish, finished, violates,
}
use duskrun.Queue.Rows.{All-append_one, All-update}

-- No more attempts than the task's retries and the first run; nothing is said of a missing task.
abbrev pub Within : Option Task → ℕ → Type 0
Within none n = Unit
Within (some t) n = n ≤ max 1 (pos_part (t.retries +ℤ pos 1))

abbrev pub AttemptsWithin : (ℕ → Option Task) → List Run → Type 0
AttemptsWithin get_task rs = All (λ r. Within (get_task r.task_id) r.attempt) rs

module _ (get_task : ℕ → Option Task) where
  insert_run-AttemptsWithin :
      (now task attempt : ℕ) (t : Table)
      → Within (get_task task) attempt
      → AttemptsWithin get_task t.runs
      → AttemptsWithin get_task (insert_run now task attempt t).1.runs
  unfolding insert_run
  insert_run-AttemptsWithin now task attempt t n h = elim (Bool-cases (has_active task t.runs)) [
    | inl e ↦ rw e h
    | inr e ↦ elim (Bool-cases (contains t.tasks task)) [
      | inl f ↦ rw (e, f) (All-append_one _ t.runs _ h n)
      | inr f ↦ rw (e, f) h
    ]
  ]

  -- A requeue within the attempts that the caller passes.
  pub requeue-AttemptsWithin :
      (now next_attempt : ℕ) (t : Task) (q : Table)
      → get_task t.id ≡ some t
      → AttemptsWithin get_task q.runs
      → AttemptsWithin get_task (requeue now t.id next_attempt (t.retries +ℤ pos 1) q).1.runs
  unfolding requeue
  requeue-AttemptsWithin now next_attempt t q g h =
      elim (Bool-cases (ltb_ℤ (t.retries +ℤ pos 1) (pos next_attempt))) [
        | inl e ↦ rw e h
        | inr e ↦
            rw e
              (insert_run-AttemptsWithin now t.id next_attempt q (rw g (omega (arith, below e))) h)
      ]
    where
      below :
          ltb_ℤ (t.retries +ℤ pos 1) (pos next_attempt) ≡ false
          → next_attempt ≤ max 1 (pos_part (t.retries +ℤ pos 1))
      below e = ground arith

  pub claim_next-AttemptsWithin :
      (worker : String) (now : ℕ) (q : Table)
      → AttemptsWithin get_task q.runs
      → AttemptsWithin get_task (claim_next worker now q).1.runs
  unfolding claim_next
  claim_next-AttemptsWithin worker now q h = elim (Option-cases (oldest_queued q.runs)) [
    | inl e ↦ rw (e, claim_next) h
    | inr (r, e) ↦ rw (e, claim_next) (All-update _ r.id (claimed worker now) q.runs (λ s a. a) h)
  ]

  pub finish-AttemptsWithin :
      (id : ℕ) (status : RunStatus) (log error : String) (now : ℕ) (q : Table)
      → AttemptsWithin get_task q.runs
      → AttemptsWithin get_task (finish id status log error now q).1.runs
  unfolding finish
  finish-AttemptsWithin id status log error now q h =
      let f = finished status log error now in
      elim (Bool-cases (violates (update_run id f q.runs))) [
        | inl e ↦ rw e h
        | inr e ↦ rw e (All-update _ id f q.runs (λ s a. a) h)
      ]
