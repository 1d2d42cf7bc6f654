-- ===== src/Queue/Invariant.antt =====
-- What holds of the table `run` between two statements (internal/store/sqlite/queue.go).
use duskrun.Base.{
  ℤ, pos, ltb_ℤ, ℕ, suc, String, ◌≡◌, refl, true, false, List, [], ◌∷◌, ◌==◌, contains, arith,
  Bool-cases, Option-cases, inl, inr, All, Distinct, ◌∙◌,
}
use duskrun.Queue.{
  Run, RunStatus, Table, is_queued, is_active, run_ids, has_active, max_id, insert_run, enqueue,
  requeue, update_run, oldest_queued, claimed, claim_next, violates, finish, finished, reap_stale,
}
use duskrun.Queue.Rows.{
  KeepsIndex, contains-above, run_ids-append, Distinct-append_one, violates-append_one,
  All-append_one, run_ids-update, All-update, violates-update, run_ids-reap, All-reap,
  violates-reap,
}
use duskrun.Queue.Oldest.{queued_at_oldest}

-- Ids are unique, each run's task exists, and no task has two active runs.
pub record IsValid (t : Table) : Type 0 where
  pub distinct : Distinct (run_ids t.runs)
  pub referenced : All (λ r. contains t.tasks r.task_id ≡ true) t.runs
  pub single : violates t.runs ≡ false

pub insert_run-IsValid :
    (now task attempt : ℕ) (t : Table) → IsValid t → IsValid (insert_run now task attempt t).1
unfolding insert_run
insert_run-IsValid now task attempt t v = elim (Bool-cases (has_active task t.runs)) [
  | inl e ↦ rw e v
  | inr e ↦ elim (Bool-cases (contains t.tasks task)) [
    | inl f ↦
        rw (e, f)
          (record {
            distinct = rw (run_ids-append t.runs _) (
                Distinct-append_one (run_ids t.runs) (suc (max_id t.runs))
                  (contains-above _ t.runs (omega arith)) v.distinct);
            referenced = All-append_one _ t.runs _ v.referenced f;
            single = violates-append_one t.runs _ v.single e;
          })
    | inr f ↦ rw (e, f) v
  ]
]

pub requeue-IsValid :
    (now task next_attempt : ℕ) (max_attempts : ℤ) (t : Table)
    → IsValid t
    → IsValid (requeue now task next_attempt max_attempts t).1
unfolding requeue
requeue-IsValid now task next_attempt max_attempts t v =
    elim (Bool-cases (ltb_ℤ max_attempts (pos next_attempt))) [
      | inl e ↦ rw e v
      | inr e ↦ rw e (insert_run-IsValid now task next_attempt t v)
    ]

claimed-KeepsIndex :
    (worker : String) (now i : ℕ) (rs : List Run)
    → All (λ s. (s.id == i) ≡ true → is_queued s.status ≡ true) rs
    → All (KeepsIndex i (claimed worker now)) rs
claimed-KeepsIndex worker now i [] h = tt
claimed-KeepsIndex worker now i (r ∷ rs) h =
    (λ e. (refl, active (h.0 e)), claimed-KeepsIndex worker now i rs h.1)
  where
    active : is_queued r.status ≡ true → true ≡ is_active r.status
    active q = ground arith

pub claim_next-IsValid :
    (worker : String) (now : ℕ) (t : Table) → IsValid t → IsValid (claim_next worker now t).1
unfolding claim_next
claim_next-IsValid worker now t v = elim (Option-cases (oldest_queued t.runs)) [
  | inl e ↦ rw (e, claim_next) v
  | inr (r, e) ↦
      rw (e, claim_next)
        (record {
          distinct = rw (run_ids-update r.id (claimed worker now) t.runs (λ q. refl)) v.distinct;
          referenced = All-update _ r.id (claimed worker now) t.runs (λ q h. h) v.referenced;
          single =
              violates-update r.id (claimed worker now) t.runs
                (claimed-KeepsIndex worker now r.id t.runs (queued_at_oldest t.runs r v.distinct e))
              ∙ v.single;
        })
]

pub finish-IsValid :
    (id : ℕ) (status : RunStatus) (log error : String) (now : ℕ) (t : Table)
    → IsValid t
    → IsValid (finish id status log error now t).1
unfolding finish
finish-IsValid id status log error now t v =
    let f = finished status log error now in
    elim (Bool-cases (violates (update_run id f t.runs))) [
      | inl e ↦ rw e v
      | inr e ↦ rw e (record {
        distinct = rw (run_ids-update id f t.runs (λ q. refl)) v.distinct;
        referenced = All-update _ id f t.runs (λ q h. h) v.referenced;
        single = e;
      })
    ]

pub reap_stale-IsValid : (now : ℕ) (t : Table) → IsValid t → IsValid (reap_stale now t).1
unfolding reap_stale
reap_stale-IsValid now t v = record {
  distinct = rw (run_ids-reap now t.runs) v.distinct;
  referenced = All-reap t.tasks now t.runs v.referenced;
  single = violates-reap now t.runs v.single;
}

-- The statements of the queue, as any interleaving of workers, schedulers and restarts issues them.
pub data Statement : Type 0 where
  enqueues : (now task : ℕ) → Statement
  requeues : (now task next_attempt : ℕ) (max_attempts : ℤ) → Statement
  claims : (worker : String) (now : ℕ) → Statement
  finishes : (id : ℕ) (status : RunStatus) (log error : String) (now : ℕ) → Statement
  reaps : (now : ℕ) → Statement

pub execute : Table → Statement → Table
execute t (enqueues now task) = (enqueue now task t).1
execute t (requeues now task next_attempt max_attempts) =
    (requeue now task next_attempt max_attempts t).1
execute t (claims worker now) = (claim_next worker now t).1
execute t (finishes id status log error now) = (finish id status log error now t).1
execute t (reaps now) = (reap_stale now t).1

execute-IsValid : (t : Table) (s : Statement) → IsValid t → IsValid (execute t s)
unfolding execute
execute-IsValid t (enqueues now task) v = unfold enqueue in insert_run-IsValid now task 1 t v
execute-IsValid t (requeues now task next_attempt max_attempts) v =
    requeue-IsValid now task next_attempt max_attempts t v
execute-IsValid t (claims worker now) v = claim_next-IsValid worker now t v
execute-IsValid t (finishes id status log error now) v = finish-IsValid id status log error now t v
execute-IsValid t (reaps now) v = reap_stale-IsValid now t v

unfoldable pub execute_all : Table → List Statement → Table
unfolding execute
execute_all t [] = t
execute_all t (s ∷ ss) = execute_all (execute t s) ss

-- No interleaving of the queue's statements breaks the table: from a valid table every sequence of
-- enqueues, requeues, claims, finishes and reaps leads to one in which ids are unique, every run's
-- task exists, and no task has two runs that are queued or running.
pub execute_all-IsValid : (t : Table) (ss : List Statement) → IsValid t → IsValid (execute_all t ss)
unfolding execute_all
execute_all-IsValid t [] v = v
execute_all-IsValid t (s ∷ ss) v = execute_all-IsValid (execute t s) ss (execute-IsValid t s v)
