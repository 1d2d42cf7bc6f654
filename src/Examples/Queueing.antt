-- ===== src/Examples/Queueing.antt =====
-- Runs of internal/store/sqlite/queue.go.
use duskrun.Base.{◌<◌, refl, List, [], ◌∷◌, ◌++◌}
use duskrun.Queue.{Run, Table, success, new_run, claim_next, returned}
use duskrun.Queue.Invariant.{
  IsValid, Statement, enqueues, claims, finishes, reaps, execute_all, execute_all-IsValid,
}
use duskrun.Queue.Claim.{IsClaim, claim_next-IsClaim, claim_next-claim_next}

-- Tasks 7 and 8, no run yet.
abbrev empty : Table
empty = record { tasks = 7 ∷ 8 ∷ []; runs = [] }

empty-IsValid : IsValid empty
empty-IsValid = record { distinct = tt; referenced = tt; single = refl }

-- Both tasks queued, the second tick of task 7 refused, run 1 claimed.
abbrev two_queued : Table
two_queued = record {
  tasks = 7 ∷ 8 ∷ [];
  runs = new_run 100 7 1 [] ∷ new_run 100 8 1 (new_run 100 7 1 [] ∷ []) ∷ [];
}

abbrev start : List Statement
start = enqueues 100 7 ∷ enqueues 100 8 ∷ enqueues 130 7 ∷ []

execute_all-IsValid_example :
    IsValid
      (execute_all empty (start ++ claims "w0" 131 ∷ finishes 1 success "" "" 140 ∷ reaps 150 ∷ []))
execute_all-IsValid_example =
    execute_all-IsValid empty
      (start ++ claims "w0" 131 ∷ finishes 1 success "" "" 140 ∷ reaps 150 ∷ []) empty-IsValid

two_queued-IsValid : IsValid two_queued
two_queued-IsValid = record {
  distinct = (refl, (refl, tt));
  referenced = (refl, (refl, tt));
  single = refl;
}

abbrev first_claim : Run
first_claim = returned "w0" 131 (new_run 100 7 1 [])

abbrev second_claim : Run
second_claim = returned "w1" 132 (new_run 100 8 1 (new_run 100 7 1 [] ∷ []))

claim_next-IsClaim_example :
    IsClaim "w0" 131 two_queued first_claim (claim_next "w0" 131 two_queued).1
unfolding claim_next
claim_next-IsClaim_example =
    claim_next-IsClaim "w0" 131 two_queued first_claim two_queued-IsValid refl

claim_next-claim_next_example : first_claim.id < second_claim.id
unfolding claim_next
claim_next-claim_next_example =
    claim_next-claim_next "w0" "w1" 131 132 two_queued first_claim second_claim two_queued-IsValid
      refl refl
