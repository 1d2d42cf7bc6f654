-- ===== src/Deletions/Active.antt =====
-- What a deletion does to queued and running runs (`DeleteTask` of internal/store/sqlite/delete.go).
use duskrun.Base.{
  ℕ, ◌≡◌, refl, true, false, not, List, [], ◌∷◌, ◌++◌, ◌==◌, any, select, arith, Bool-cases, inl,
  inr,
}
use duskrun.Queue.{Run, has_active}
use duskrun.Deletions.{Catalog, deleted, is_of, drop_task, has_task, delete_counted, delete_task}

-- The runs of a task without an active one can go.
has_active-select :
    (i j : ℕ) (runs : List Run)
    → has_active i runs ≡ false
    → has_active j (select (λ r. not (is_of i r)) runs) ≡ has_active j runs
has_active-select i j [] h = refl
has_active-select i j (r ∷ runs) h = elim (Bool-cases (r.task_id == i)) [
  | inl e ↦ ground (arith, e, h, has_active-select i j runs (ground (arith, h)))
  | inr e ↦ ground (arith, e, h, has_active-select i j runs (ground (arith, h)))
]

-- A dump in flight is not yanked out: where nothing comes between the two statements of a task's
-- deletion, every task has an active run afterwards exactly if it had one, whatever the answer.
pub delete_task-has_active :
    (i j : ℕ) (c : Catalog) → has_active j (delete_task i c).1.runs ≡ has_active j c.runs
unfolding delete_task delete_counted drop_task
delete_task-has_active i j c = elim (Bool-cases (has_active i c.runs)) [
  | inl e ↦ rw e refl
  | inr e ↦ elim (Bool-cases (has_task i c.tasks)) [
    | inl f ↦ rw (e, f) (has_active-select i j c.runs e)
    | inr f ↦ rw (e, f) refl
  ]
]

no_run_of : (i : ℕ) (runs : List Run) → any (is_of i) (select (λ r. not (is_of i r)) runs) ≡ false
no_run_of i [] = refl
no_run_of i (r ∷ runs) = ground (arith, no_run_of i runs)

-- The two statements are no transaction: a run that is added between them goes with the task, be it
-- claimed by then or not, and the deletion is answered as done.
pub delete_counted-loses :
    (i : ℕ) (c : Catalog) (r : Run)
    → has_active i c.runs ≡ false
    → has_task i c.tasks ≡ true
    → let x = delete_counted (has_active i c.runs) i (record c { runs = c.runs ++ r ∷ [] }) in
      (x.0 ≡ deleted) × (any (is_of i) x.1.runs ≡ false)
unfolding delete_counted drop_task
delete_counted-loses i c r e f = rw (e, f) (refl, no_run_of i (c.runs ++ r ∷ []))
