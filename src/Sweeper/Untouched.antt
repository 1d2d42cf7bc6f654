-- ===== src/Sweeper/Untouched.antt =====
-- What a sweep keeps (internal/core/sweep.go).
use duskrun.Base.{
  ℕ, ◌≡◌, refl, ◌∙◌, Bool, true, false, some, List, [], ◌∷◌, ◌==◌, select, contains, All,
  All-select, arith, Bool-cases, inl, inr,
}
use duskrun.Model.{Task}
use duskrun.Retention.Policy.{Policy, is_enabled}
use duskrun.Retention.Forget.{Artifact, ids, forget, newest_first}
use duskrun.Retention.Forget.Order.{All-newest_first}
use duskrun.Retention.Prune.{prune}
use duskrun.Retention.Prune.Safety.{prune_untouched}
use duskrun.Sweeper.{Stored, SweepAnswers, Totals, prune_task, sweep_loop, sweep_tasks}

-- No artifact of the id belongs to a task with a policy.
abbrev pub KeptBy : (ℕ → Artifact → Bool) → ℕ → List Task → Type 0
KeptBy belongs i tasks =
    All
      (λ t.
        is_enabled t.retention ≡ true
        → (a : Artifact) → (a.id == i) ≡ true
        → belongs t.id a ≡ false)
      tasks

absent_of :
    (i : ℕ) (l : List Artifact) → All (λ a. (a.id == i) ≡ false) l → contains (ids l) i ≡ false
absent_of i [] h = refl
absent_of i (a ∷ l) h = ground (arith, h.0, absent_of i l h.1)

not_listed :
    (belongs : Artifact → Bool) (i : ℕ) (l : List Artifact)
    → ((a : Artifact) → (a.id == i) ≡ true → belongs a ≡ false)
    → All (λ a. (a.id == i) ≡ false) (select belongs l)
not_listed belongs i [] h = tt
not_listed belongs i (a ∷ l) h = elim (Bool-cases (belongs a)) [
  | inr e ↦ rw e (not_listed belongs i l h)
  | inl e ↦ elim (Bool-cases (a.id == i)) [
    | inl f ↦ absurd (ground (arith, e, h a f))
    | inr f ↦ rw e (f, not_listed belongs i l h)
  ]
]

not_deleted :
    (ret : Policy) (i : ℕ) (artifacts : List Artifact)
    → All (λ a. (a.id == i) ≡ false) artifacts
    → contains (ids (forget ret artifacts).1) i ≡ false
unfolding forget
not_deleted ret i artifacts h =
    absent_of i _ (All-select _ _ (newest_first artifacts) (All-newest_first _ artifacts h))

prune_task_untouched :
    (belongs : ℕ → Artifact → Bool) (ans : SweepAnswers) (t : Task) (i : ℕ) (s : Stored)
    → (is_enabled t.retention ≡ true → (a : Artifact) → (a.id == i) ≡ true → belongs t.id a ≡ false)
    → contains (ids (prune_task belongs ans t s).catalog) i ≡ contains (ids s.catalog) i
unfolding prune_task
prune_task_untouched belongs ans t i s h = elim (Bool-cases (is_enabled t.retention)) [
  | inr e ↦ simp e
  | inl e ↦ elim (Bool-cases ans.lists) [
    | inr f ↦ rw (e, f, prune) refl
    | inl f ↦
        let artifacts = select (belongs t.id) s.catalog in
        simp (e, f)
          (prune_untouched t.retention ans.turn i artifacts s.catalog s.objects
            (not_deleted t.retention i artifacts (not_listed (belongs t.id) i s.catalog (h e))))
  ]
]

sweep_loop_untouched :
    (belongs : ℕ → Artifact → Bool) (answers : Task → SweepAnswers) (i : ℕ) (ts : List Task)
    (totals : Totals) (s : Stored)
    → KeptBy belongs i ts
    → contains (ids (sweep_loop belongs answers ts (totals, s)).1.catalog) i
      ≡ contains (ids s.catalog) i
unfolding sweep_loop
sweep_loop_untouched belongs answers i [] totals s h = refl
sweep_loop_untouched belongs answers i (t ∷ ts) totals s h =
    let here = prune_task_untouched belongs (answers t) t i s h.0 in
    elim (Bool-cases (answers t).cancelled) [
      | inl e ↦ simp e here
      | inr e ↦ simp e (sweep_loop_untouched belongs answers i ts _ _ h.1 ∙ here)
    ]

-- A sweep deletes by policy only: the row of an artifact that belongs to no task with a policy is in
-- the catalog after the sweep exactly if it was before, whatever the calls answer for any task.
pub sweep_tasks_untouched :
    (belongs : ℕ → Artifact → Bool) (answers : Task → SweepAnswers) (i : ℕ) (tasks : List Task)
    (s : Stored)
    → KeptBy belongs i tasks
    → contains (ids (sweep_tasks belongs answers (some tasks) s).1.catalog) i
      ≡ contains (ids s.catalog) i
unfolding sweep_tasks
sweep_tasks_untouched belongs answers i tasks s h =
    sweep_loop_untouched belongs answers i tasks _ s h
