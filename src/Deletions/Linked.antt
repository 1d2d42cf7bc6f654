-- ===== src/Deletions/Linked.antt =====
-- No deletion leaves a reference to a row that is gone (the foreign keys of migrations/0001_init.sql
-- with internal/store/sqlite/delete.go).
use duskrun.Base.{
  ℕ, ◌≡◌, refl, Bool, true, false, ◌||◌, not, List, [], ◌∷◌, ◌==◌, any, select, contains, All,
  arith, Bool-cases, inl, inr,
}
use duskrun.Model.{Task}
use duskrun.Queue.{Run}
use duskrun.Retention.Forget.{Artifact}
use duskrun.Deletions.{
  Catalog, without, uses_connection, uses_storage, lies_in, guarded, delete_connection,
  delete_storage, is_of, made_by, drop_task, has_task, delete_counted,
}

abbrev pub TaskLinked : Catalog → Task → Type 0
TaskLinked c t =
    (contains c.connections t.connection_id ≡ true) × (contains c.storages t.storage_id ≡ true)

abbrev pub ArtifactLinked : Catalog → Artifact → Type 0
ArtifactLinked c a = (made_by c.runs a ≡ true) × (contains c.storages a.storage_id ≡ true)

-- Every reference is to a row that is there.
pub record Linked (c : Catalog) : Type 0 where
  pub tasks : All (TaskLinked c) c.tasks
  pub runs : All (λ r. has_task r.task_id c.tasks ≡ true) c.runs
  pub artifacts : All (ArtifactLinked c) c.artifacts

module _ {ℓ κ μ} {A : Type ℓ} (P : A → Type κ) (Q : A → Type μ) (p : A → Bool) where
  All-select_by :
      ((x : A) → p x ≡ true → P x → Q x) → (xs : List A) → All P xs → All Q (select p xs)
  All-select_by f [] h = tt
  All-select_by f (x ∷ xs) h = elim (Bool-cases (p x)) [
    | inl e ↦ rw e (f x e h.0, All-select_by f xs h.1)
    | inr e ↦ rw e (All-select_by f xs h.1)
  ]

  All-unless :
      ((x : A) → p x ≡ false → P x → Q x) → (xs : List A) → any p xs ≡ false → All P xs → All Q xs
  All-unless f [] n h = tt
  All-unless f (x ∷ xs) n h = (f x (ground (arith, n)) h.0, All-unless f xs (ground (arith, n)) h.1)

contains-without :
    (i j : ℕ) (l : List ℕ)
    → (j == i) ≡ false
    → contains l j ≡ true
    → contains (without i l) j ≡ true
contains-without i j [] n h = h
contains-without i j (x ∷ l) n h = elim (Bool-cases (x == j)) [
  | inl e ↦ ground (arith, n, e)
  | inr e ↦ ground (arith, e, contains-without i j l n (ground (arith, e, h)))
]

has_task-select :
    (i j : ℕ) (l : List Task)
    → (j == i) ≡ false
    → has_task j l ≡ true
    → has_task j (select (λ t. not (t.id == i)) l) ≡ true
has_task-select i j [] n h = h
has_task-select i j (x ∷ l) n h = elim (Bool-cases (x.id == j)) [
  | inl e ↦ ground (arith, n, e)
  | inr e ↦ ground (arith, e, has_task-select i j l n (ground (arith, e, h)))
]

made_by-select :
    (a : Artifact) (q : Run → Bool) (l : List Run)
    → made_by l a ≡ true
    → made_by (select q l) a ≡ false
    → made_by (select (λ r. not (q r)) l) a ≡ true
made_by-select a q [] h n = h
made_by-select a q (r ∷ l) h n = elim (Bool-cases (q r)) [
  | inl e ↦
      let n' = simp e at n in
      rw e (made_by-select a q l (ground (arith, h, n')) (ground (arith, n')))
  | inr e ↦ elim (Bool-cases (r.id == a.run_id)) [
    | inl f ↦ rw e (ground (arith, f))
    | inr f ↦ rw e (ground (arith, f, made_by-select a q l (ground (arith, h, f)) (simp e at n)))
  ]
]

guarded-Linked :
    (is_used is_there : Bool) (c after : Catalog)
    → Linked c
    → (is_used ≡ false → Linked after)
    → Linked (guarded is_used is_there c after).1
guarded-Linked true is_there c after h k = h
guarded-Linked false true c after h k = k refl
guarded-Linked false false c after h k = h

delete_connection-Linked : (i : ℕ) (c : Catalog) → Linked c → Linked (delete_connection i c).1
unfolding delete_connection
delete_connection-Linked i c h =
    guarded-Linked (any (uses_connection i) c.tasks) (contains c.connections i) c _ h (λ free.
      record {
        tasks =
            All-unless (TaskLinked c) _ (uses_connection i)
              (λ t n l. (contains-without i t.connection_id c.connections n l.0, l.1)) c.tasks free
              h.tasks;
        runs = h.runs;
        artifacts = h.artifacts;
      })

delete_storage-Linked : (i : ℕ) (c : Catalog) → Linked c → Linked (delete_storage i c).1
unfolding delete_storage
delete_storage-Linked i c h =
    guarded-Linked (any (uses_storage i) c.tasks || any (lies_in i) c.artifacts)
      (contains c.storages i) c _ h
      (λ free. record {
        tasks =
            All-unless (TaskLinked c) _ (uses_storage i)
              (λ t n l. (l.0, contains-without i t.storage_id c.storages n l.1)) c.tasks
              (ground (arith, free)) h.tasks;
        runs = h.runs;
        artifacts =
            All-unless (ArtifactLinked c) _ (lies_in i)
              (λ a n l. (l.0, contains-without i a.storage_id c.storages n l.1)) c.artifacts
              (ground (arith, free)) h.artifacts;
      })

delete_counted-Linked :
    (is_active : Bool) (i : ℕ) (c : Catalog) → Linked c → Linked (delete_counted is_active i c).1
unfolding delete_counted drop_task
delete_counted-Linked is_active i c h = guarded-Linked is_active (has_task i c.tasks) c _ h (λ free.
    record {
      tasks =
          All-select_by (TaskLinked c) (TaskLinked c) (λ t. not (t.id == i)) (λ t e l. l) c.tasks
            h.tasks;
      runs =
          All-select_by (λ (r : Run). has_task r.task_id c.tasks ≡ true) _ (λ r. not (is_of i r))
            (λ r e l. has_task-select i r.task_id c.tasks (ground (arith, e)) l) c.runs h.runs;
      artifacts =
          All-select_by (ArtifactLinked c) _ (λ a. not (made_by (select (is_of i) c.runs) a))
            (λ a e l. (made_by-select a (is_of i) c.runs l.0 (ground (arith, e)), l.1)) c.artifacts
            h.artifacts;
    })

-- The statements that deletions make; of a task, with what was counted before.
pub data Step : Type 0 where
  connection storage : ℕ → Step
  task : Bool → ℕ → Step

unfoldable pub run_all : List Step → Catalog → Catalog
run_all [] c = c
run_all (connection i ∷ steps) c = run_all steps (delete_connection i c).1
run_all (storage i ∷ steps) c = run_all steps (delete_storage i c).1
run_all (task is_active i ∷ steps) c = run_all steps (delete_counted is_active i c).1

-- No deletion leaves a reference to a row that is gone: whatever connections, storages and tasks are
-- deleted in whatever order, and whatever the count of active runs was before a task is deleted, every
-- task has its connection and storage, every run its task and every artifact its run and storage
-- afterwards, if this held before.
pub run_all-Linked : (steps : List Step) (c : Catalog) → Linked c → Linked (run_all steps c)
unfolding run_all
run_all-Linked [] c h = h
run_all-Linked (connection i ∷ steps) c h =
    run_all-Linked steps (delete_connection i c).1 (delete_connection-Linked i c h)
run_all-Linked (storage i ∷ steps) c h =
    run_all-Linked steps (delete_storage i c).1 (delete_storage-Linked i c h)
run_all-Linked (task is_active i ∷ steps) c h =
    run_all-Linked steps (delete_counted is_active i c).1 (delete_counted-Linked is_active i c h)
