-- ===== src/Queue/Rows.antt =====
-- The rows of table `run` under INSERT and UPDATE (internal/store/sqlite/queue.go): their ids, and
-- the entries of the index ux_run_active.
use duskrun.Base.{
  ℕ, ◌<◌, ◌≡◌, refl, true, false, ◌||◌, List, [], ◌∷◌, ◌++◌, map, ◌==◌, contains, contains-append,
  arith, Bool-cases, inl, inr, All, Distinct, ap,
}
use duskrun.Queue.{Run, is_active, run_ids, has_active, max_id, update_run, violates, reap}

pub contains-above : (i : ℕ) (rs : List Run) → max_id rs < i → contains (run_ids rs) i ≡ false
contains-above i [] h = refl
contains-above i (r ∷ rs) h = ground (arith, contains-above i rs)

pub run_ids-append : (xs ys : List Run) → run_ids (xs ++ ys) ≡ run_ids xs ++ run_ids ys
run_ids-append [] ys = refl
run_ids-append (x ∷ xs) ys = ap (◌∷◌ x.id) (run_ids-append xs ys)

pub Distinct-append_one :
    (xs : List ℕ) (i : ℕ) → contains xs i ≡ false → Distinct xs → Distinct (xs ++ i ∷ [])
Distinct-append_one [] i n d = (refl, tt)
Distinct-append_one (x ∷ xs) i n d = (
  ground (arith, d.0, contains-append xs (i ∷ []) x),
  Distinct-append_one xs i (ground arith) d.1,
)

pub has_active-append :
    (task : ℕ) (xs ys : List Run)
    → has_active task (xs ++ ys) ≡ (has_active task xs || has_active task ys)
has_active-append task [] ys = refl
has_active-append task (x ∷ xs) ys = ground (arith, has_active-append task xs ys)

pub violates-append_one :
    (xs : List Run) (r : Run)
    → violates xs ≡ false
    → has_active r.task_id xs ≡ false
    → violates (xs ++ r ∷ []) ≡ false
violates-append_one [] r v h = ground arith
violates-append_one (x ∷ xs) r v h =
    ground (arith, has_active-append x.task_id xs (r ∷ []), violates-append_one xs r)

pub All-append_one {ℓ κ} :
    {A : Type ℓ} (P : A → Type κ) (xs : List A) (a : A) → All P xs → P a → All P (xs ++ a ∷ [])
All-append_one P [] a h p = (p, tt)
All-append_one P (x ∷ xs) a h p = (h.0, All-append_one P xs a h.1 p)

pub run_ids-update :
    (i : ℕ) (f : Run → Run) (rs : List Run)
    → ((r : Run) → (f r).id ≡ r.id)
    → run_ids (update_run i f rs) ≡ run_ids rs
unfolding update_run
run_ids-update i f [] h = refl
run_ids-update i f (r ∷ rs) h = ground (arith, h r, run_ids-update i f rs h)

pub All-update {κ} :
    (P : Run → Type κ) (i : ℕ) (f : Run → Run) (rs : List Run)
    → ((r : Run) → P r → P (f r))
    → All P rs
    → All P (update_run i f rs)
unfolding update_run
All-update P i f [] h a = tt
All-update P i f (r ∷ rs) h a = elim (Bool-cases (r.id == i)) [
  | inl e ↦ rw e (h r a.0, All-update P i f rs h a.1)
  | inr e ↦ rw e (a.0, All-update P i f rs h a.1)
]

-- An update that leaves the task and the activity of its rows alone leaves the index alone.
abbrev pub KeepsIndex : ℕ → (Run → Run) → Run → Type 0
KeepsIndex i f r =
    (r.id == i) ≡ true → ((f r).task_id ≡ r.task_id) × (is_active (f r).status ≡ is_active r.status)

pub has_active-update :
    (i : ℕ) (f : Run → Run) (task : ℕ) (rs : List Run)
    → All (KeepsIndex i f) rs
    → has_active task (update_run i f rs) ≡ has_active task rs
unfolding update_run
has_active-update i f task [] h = refl
has_active-update i f task (r ∷ rs) h = ground (arith, h.0, has_active-update i f task rs h.1)

pub violates-update :
    (i : ℕ) (f : Run → Run) (rs : List Run)
    → All (KeepsIndex i f) rs
    → violates (update_run i f rs) ≡ violates rs
unfolding update_run
violates-update i f [] h = refl
violates-update i f (r ∷ rs) h = ground (
  arith,
  h.0,
  has_active-update i f r.task_id rs h.1,
  has_active-update i f (f r).task_id rs h.1,
  violates-update i f rs h.1,
)

pub reap-id : (now : ℕ) (r : Run) → (reap now r).id ≡ r.id
reap-id now r = ground arith

pub run_ids-reap : (now : ℕ) (rs : List Run) → run_ids (map (reap now) rs) ≡ run_ids rs
run_ids-reap now [] = refl
run_ids-reap now (r ∷ rs) = ground (arith, run_ids-reap now rs)

pub All-reap :
    (tasks : List ℕ) (now : ℕ) (rs : List Run)
    → All (λ r. contains tasks r.task_id ≡ true) rs
    → All (λ r. contains tasks r.task_id ≡ true) (map (reap now) rs)
All-reap tasks now [] h = tt
All-reap tasks now (r ∷ rs) h = (ground (arith, h.0), All-reap tasks now rs h.1)

pub has_active-reap :
    (now task : ℕ) (rs : List Run)
    → has_active task rs ≡ false
    → has_active task (map (reap now) rs) ≡ false
has_active-reap now task [] h = refl
has_active-reap now task (r ∷ rs) h = ground (arith, has_active-reap now task rs)

pub violates-reap :
    (now : ℕ) (rs : List Run) → violates rs ≡ false → violates (map (reap now) rs) ≡ false
violates-reap now [] h = refl
violates-reap now (r ∷ rs) h =
    ground (arith, has_active-reap now r.task_id rs, violates-reap now rs)
