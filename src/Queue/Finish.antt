-- ===== src/Queue/Finish.antt =====
-- `Finish` of internal/store/sqlite/queue.go with a terminal status.
use duskrun.Base.{
  ℕ, String, ◌≡◌, refl, false, Option, none, some, List, [], ◌∷◌, ◌==◌, arith, Bool-cases, inl, inr,
}
use duskrun.Queue.{
  Run, RunStatus, Table, ok, is_active, has_active, update_run, get_run, violates, finish, finished,
}
use duskrun.Queue.Invariant.{IsValid}

has_active-finished :
    (i task : ℕ) (f : Run → Run) (rs : List Run)
    → ((r : Run) → is_active (f r).status ≡ false)
    → has_active task rs ≡ false
    → has_active task (update_run i f rs) ≡ false
unfolding update_run
has_active-finished i task f [] h e = refl
has_active-finished i task f (r ∷ rs) h e = elim (Bool-cases (r.id == i)) [
  | inl k ↦ rw (k, h r) (has_active-finished i task f rs h (ground (arith, e)))
  | inr k ↦ ground (arith, k, e, has_active-finished i task f rs h)
]

pub violates-finished :
    (i : ℕ) (f : Run → Run) (rs : List Run)
    → ((r : Run) → is_active (f r).status ≡ false)
    → violates rs ≡ false
    → violates (update_run i f rs) ≡ false
unfolding update_run
violates-finished i f [] h v = refl
violates-finished i f (r ∷ rs) h v = elim (Bool-cases (r.id == i)) [
  | inl k ↦ rw (k, h r) (violates-finished i f rs h (ground (arith, v)))
  | inr k ↦ ground (arith, k, v, has_active-finished i r.task_id f rs h, violates-finished i f rs h)
]

-- A terminal status is never refused by the index.
pub finish_terminal :
    (i : ℕ) (status : RunStatus) (log error : String) (now : ℕ) (t : Table)
    → IsValid t
    → is_active status ≡ false
    → finish i status log error now t
      ≡ (ok tt, record t { runs = update_run i (finished status log error now) t.runs })
unfolding finish
finish_terminal i status log error now t v s =
    rw (violates-finished i (finished status log error now) t.runs (λ r. s) v.single) refl

-- The row of an updated id.
abbrev pub update_found : (Run → Run) → Option Run → Option Run
update_found f none = none
update_found f (some r) = some (f r)

pub get_run-update :
    (i : ℕ) (f : Run → Run) (rs : List Run)
    → ((r : Run) → (f r).id ≡ r.id)
    → get_run i (update_run i f rs) ≡ update_found f (get_run i rs)
unfolding update_run
get_run-update i f [] h = refl
get_run-update i f (r ∷ rs) h = elim (Bool-cases (r.id == i)) [
  | inl e ↦ rw (e, h r, e) refl
  | inr e ↦ rw (e, e) (get_run-update i f rs h)
]
