-- ===== src/Dispatcher/Ticks.antt =====
-- `Tick` over the run queue (internal/core/dispatcher.go with internal/store/sqlite/queue.go as its
-- DispatchStore).
use duskrun.Base.{
  ℕ, ◌+◌, ◌≡◌, ◌<◌, ◌≤◌, inl, inr, Bool-cases, refl, subst, sym, Bool, true, false, ◌||◌, ◌&&◌,
  Option, some, List, [], ◌∷◌, arith, ◌==◌, contains, All, length, length-append,
}
use duskrun.Model.{Task}
use duskrun.Queue
use duskrun.Queue.{
  Table, Run, ok, err, active_run, foreign_key, no_run, has_active, new_run, max_id,
}
use duskrun.Queue.Rows.{has_active-append}
use duskrun.Dispatcher.{
  Cron, Enqueued, enqueued, already_active, enqueue_failed, DispatchStore, Dispatcher, dispatch,
  dispatch_all, tick,
}
use duskrun.Dispatcher.Windows.{is_due}

-- `errors.Is(err, ErrAlreadyActive)`: ErrActiveRun of the store is that error.
abbrev pub classify : Queue.Result ℕ → Enqueued
classify (ok id) = enqueued id
classify (err active_run) = already_active
classify (err foreign_key) = enqueue_failed
classify (err no_run) = enqueue_failed

-- The sqlite store at the time `unix`, with `list` for ListEnabledTasks.
abbrev pub queue_store : (Table → Option (List Task)) → ℕ → DispatchStore Table
queue_store list unix = record {
  list_enabled_tasks = list;
  enqueue = λ t id. let (r, t') = Queue.enqueue unix id t in (classify r, t');
}

-- Some listed task of the id is due.
abbrev pub any_due : Cron → ℕ → ℕ → ℕ → List Task → Bool
any_due cron last now i [] = false
any_due cron last now i (t ∷ ts) =
    (t.id == i && is_due cron last now t) || any_due cron last now i ts

module _ (cron : Cron) (list : Table → Option (List Task)) (unix last now : ℕ) where
  abbrev db : DispatchStore Table
  db = queue_store list unix

  dispatch_active :
      (i : ℕ) (t : Task) (s : Table) (n : ℕ)
      → contains s.tasks t.id ≡ true
      → let (s', n') = dispatch cron db last now t (s, n) in
        (has_active i s'.runs ≡ (has_active i s.runs || (t.id == i && is_due cron last now t)))
        × (s'.tasks ≡ s.tasks)
        × (length s'.runs + n ≡ length s.runs + n')
  unfolding dispatch is_due Queue.enqueue
  dispatch_active i t s n k =
      let row = new_run unix t.id 1 s.runs ∷ [] in
      ground (arith, has_active-append i s.runs row, length-append s.runs row)

  dispatch_all_active :
      (i : ℕ) (ts : List Task) (s : Table) (n : ℕ)
      → All (λ t. contains s.tasks t.id ≡ true) ts
      → let (s', n') = dispatch_all cron db last now ts (s, n) in
        (has_active i s'.runs ≡ (has_active i s.runs || any_due cron last now i ts))
        × (length s'.runs + n ≡ length s.runs + n')
  unfolding dispatch_all
  dispatch_all_active i [] s n h = (ground arith, refl)
  dispatch_all_active i (t ∷ ts) s n h =
      let (s', n') = dispatch cron db last now t (s, n) in
      let one = dispatch_active i t s n h.0 in
      let rest =
        dispatch_all_active i ts s' n'
          (subst (λ tasks. All (λ q. contains tasks q.id ≡ true) ts) (sym one.1) h.1) in
      (ground (arith, one.0, rest.0), omega (arith, one.2, rest.1))

  dispatch_counts :
      (i : ℕ) (t : Task) (s : Table) (n : ℕ)
      → let (s', n') = dispatch cron db last now t (s, n) in
        (n ≤ n') × (has_active i s.runs ≡ false → has_active i s'.runs ≡ true → n < n')
  unfolding dispatch Queue.enqueue
  dispatch_counts i t s n = (
    ground arith,
    λ h k. ground (arith, has_active-append i s.runs (new_run unix t.id 1 s.runs ∷ [])),
  )

  -- A tick that makes a task active has counted a run.
  pub dispatch_all_counts :
      (i : ℕ) (ts : List Task) (s : Table) (n : ℕ)
      → let (s', n') = dispatch_all cron db last now ts (s, n) in
        (n ≤ n') × (has_active i s.runs ≡ false → has_active i s'.runs ≡ true → n < n')
  unfolding dispatch_all
  dispatch_all_counts i [] s n = (omega arith, λ h k. ground (arith, h, k))
  dispatch_all_counts i (t ∷ ts) s n =
      let (s', n') = dispatch cron db last now t (s, n) in
      let one = dispatch_counts i t s n in
      let rest = dispatch_all_counts i ts s' n' in
      (
        omega (arith, one.0, rest.0),
        λ h k. elim (Bool-cases (has_active i s'.runs)) [
          | inl e ↦ omega (arith, one.1 h e, rest.0)
          | inr e ↦ omega (arith, one.0, rest.1 e k)
        ],
      )

-- A tick queues what `is_due` says and nothing else: where the listing answers tasks of the table, a task
-- has an active run after the tick exactly if it had one before or a listed task of its id is due
-- in the window from the last tick to now; the answered number is that of the runs added; and the
-- next window begins at now.
pub tick-dispatches :
    (cron : Cron) (list : Table → Option (List Task)) (unix now i : ℕ) (d : Dispatcher Table)
    (ts : List Task)
    → list d.store ≡ some ts
    → All (λ t. contains d.store.tasks t.id ≡ true) ts
    → let (n, d') = tick cron (queue_store list unix) now d in
      (has_active i d'.store.runs
        ≡ (has_active i d.store.runs || any_due cron d.last_tick now i ts))
      × (d'.last_tick ≡ now)
      × ((k : ℕ) × (n ≡ some k) × (length d'.store.runs ≡ length d.store.runs + k))
unfolding tick
tick-dispatches cron list unix now i d ts e h =
    let all = dispatch_all_active cron list unix d.last_tick now i ts d.store 0 h in
    rw (e, tick) (all.0, refl, (_, refl, omega (arith, all.1)))

-- The number that a tick answers counts the runs it made: where it made the task `i` active, it is
-- not 0.
pub tick-counts :
    (cron : Cron) (list : Table → Option (List Task)) (unix now i : ℕ) (d : Dispatcher Table)
    (ts : List Task)
    → list d.store ≡ some ts
    → has_active i d.store.runs ≡ false
    → has_active i (tick cron (queue_store list unix) now d).1.store.runs ≡ true
    → (k : ℕ) × ((tick cron (queue_store list unix) now d).0 ≡ some k) × (0 < k)
unfolding tick
tick-counts cron list unix now i d ts e h q =
    let all = dispatch_all_counts cron list unix d.last_tick now i ts d.store 0 in
    rw (e, tick) (_, refl, all.1 h (simp (e, tick) at q))
