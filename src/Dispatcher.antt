-- ===== src/Dispatcher.antt =====
-- The scheduler: internal/core/schedule.go and internal/core/dispatcher.go. The cron library is a
-- parameter.
pub mod Windows
pub mod Due
pub mod Ticks
pub mod Never
use duskrun.Base.{
  ℕ, suc, String, Bool, true, false, Option, none, some, List, [], ◌∷◌, ltb, if◌then◌else◌,
}
use duskrun.Model.{Task}

-- A parsed schedule: its first activation after a time; `none` is the zero time.Time, with which
-- the library answers that it found no activation.
abbrev pub Schedule : Type 0
Schedule = ℕ → Option ℕ

-- `cron.ParseStandard`; `none` is its error.
abbrev pub Cron : Type 0
Cron = String → Option Schedule

-- `NextRun`, by way of `ParseCron`: the outer `none` is the parse error.
unfoldable pub next_run : Cron → String → ℕ → Option (Option ℕ)
next_run cron expr from = elim (cron expr) [ none ↦ none | some schedule ↦ some (schedule from) ]

-- `next.After(now)`: the zero time lies before every other.
abbrev pub is_after : Option ℕ → ℕ → Bool
is_after none now = false
is_after (some t) now = ltb now t

-- How `Enqueue` can end.
pub data Enqueued : Type 0 where
  enqueued : ℕ → Enqueued
  already_active enqueue_failed : Enqueued

-- The interface DispatchStore over a store's state `S`; `none` is an error of the listing.
pub record DispatchStore (S : Type 0) : Type 0 where
  pub list_enabled_tasks : S → Option (List Task)
  pub enqueue : S → ℕ → Enqueued × S

-- What the dispatcher changes: its own `lastTick` and the store.
pub record Dispatcher (S : Type 0) : Type 0 where
  pub last_tick : ℕ
  pub store : S

-- `NewDispatcher`: the clock's time at construction.
unfoldable pub new_dispatcher : {S : Type 0} → ℕ → S → Dispatcher S
new_dispatcher now s = record { last_tick = now; store = s }

abbrev pub count_enqueued : Enqueued → ℕ → ℕ
count_enqueued (enqueued id) n = suc n
count_enqueued already_active n = n
count_enqueued enqueue_failed n = n

module _ {S : Type 0} (cron : Cron) (db : DispatchStore S) where
  -- The body of the loop in `Tick` for one task: a bad cron and a task that is not due are skipped,
  -- and a refused or failed enqueue is only logged.
  pub dispatch : ℕ → ℕ → Task → S × ℕ → S × ℕ
  dispatch last now t (s, n) = elim (next_run cron t.cron last) [
    | none ↦ (s, n)
    | some next ↦
        if is_after next now
        then (s, n)
        else let (r, s') = db.enqueue s t.id in (s', count_enqueued r n)
  ]

  pub dispatch_all : ℕ → ℕ → List Task → S × ℕ → S × ℕ
  dispatch_all last now [] a = a
  dispatch_all last now (t ∷ ts) a = dispatch_all last now ts (dispatch last now t a)

  -- The number of enqueued runs, or `none` for the listing's error.
  unfoldable pub tick : ℕ → Dispatcher S → Option ℕ × Dispatcher S
  unfolding dispatch dispatch_all
  tick now d = elim (db.list_enabled_tasks d.store) [
    | none ↦ (none, d)
    | some tasks ↦
        let (s, n) = dispatch_all d.last_tick now tasks (d.store, 0) in
        (some n, record { last_tick = now; store = s })
  ]
