-- ===== src/Dispatcher/Never.antt =====
-- A schedule with no activation at all, such as "0 0 30 2 *" (internal/core/dispatcher.go). The cron
-- library parses it and answers the zero time, which `Tick` compares like any other time.
use duskrun.Base.{
  ℕ, ◌≡◌, ◌<◌, refl, true, false, Option, none, some, List, [], ◌∷◌, ◌++◌, All, contains, arith,
}
use duskrun.Model.{Task}
use duskrun.Queue.{Table, has_active}
use duskrun.Dispatcher.{Schedule, Cron, next_run, Dispatcher, tick}
use duskrun.Dispatcher.Ticks.{queue_store, any_due, tick-dispatches, tick-counts}
use duskrun.Dispatcher.Windows.{is_due}

is_due-never :
    (cron : Cron) (schedule : Schedule) (t : Task) (last now : ℕ)
    → cron t.cron ≡ some schedule
    → schedule last ≡ none
    → is_due cron last now t ≡ true
unfolding is_due
is_due-never cron schedule t last now e n = rw (e, next_run) (rw n refl)

any_due-never :
    (cron : Cron) (last now : ℕ) (before : List Task) (t : Task) (after : List Task)
    → is_due cron last now t ≡ true
    → any_due cron last now t.id (before ++ t ∷ after) ≡ true
any_due-never cron last now [] t after h = ground arith
any_due-never cron last now (b ∷ before) t after h =
    ground (arith, any_due-never cron last now before t after h)

-- A tick queues a run of an enabled task whose schedule has no activation, although nothing is
-- ever to be run: where the listing answers tasks of the table, this one among them, and the task has
-- no active run, it has one after the tick, wherever the window lies, and the tick answers a number
-- above 0.
pub tick-never :
    (cron : Cron) (list : Table → Option (List Task)) (unix now : ℕ) (d : Dispatcher Table)
    (before : List Task) (t : Task) (after : List Task) (schedule : Schedule)
    → list d.store ≡ some (before ++ t ∷ after)
    → All (λ q. contains d.store.tasks q.id ≡ true) (before ++ t ∷ after)
    → cron t.cron ≡ some schedule
    → ((from : ℕ) → schedule from ≡ none)
    → has_active t.id d.store.runs ≡ false
    → let (n, d') = tick cron (queue_store list unix) now d in
      (has_active t.id d'.store.runs ≡ true) × ((k : ℕ) × (n ≡ some k) × (0 < k))
tick-never cron list unix now d before t after schedule e h p n idle =
    let due = is_due-never cron schedule t d.last_tick now p (n d.last_tick) in
    let ticked = (tick-dispatches cron list unix now t.id d (before ++ t ∷ after) e h).0 in
    let active : has_active t.id (tick cron (queue_store list unix) now d).1.store.runs ≡ true =
      ground (arith, ticked, any_due-never cron d.last_tick now before t after due) in
    (active, tick-counts cron list unix now t.id d (before ++ t ∷ after) e idle active)
