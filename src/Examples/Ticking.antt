-- ===== src/Examples/Ticking.antt =====
-- Runs of internal/core/dispatcher.go.
use duskrun.Base.{
  ℕ, String, ◌≡◌, ◌<◌, ◌+◌, ◌*◌, ◌/◌, ◌%◌, ◌⊎◌, ◌↔◌, refl, ap, subst, arith, true, Option, none,
  some, List, [], ◌∷◌, pos, length,
}
use duskrun.Model.{Task, skip}
use duskrun.Queue.{Table, has_active}
use duskrun.Dispatcher.{Cron, Schedule, Dispatcher, tick}
use duskrun.Dispatcher.Ticks.{queue_store}
use duskrun.Dispatcher.Windows.{IsNext}
use duskrun.Dispatcher.Due.{SomeActivates, tick-activates}
use duskrun.Dispatcher.Never.{tick-never}

abbrev task : ℕ → Task
task i = record {
  id = i;
  name = "nightly";
  connection_id = 1;
  dumper_opts = "{}";
  codec_chain = [];
  storage_id = 1;
  cron = "* * * * *";
  retention = record { keep_last = pos 0; gfs = none };
  notifiers = [];
  enabled = true;
  misfire = skip;
  retries = pos 0;
  timeout = pos 0;
  watchdog = pos 0;
  enabled_at = 0;
  created_at = 0;
}

-- Every minute, in seconds.
abbrev each_minute : Schedule
each_minute t = some ((t / 60 + 1) * 60)

abbrev minutely : Cron
minutely expr = some each_minute

abbrev at_ten : Dispatcher Table
at_ten = record { last_tick = 10; store = record { tasks = 7 ∷ 8 ∷ []; runs = [] } }

abbrev both : Table → Option (List Task)
both t = some (task 7 ∷ task 8 ∷ [])

abbrev OnTheMinute : String → ℕ → Type 0
OnTheMinute expr t = t % 60 ≡ 0

each_minute-IsNext : IsNext (OnTheMinute "* * * * *") each_minute
each_minute-IsNext = record {
  later = λ t u e. ground (arith, e);
  activates = λ t u e. ground (arith, e);
  least = λ t u v e l a. ground (arith, e, l, a);
  always = λ t. (_, refl);
}

tick-activates_example :
    let (n, d') = tick minutely (queue_store both 70) 70 at_ten in
    ((has_active 7 d'.store.runs ≡ true) ↔ (
      (has_active 7 at_ten.store.runs ≡ true)
      ⊎ SomeActivates OnTheMinute minutely 10 70 7 (task 7 ∷ task 8 ∷ [])))
    × (d'.last_tick ≡ 70)
    × ((k : ℕ) × (n ≡ some k) × (length d'.store.runs ≡ length at_ten.store.runs + k))
tick-activates_example =
    tick-activates OnTheMinute minutely both 70 70 7 at_ten (task 7 ∷ task 8 ∷ []) refl
      (refl, (refl, tt)) (reads, (reads, tt))
  where
    reads :
        (schedule : Schedule)
        → minutely "* * * * *" ≡ some schedule
        → IsNext (OnTheMinute "* * * * *") schedule
    reads schedule e =
        subst (IsNext (OnTheMinute "* * * * *"))
          (ap (λ (o : Option Schedule). elim o [ none ↦ each_minute | some s ↦ s ]) e)
          each_minute-IsNext

-- "0 0 30 2 *" has no activation.
abbrev feb_30 : Cron
feb_30 expr = some (λ t. none)

tick-never_example :
    let (n, d') = tick feb_30 (queue_store both 70) 70 at_ten in
    (has_active 7 d'.store.runs ≡ true) × ((k : ℕ) × (n ≡ some k) × (0 < k))
tick-never_example =
    tick-never feb_30 both 70 70 at_ten [] (task 7) (task 8 ∷ []) (λ t. none) refl
      (refl, (refl, tt)) refl (λ t. refl) refl
