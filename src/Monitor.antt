-- ===== src/Monitor.antt =====
-- The monitor (internal/core/monitor.go): slow runs, storages that do not answer and storages that
-- fill up. `sent` lists the notices that go out, without their texts. The storages are checked one
-- after the other: the source checks them at the same time, and each touches its own keys only.
pub mod Slow
pub mod Reachability
pub mod Levels
use duskrun.Base.{
  ℕ, zero, suc, ◌+◌, ◌*◌, ◌-◌, max, Bool, true, false, ◌&&◌, ◌||◌, not, Option, none, some, List,
  [], ◌∷◌, ◌++◌, ◌==◌, ltb, leb, if◌then◌else◌, contains, length, select, any,
}
use duskrun.Model.{Task, minute, second}
use duskrun.Queue.{Run, run_ids}
use duskrun.AlertStore.{Key, Alert, alert_level, open_alert, close_alert, unreachable_of, low_of}
use duskrun.Worker.History.{median, min_history}

pub data MonitorEvent : Type 0 where
  slow_run unreachable_notice low_notice recovered_notice : MonitorEvent

-- About a run for `slow_run`, and about a storage otherwise.
pub record Notice : Type 0 where
  pub event : MonitorEvent
  pub subject : ℕ

-- The maps `slow` and `misses`, the table alert_state and the notices.
pub record Monitoring : Type 0 where
  pub slow : List ℕ
  pub misses : ℕ → ℕ
  pub alerts : List Alert
  pub sent : List Notice

abbrev pub notify : MonitorEvent → ℕ → Monitoring → Monitoring
notify e i s = record s { sent = s.sent ++ record { event = e; subject = i } ∷ [] }

-- max (slowFactor × usual, usual + slowMargin)
abbrev pub slow_limit : ℕ → ℕ
slow_limit usual = max (usual * 3) (usual + 15 * minute)

-- What the store answers while runs are checked, `none` for an error.
pub record RunAnswers : Type 0 where
  pub now : ℕ
  pub durations : ℕ → Option (List ℕ)
  pub get_task : ℕ → Option Task

-- What the loop of `CheckRuns` does with a run: it goes on, returns an error, or reports the run.
pub data Verdict : Type 0 where
  go_on give_up report : Verdict

-- Columns of the table run count seconds.
abbrev pub elapsed : ℕ → ℕ → ℕ
elapsed now started = now - started * second

abbrev pub past_limit : ℕ → ℕ → List ℕ → Bool
past_limit now started durs =
    if ltb (length durs) min_history
    then false
    else not (ltb (elapsed now started) (slow_limit (median durs)))

abbrev pub task_verdict : Option Task → Verdict
task_verdict none = give_up
task_verdict (some t) = report

abbrev pub durations_verdict : RunAnswers → Run → ℕ → Option (List ℕ) → Verdict
durations_verdict ans run started none = give_up
durations_verdict ans run started (some durs) =
    if past_limit ans.now started durs then task_verdict (ans.get_task run.task_id) else go_on

abbrev pub started_verdict : RunAnswers → Run → Option ℕ → Verdict
started_verdict ans run none = go_on
started_verdict ans run (some started) =
    durations_verdict ans run started (ans.durations run.task_id)

unfoldable pub run_verdict : RunAnswers → List ℕ → Run → Verdict
unfolding median
run_verdict ans slow run =
    if contains slow run.id then go_on else started_verdict ans run run.started_at

abbrev pub report_slow : ℕ → Monitoring → Monitoring
report_slow i s = notify slow_run i (record s { slow = i ∷ s.slow })

abbrev pub after_verdict : Verdict → ℕ → Monitoring → Monitoring
after_verdict report i s = report_slow i s
after_verdict _ i s = s

abbrev pub is_give_up : Verdict → Bool
is_give_up give_up = true
is_give_up _ = false

-- The loop, and whether it ran to its end.
unfoldable pub check_each : RunAnswers → List Run → Monitoring → Bool × Monitoring
unfolding run_verdict
check_each ans [] s = (true, s)
check_each ans (r ∷ rs) s =
    let verdict = run_verdict ans s.slow r in
    let rest = check_each ans rs (after_verdict verdict r.id s) in
    if is_give_up verdict then (false, s) else rest

-- `forgetFinished`
abbrev pub forget_finished : List ℕ → Monitoring → Monitoring
forget_finished live s = record s { slow = select (contains live) s.slow }

-- `CheckRuns`, given the running runs. An error leaves `slow` as it is.
unfoldable pub check_runs : RunAnswers → List Run → Monitoring → Bool × Monitoring
unfolding check_each
check_runs ans running s =
    let (ended, s') = check_each ans running s in
    (ended, if ended then forget_finished (run_ids running) s' else s')

-- Whether the store opens, closes and reads an episode, at what time.
pub record AlertAnswers : Type 0 where
  pub now : ℕ
  pub opens : Bool
  pub closes : Bool
  pub reads : Bool

abbrev pub set_misses : ℕ → ℕ → (ℕ → ℕ) → ℕ → ℕ
set_misses i n f j = if i == j then n else f j

-- `unreachable`; unreachableAfter is 2.
unfoldable pub unreachable : AlertAnswers → ℕ → Monitoring → Monitoring
unfolding open_alert
unreachable ans i s =
    let missed = record s { misses = set_misses i (suc (s.misses i)) s.misses } in
    let (prev, rows) = open_alert (unreachable_of i) 1 ans.now s.alerts in
    let opened = record missed { alerts = rows } in
    if ltb (suc (s.misses i)) 2
    then missed
    else if ans.opens
    then (if prev == 0 then notify unreachable_notice i opened else opened)
    else missed

-- `reachable`
unfoldable pub reachable : AlertAnswers → ℕ → Monitoring → Monitoring
unfolding close_alert
reachable ans i s =
    let answered = record s { misses = set_misses i 0 s.misses } in
    let (was, rows) = close_alert (unreachable_of i) s.alerts in
    let closed = record answered { alerts = rows } in
    if ans.closes then (if was then notify recovered_notice i closed else closed) else answered

-- In bytes; not negative.
pub record Capacity : Type 0 where
  pub free : ℕ
  pub total : ℕ

-- Less free space than a share of the volume or some rounds, with a slack in tenths and the share in
-- hundredths, so that the comparisons of the source's fractions are those of whole numbers.
-- Exact arithmetic stands for the products of float64.
unfoldable pub below_with : Capacity → ℕ → ℕ → ℕ → ℕ → Bool
below_with c round slack share rounds =
    ltb (c.free * 1000) (c.total * share * slack)
    || (ltb 0 round && ltb (c.free * 10) (round * rounds * slack))

-- lowRecoverSlack is 1.2.
abbrev pub slack_of : ℕ → ℕ → ℕ
slack_of level prev = if leb level prev then 12 else 10

-- The closure `below` of `lowLevel`.
unfoldable pub is_below : Capacity → ℕ → ℕ → ℕ → ℕ → ℕ → Bool
unfolding below_with
is_below c round prev level share rounds = below_with c round (slack_of level prev) share rounds

-- lowWarn and lowCritical
abbrev pub low_warn : ℕ
low_warn = 1

abbrev pub low_critical : ℕ
low_critical = 2

-- `lowLevel`
unfoldable pub low_level : Capacity → ℕ → ℕ → ℕ
unfolding is_below
low_level c round prev =
    if is_below c round prev low_critical 5 1
    then low_critical
    else if is_below c round prev low_warn 10 3
    then low_warn
    else 0

abbrev pub close_low : AlertAnswers → ℕ → Monitoring → Monitoring
close_low ans i s =
    if ans.closes
    then notify recovered_notice i (record s { alerts = (close_alert (low_of i) s.alerts).1 })
    else s

abbrev pub open_low : AlertAnswers → ℕ → ℕ → ℕ → Monitoring → Monitoring
open_low ans i prev level s =
    let opened = record s { alerts = (open_alert (low_of i) level ans.now s.alerts).1 } in
    if ans.opens then (if ltb level prev then opened else notify low_notice i opened) else s

-- `judgeCapacity`
unfoldable pub judge_capacity : AlertAnswers → ℕ → Capacity → ℕ → Monitoring → Monitoring
unfolding low_level alert_level open_alert close_alert
judge_capacity ans i c round s =
    let prev = alert_level (low_of i) s.alerts in
    let level = low_level c round prev in
    if not ans.reads || level == prev
    then s
    else if level == 0
    then close_low ans i s
    else open_low ans i prev level s

-- How a check of a storage ends before it is judged: the context is done, the opening or the probe
-- fails, or it answers, with what it tells of its capacity.
pub data Probe : Type 0 where
  shut_down : Probe
  failed_probe : Probe
  answered_probe : Option Capacity → Probe

-- One more backup of every task at its last size; a size that cannot be read is left out.
abbrev pub round_size : (ℕ → Option ℕ) → List Task → ℕ
round_size last_size [] = 0
round_size last_size (t ∷ ts) = elim (last_size t.id) [
  | none ↦ round_size last_size ts
  | some size ↦ size + round_size last_size ts
]

-- `checkStorage` for the tasks that write there.
unfoldable pub check_storage :
    AlertAnswers → (ℕ → Option ℕ) → ℕ → List Task → Probe → Monitoring → Monitoring
unfolding unreachable reachable judge_capacity
check_storage ans last_size i tasks shut_down s = s
check_storage ans last_size i tasks failed_probe s = unreachable ans i s
check_storage ans last_size i tasks (answered_probe none) s = reachable ans i s
check_storage ans last_size i tasks (answered_probe (some c)) s =
    let s' = reachable ans i s in
    if c.total == 0 then s' else judge_capacity ans i c (round_size last_size tasks) s'

abbrev pub users_of : ℕ → List Task → List Task
users_of i = select (λ t. t.storage_id == i)

-- `CheckStorages` over the storages' ids, after its two listings.
unfoldable pub check_storages :
    AlertAnswers → (ℕ → Option ℕ) → (ℕ → Probe) → List Task → List ℕ → Monitoring → Monitoring
unfolding check_storage
check_storages ans last_size probe tasks [] s = s
check_storages ans last_size probe tasks (i ∷ is) s = check_storages ans last_size probe tasks is (
    if length (users_of i tasks) == 0
    then s
    else check_storage ans last_size i (users_of i tasks) (probe i) s)
