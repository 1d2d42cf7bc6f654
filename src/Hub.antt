-- ===== src/Hub.antt =====
-- Live progress (internal/core/progress.go): the registry of live runs, the ring buffer of recent
-- events, and the subscribers' channels. A pointer to a live run is its address. A channel is its
-- buffer; the ones that `Close` closes are its answer.
pub mod Tails
pub mod Subscribers
pub mod Reached
use duskrun.Base.{
  ℕ, ℤ, zero, suc, ◌+◌, ◌-◌, pos, ◌-ℤ◌, String, Bool, true, false, not, ◌&&◌, Option, none, some,
  List, [], ◌∷◌, ◌++◌, map, ◌==◌, ltb, if◌then◌else◌, length, select,
}
use duskrun.Queue.{RunStatus}

pub data Phase : Type 0 where
  phase_queued phase_resolve phase_stream phase_record : Phase

-- What an event carries besides its phase; a throughput is a difference of bytes over nanoseconds, and
-- `none` where it is 0.
pub data Payload : Type 0 where
  log_line : String → Payload
  phase_change : Payload
  bytes_sent : ℕ → ℕ → Option (ℤ × ℕ) → Payload
  total_known : ℕ → Payload
  status_reached : RunStatus → Payload

pub record ProgressEvent : Type 0 where
  pub run_id : ℕ
  pub seq : ℕ
  pub phase : Phase
  pub payload : Payload
  pub at : ℕ

pub record Subscriber : Type 0 where
  pub id : ℕ
  pub buffer : List ProgressEvent

pub record LiveRun : Type 0 where
  pub address : ℕ
  pub phase : Phase
  pub bytes : ℕ
  pub total : ℕ
  pub seq : ℕ
  pub tail : List ProgressEvent
  pub subs : List Subscriber
  pub next_sub : ℕ
  pub last_bytes : ℕ
  pub last_byte_at : ℕ

pub record Hub : Type 0 where
  pub runs : ℕ → Option LiveRun
  pub next_address : ℕ

-- tailMax and subBuf
abbrev pub tail_max : ℕ
tail_max = 256

abbrev pub sub_buf : ℕ
sub_buf = 256

-- `NewHub`
abbrev pub new_hub : Hub
new_hub = record { runs = λ j. none; next_address = 0 }

abbrev fresh_run : ℕ → LiveRun
fresh_run address = record {
  address = address;
  phase = phase_queued;
  bytes = 0;
  total = 0;
  seq = 0;
  tail = [];
  subs = [];
  next_sub = 0;
  last_bytes = 0;
  last_byte_at = 0;
}

-- `ensure`
abbrev pub ensure : ℕ → Option LiveRun → LiveRun
ensure address none = fresh_run address
ensure address (some lr) = lr

-- The live run changed by `f`, made on first use.
unfoldable pub with_run : ℕ → (LiveRun → LiveRun) → Hub → Hub
with_run run f h = record {
  runs = λ j. if run == j then some (f (ensure h.next_address (h.runs run))) else h.runs j;
  next_address = suc h.next_address;
}

abbrev pub drop : ℕ → List ProgressEvent → List ProgressEvent
drop zero es = es
drop (suc n) [] = []
drop (suc n) (e ∷ es) = drop n es

abbrev pub keep_tail : List ProgressEvent → List ProgressEvent
keep_tail es = if ltb tail_max (length es) then drop (length es - tail_max) es else es

-- The send that never blocks.
abbrev pub offer : ProgressEvent → Subscriber → Subscriber
offer e s = if ltb (length s.buffer) sub_buf then record s { buffer = s.buffer ++ e ∷ [] } else s

-- `publishLocked`
unfoldable pub publish : ProgressEvent → LiveRun → LiveRun
publish event lr =
    let e = record event { seq = suc lr.seq } in
    record lr {
      seq = suc lr.seq;
      tail = keep_tail (lr.tail ++ e ∷ []);
      subs = map (offer e) lr.subs;
    }

abbrev pub event : ℕ → ℕ → Phase → Payload → ProgressEvent
event now run phase payload = record {
  run_id = run;
  seq = 0;
  phase = phase;
  payload = payload;
  at = now;
}

-- `Hub.Phase`, `Hub.Log`, `Hub.Total`, `Hub.Bytes` and `Hub.Status`.
unfoldable pub publish_phase : ℕ → ℕ → Phase → Hub → Hub
unfolding with_run publish
publish_phase now run p h =
    with_run run (λ lr. publish (event now run p phase_change) (record lr { phase = p })) h

unfoldable pub publish_log : ℕ → ℕ → Phase → String → Hub → Hub
unfolding with_run publish
publish_log now run p msg h = with_run run (publish (event now run p (log_line msg))) h

unfoldable pub publish_total : ℕ → ℕ → ℕ → Hub → Hub
unfolding with_run publish
publish_total now run total h =
    if total == 0
    then h
    else with_run run
        (λ lr. publish (event now run lr.phase (total_known total)) (record lr { total = total })) h

abbrev pub rate : ℕ → ℕ → LiveRun → Option (ℤ × ℕ)
rate now sent lr =
    if not (lr.last_byte_at == 0) && ltb lr.last_byte_at now
    then some (pos sent -ℤ pos lr.last_bytes, now - lr.last_byte_at)
    else none

abbrev sent_bytes : ℕ → ℕ → ℕ → LiveRun → LiveRun
sent_bytes now run sent lr =
    publish (event now run lr.phase (bytes_sent sent lr.total (rate now sent lr)))
      (record lr { bytes = sent; last_bytes = sent; last_byte_at = now })

unfoldable pub publish_bytes : ℕ → ℕ → ℕ → Hub → Hub
unfolding with_run publish ◌-ℤ◌
publish_bytes now run sent h = with_run run (sent_bytes now run sent) h

unfoldable pub publish_status : ℕ → ℕ → RunStatus → Hub → Hub
unfolding with_run publish
publish_status now run status h =
    with_run run (λ lr. publish (event now run lr.phase (status_reached status)) lr) h

abbrev subs_of : Option LiveRun → List Subscriber
subs_of none = []
subs_of (some lr) = lr.subs

-- `Hub.Close`: the subscribers whose channels it closes.
unfoldable pub close_run : ℕ → Hub → List Subscriber × Hub
close_run run h =
    (subs_of (h.runs run), record h { runs = λ j. if run == j then none else h.runs j })

-- What `Subscribe` answers: the snapshot, and what its `cancel` remembers.
pub record Subscription : Type 0 where
  pub snapshot : List ProgressEvent
  pub run : ℕ
  pub address : ℕ
  pub id : ℕ

abbrev pub subscribed : LiveRun → LiveRun
subscribed lr = record lr {
  subs = record { id = lr.next_sub; buffer = [] } ∷ lr.subs;
  next_sub = suc lr.next_sub;
}

abbrev pub subscribe_to : ℕ → Hub → Option LiveRun → Option Subscription × Hub
subscribe_to run h none = (none, h)
subscribe_to run h (some lr) = (
  some (record { snapshot = lr.tail; run = run; address = lr.address; id = lr.next_sub }),
  record h { runs = λ j. if run == j then some (subscribed lr) else h.runs j },
)

-- `Subscribe`: `none` where the run is not live.
unfoldable pub subscribe : ℕ → Hub → Option Subscription × Hub
subscribe run h = subscribe_to run h (h.runs run)

abbrev pub cancelled : Subscription → Option LiveRun → Option LiveRun
cancelled s none = none
cancelled s (some lr) =
    if lr.address == s.address
    then some (record lr { subs = select (λ x. not (x.id == s.id)) lr.subs })
    else some lr

-- The `cancel` of a subscription: only while the same live run is registered.
unfoldable pub cancel : Subscription → Hub → Hub
cancel s h = record h { runs = λ j. if s.run == j then cancelled s (h.runs j) else h.runs j }
