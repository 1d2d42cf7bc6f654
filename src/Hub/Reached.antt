-- ===== src/Hub/Reached.antt =====
-- The hub under any calls of its methods (internal/core/progress.go).
use duskrun.Base.{
  ℕ, suc, ◌+◌, ◌-◌, ◌≤◌, ◌≡◌, refl, String, List, [], ◌∷◌, ◌++◌, length, ◌==◌, Option, none, some,
  Bool-cases, inl, inr, if◌then◌else◌, subst,
}
use Prim.Native.Nat.{min}
use duskrun.Queue.{RunStatus}
use duskrun.Hub.{
  Phase, event, phase_change, log_line, total_known, bytes_sent, status_reached, rate, subscribed,
  ProgressEvent, LiveRun, Subscriber, Subscription, Hub, tail_max, sub_buf, publish, with_run,
  ensure, publish_phase, publish_log, publish_total, publish_bytes, publish_status, close_run,
  subscribe, subscribe_to, cancelled, cancel, new_hub,
}
use duskrun.Hub.Tails.{seqs, count_from, IsTail, publish-IsTail}
use duskrun.Hub.Subscribers.{first_sub, publish_all, subscribed_complete}

-- A call of a method of the hub, at a time where it makes an event.
pub data HubOp : Type 0 where
  phase_called : ℕ → ℕ → Phase → HubOp
  log_called : ℕ → ℕ → Phase → String → HubOp
  total_called : ℕ → ℕ → ℕ → HubOp
  bytes_called : ℕ → ℕ → ℕ → HubOp
  status_called : ℕ → ℕ → RunStatus → HubOp
  subscribe_called close_called : ℕ → HubOp
  cancel_called : Subscription → HubOp

abbrev pub call : HubOp → Hub → Hub
call (phase_called now run p) h = publish_phase now run p h
call (log_called now run p msg) h = publish_log now run p msg h
call (total_called now run total) h = publish_total now run total h
call (bytes_called now run sent) h = publish_bytes now run sent h
call (status_called now run status) h = publish_status now run status h
call (subscribe_called run) h = (subscribe run h).1
call (close_called run) h = (close_run run h).1
call (cancel_called s) h = cancel s h

abbrev pub call_all : List HubOp → Hub → Hub
call_all [] h = h
call_all (op ∷ ops) h = call_all ops (call op h)

-- The buffer of every live run holds its latest events.
abbrev TailOf : Option LiveRun → Type 0
TailOf none = Unit
TailOf (some lr) = IsTail lr

abbrev AllTails : Hub → Type 0
AllTails h = (run : ℕ) → TailOf (h.runs run)

TailOf-if :
    (run j : ℕ) (x y : Option LiveRun) → TailOf x → TailOf y → TailOf (if run == j then x else y)
TailOf-if run j x y a b = elim (Bool-cases (run == j)) [ inl e ↦ rw e a | inr e ↦ rw e b ]

ensure-IsTail : (address : ℕ) (x : Option LiveRun) → TailOf x → IsTail (ensure address x)
ensure-IsTail address none t = refl
ensure-IsTail address (some lr) t = t

with_run-AllTails :
    (run : ℕ) (f : LiveRun → LiveRun) (h : Hub)
    → ((lr : LiveRun) → IsTail lr → IsTail (f lr))
    → AllTails h
    → AllTails (with_run run f h)
unfolding with_run
with_run-AllTails run f h keeps t j =
    let lr = ensure h.next_address (h.runs run) in
    TailOf-if run j (some (f lr)) (h.runs j)
      (keeps lr (ensure-IsTail h.next_address (h.runs run) (t run))) (t j)

cancelled-TailOf : (s : Subscription) (x : Option LiveRun) → TailOf x → TailOf (cancelled s x)
cancelled-TailOf s none t = tt
cancelled-TailOf s (some lr) t = elim (Bool-cases (lr.address == s.address)) [
  | inl e ↦ rw e t
  | inr e ↦ rw e t
]

subscribe-AllTails : (run : ℕ) (h : Hub) → AllTails h → AllTails (subscribe run h).1
unfolding subscribe
subscribe-AllTails run h t = subscribed_to (h.runs run) (t run)
  where
    subscribed_to : (x : Option LiveRun) → TailOf x → AllTails (subscribe_to run h x).1
    subscribed_to none a = t
    subscribed_to (some lr) a = λ j. TailOf-if run j (some (subscribed lr)) (h.runs j) a (t j)

published-AllTails :
    (run : ℕ) (e : LiveRun → ProgressEvent) (g : LiveRun → LiveRun) (h : Hub)
    → ((lr : LiveRun) → IsTail lr → IsTail (g lr))
    → AllTails h
    → AllTails (with_run run (λ lr. publish (e lr) (g lr)) h)
published-AllTails run e g h keeps t =
    with_run-AllTails run (λ lr. publish (e lr) (g lr)) h
      (λ lr a. publish-IsTail (e lr) (g lr) (keeps lr a)) t

call-AllTails : (op : HubOp) (h : Hub) → AllTails h → AllTails (call op h)
unfolding publish_phase publish_log publish_total publish_bytes publish_status close_run cancel
call-AllTails (phase_called now run p) h t =
    published-AllTails run (λ lr. event now run p phase_change) (λ lr. record lr { phase = p }) h
      (λ lr a. a) t
call-AllTails (log_called now run p msg) h t =
    published-AllTails run (λ lr. event now run p (log_line msg)) (λ lr. lr) h (λ lr a. a) t
call-AllTails (total_called now run total) h t = elim (Bool-cases (total == 0)) [
  | inl e ↦ rw e t
  | inr e ↦ rw e (
      published-AllTails run (λ lr. event now run lr.phase (total_known total))
        (λ lr. record lr { total = total }) h (λ lr a. a) t)
]
call-AllTails (bytes_called now run sent) h t =
    published-AllTails run
      (λ lr. event now run lr.phase (bytes_sent sent lr.total (rate now sent lr)))
      (λ lr. record lr { bytes = sent; last_bytes = sent; last_byte_at = now }) h (λ lr a. a) t
call-AllTails (status_called now run status) h t =
    published-AllTails run (λ lr. event now run lr.phase (status_reached status)) (λ lr. lr) h
      (λ lr a. a) t
call-AllTails (subscribe_called run) h t = subscribe-AllTails run h t
call-AllTails (close_called run) h t = λ j. TailOf-if run j none (h.runs j) tt (t j)
call-AllTails (cancel_called s) h t = λ j.
    TailOf-if s.run j (cancelled s (h.runs j)) (h.runs j) (cancelled-TailOf s (h.runs j) (t j))
      (t j)

call_all-AllTails : (ops : List HubOp) (h : Hub) → AllTails h → AllTails (call_all ops h)
call_all-AllTails [] h t = t
call_all-AllTails (op ∷ ops) h t = call_all-AllTails ops (call op h) (call-AllTails op h t)

-- A late subscriber misses nothing. After any calls of the methods of a new hub, in any order, the
-- snapshot that `Subscribe` answers for a live run and the events that the new channel holds after
-- at most 256 further ones are together consecutive events, without a gap and without a repetition:
-- the latest 256 before the call, or all of them where there are fewer, and then every further one.
pub subscribe_complete :
    (ops : List HubOp) (run : ℕ) (lr : LiveRun) (es : List ProgressEvent)
    → (call_all ops new_hub).runs run ≡ some lr
    → length es ≤ sub_buf
    → let (answer, h) = subscribe run (call_all ops new_hub) in
      (sub : Subscription) × (s : Subscriber) × (lr' : LiveRun) × (answer ≡ some sub)
      × (h.runs run ≡ some lr')
      × (first_sub (publish_all es lr').subs ≡ some s)
      × (s.id ≡ sub.id)
      × (seqs sub.snapshot ++ seqs s.buffer
          ≡ count_from (suc lr.seq - min tail_max lr.seq) (min tail_max lr.seq + length es))
subscribe_complete ops run lr es e m =
    subscribed_complete run (call_all ops new_hub) lr es e
      (subst TailOf e (call_all-AllTails ops new_hub (λ j. tt) run)) m
