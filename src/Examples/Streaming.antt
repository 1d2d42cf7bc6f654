-- ===== src/Examples/Streaming.antt =====
-- Runs of internal/core/progress.go.
use duskrun.Base.{ℕ, suc, ◌+◌, ◌≡◌, refl, some, List, [], ◌∷◌, ◌++◌, arith}
use Prim.Native.Nat.{◌-◌, min}
use duskrun.Hub.{
  publish_log, publish_phase, close_run, cancel, ProgressEvent, LiveRun, phase_queued,
  phase_resolve, new_hub, Subscriber, Subscription, event, log_line, phase_stream, subscribe,
  tail_max,
}
use duskrun.Hub.Tails.{seqs, count_from}
use duskrun.Hub.Subscribers.{first_sub, publish_all}
use duskrun.Hub.Reached.{
  HubOp, log_called, subscribe_called, phase_called, close_called, cancel_called, call_all,
  subscribe_complete,
}

abbrev line : ℕ → ℕ → ProgressEvent
line at seq = record (event at 9 phase_stream (log_line "dump")) { seq = seq }

-- Another run starts and ends, and run 9 logs two lines; one of its subscribers is gone again.
abbrev calls : List HubOp
calls =
    log_called 500 9 phase_stream "dump"
    ∷ subscribe_called 9
    ∷ phase_called 600 8 phase_resolve
    ∷ close_called 8
    ∷ cancel_called (record { snapshot = []; run = 9; address = 0; id = 0 })
    ∷ log_called 700 9 phase_stream "dump"
    ∷ []

abbrev started : LiveRun
started = record {
  address = 0;
  phase = phase_queued;
  bytes = 0;
  total = 0;
  seq = 2;
  tail = line 500 1 ∷ line 700 2 ∷ [];
  subs = [];
  next_sub = 1;
  last_bytes = 0;
  last_byte_at = 0;
}

subscribe_complete_example :
    let (answer, h) = subscribe 9 (call_all calls new_hub) in
    (sub : Subscription) × (s : Subscriber) × (lr' : LiveRun) × (answer ≡ some sub)
    × (h.runs 9 ≡ some lr')
    × (first_sub (publish_all (line 800 0 ∷ line 900 0 ∷ []) lr').subs ≡ some s)
    × (s.id ≡ sub.id)
    × (seqs sub.snapshot ++ seqs s.buffer
        ≡ count_from (suc 2 - min tail_max 2) (min tail_max 2 + 2))
unfolding publish_log publish_phase close_run cancel subscribe
subscribe_complete_example =
    subscribe_complete calls 9 started (line 800 0 ∷ line 900 0 ∷ []) refl (omega arith)
