-- ===== src/Hub/Subscribers.antt =====
-- Subscribers of live runs (internal/core/progress.go).
use duskrun.Base.{
  ℕ, zero, suc, ◌+◌, ◌≤◌, ◌≢◌, ◌≡◌, refl, ◌∙◌, ap, sym, true, false, List, [], ◌∷◌, ◌++◌, map,
  length, ltb, ◌==◌, Option, none, some, arith,
}
use Prim.Native.Nat.{◌-◌, min}
use duskrun.Hub.{
  tail_max, ProgressEvent, LiveRun, Subscriber, Subscription, Hub, publish, offer, sub_buf, cancel,
  subscribed, subscribe,
}
use duskrun.Hub.Tails.{seqs, count_from, seqs-snoc, IsTail, length-counted}

abbrev pub offer_all : ℕ → List ProgressEvent → Subscriber → Subscriber
offer_all seq [] s = s
offer_all seq (e ∷ es) s = offer_all (suc seq) es (offer (record e { seq = suc seq }) s)

abbrev pub publish_all : List ProgressEvent → LiveRun → LiveRun
publish_all [] lr = lr
publish_all (e ∷ es) lr = publish_all es (publish e lr)

-- The subscriber that came last.
abbrev pub first_sub : List Subscriber → Option Subscriber
first_sub [] = none
first_sub (s ∷ ss) = some s

first_sub-map :
    (f : Subscriber → Subscriber) (ss : List Subscriber) (s : Subscriber)
    → first_sub ss ≡ some s
    → first_sub (map f ss) ≡ some (f s)
first_sub-map f [] s h = absurd (ground (arith, h))
first_sub-map f (x ∷ ss) s h = ap some (ap f cc)

publish_all-first_sub :
    (es : List ProgressEvent) (lr : LiveRun) (s : Subscriber)
    → first_sub lr.subs ≡ some s
    → first_sub (publish_all es lr).subs ≡ some (offer_all lr.seq es s)
unfolding publish
publish_all-first_sub [] lr s h = h
publish_all-first_sub (e ∷ es) lr s h =
    let e' = record e { seq = suc lr.seq } in
    publish_all-first_sub es (publish e lr) (offer e' s) (first_sub-map (offer e') lr.subs s h)

offer_all-counts :
    (seq from n : ℕ) (es : List ProgressEvent) (s : Subscriber)
    → seqs s.buffer ≡ count_from from n
    → from + n ≡ suc seq
    → n + length es ≤ sub_buf
    → seqs (offer_all seq es s).buffer ≡ count_from from (n + length es)
offer_all-counts seq from n [] s h k m = h ∙ ap (count_from from) (omega arith)
offer_all-counts seq from n (e ∷ es) s h k m =
    let e' = record e { seq = suc seq } in
    let room : ltb (length s.buffer) sub_buf ≡ true =
      ground (arith, length-counted s.buffer from n h, m) in
    let longer = seqs-snoc s.buffer e' from n h (sym k) in
    let step : (offer e' s) ≡ record s { buffer = s.buffer ++ e' ∷ [] } = rw room refl in
    ap (λ x. seqs (offer_all (suc seq) es x).buffer) step
    ∙ (offer_all-counts (suc seq) from (suc n) es (record s { buffer = s.buffer ++ e' ∷ [] }) longer
          (omega (arith, k)) (omega (arith, m))
        ∙ ap (count_from from) (omega arith))

offer_all-id : (seq : ℕ) (es : List ProgressEvent) (s : Subscriber) → (offer_all seq es s).id ≡ s.id
offer_all-id seq [] s = refl
offer_all-id seq (e ∷ es) s =
    offer_all-id (suc seq) es (offer (record e { seq = suc seq }) s) ∙ ground arith

count_from-append : (a n m : ℕ) → count_from a n ++ count_from (a + n) m ≡ count_from a (n + m)
count_from-append a zero m =
    let start : a + 0 ≡ a = omega arith in
    let size : m ≡ 0 + m = omega arith in ap (λ b. count_from b m) start ∙ ap (count_from a) size
count_from-append a (suc n) m =
    let start : a + suc n ≡ suc a + n = omega arith in
    let size : suc (n + m) ≡ suc n + m = omega arith in
    ap (a ∷◌)
      (ap (λ b. count_from (suc a) n ++ count_from b m) start ∙ count_from-append (suc a) n m)
    ∙ ap (count_from a) size

-- Where the buffer of the live run holds its latest events, the snapshot that `Subscribe` answers and
-- the events that its channel holds after at most 256 further ones are together consecutive.
pub subscribed_complete :
    (run : ℕ) (h : Hub) (lr : LiveRun) (es : List ProgressEvent)
    → h.runs run ≡ some lr
    → IsTail lr
    → length es ≤ sub_buf
    → (sub : Subscription) × (s : Subscriber) × (lr' : LiveRun) × ((subscribe run h).0 ≡ some sub)
      × ((subscribe run h).1.runs run ≡ some lr')
      × (first_sub (publish_all es lr').subs ≡ some s)
      × (s.id ≡ sub.id)
      × (seqs sub.snapshot ++ seqs s.buffer
          ≡ count_from (suc lr.seq - min tail_max lr.seq) (min tail_max lr.seq + length es))
unfolding subscribe
subscribed_complete run h lr es e t m =
    let s : Subscriber = record { id = lr.next_sub; buffer = [] } in
    let sub : Subscription = record {
      snapshot = lr.tail;
      run = run;
      address = lr.address;
      id = lr.next_sub;
    } in
    let here : (run == run) ≡ true = ground arith in
    let zero_add : 0 + length es ≡ length es = omega arith in
    let buffered : seqs (offer_all lr.seq es s).buffer ≡ count_from (suc lr.seq) (length es) =
      offer_all-counts lr.seq (suc lr.seq) 0 es s refl (omega arith) (omega (arith, m))
      ∙ ap (count_from _) zero_add in
    let start : suc lr.seq ≡ suc lr.seq - min tail_max lr.seq + min tail_max lr.seq = omega arith in
    (
      sub,
      offer_all lr.seq es s,
      subscribed lr,
      rw e refl,
      rw (e, here) refl,
      publish_all-first_sub es (subscribed lr) s refl,
      offer_all-id lr.seq es s,
      rw (t, buffered)
          (ap
              (λ b.
                count_from (suc lr.seq - min tail_max lr.seq) (min tail_max lr.seq)
                ++ count_from b (length es))
              start
            ∙ count_from-append _ _ (length es)),
    )

-- Cancelling an old subscription does not touch a newer live run of the same id.
pub cancel_old :
    (s : Subscription) (h : Hub) (lr : LiveRun)
    → h.runs s.run ≡ some lr
    → lr.address ≢ s.address
    → (cancel s h).runs s.run ≡ some lr
unfolding cancel
cancel_old s h lr e n =
    let here : (s.run == s.run) ≡ true = ground arith in
    let other : (lr.address == s.address) ≡ false = ground (arith, n) in rw (here, e, other) refl
