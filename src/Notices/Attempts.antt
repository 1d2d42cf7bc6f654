-- ===== src/Notices/Attempts.antt =====
-- The log of deliveries tells what became of each channel (internal/core/notify.go).
use mathlib.Core.List.{append-nil, append_assoc, perm_middle}
use mathlib.Core.List.Perm
use duskrun.Base.{
  ℕ, ◌≡◌, refl, sym, ap, ◌∙◌, String, some, List, [], ◌∷◌, ◌++◌, map, select, Perm, Bool-cases, inl,
  inr,
}
use duskrun.Model.{Task, NotifierChannel}
use duskrun.Config.Resolver.{Resolved, failed, ready}
use duskrun.Notices.Fates.{
  Fate, passed_over, unavailable, reached, fate_of, attempts, told, task_fates, named, missed,
  delivered, delivery, select-append, log-record_attempt, notified-record_attempt, Gathered,
  visit_names-Gathered, visit_configured-Gathered,
}
use duskrun.Notices.{
  Built, unbuilt, built, build, test_event, tested, test_channel, channels_listed, system_listed,
  Event, Notification, Built, unbuilt, built, Delivering, Outbox, Named, build, record_attempt,
  bare_event, visit_names, record_unlisted, channels_for, deliver, deliver_all, task_event,
  send_event, visit_configured, system_event, send_system,
}

-- What the log has to gain for an event of a task: a failed attempt for each name where the channels
-- cannot be listed, and else the attempt of each channel that the task names.
abbrev pub expected :
    Delivering → Event → Event → List String → Resolved (List NotifierChannel) → List Notification
expected d bare ev names (failed e) = map (λ n. delivery d bare n (some e)) names
expected d bare ev names (ready configured) =
    attempts d bare ev (task_fates d bare.kind names configured)

-- Which channels hear of it.
abbrev pub heard :
    Delivering
    → Event
    → Event
    → List String
    → Resolved (List NotifierChannel)
    → List (String × Event)
heard d bare ev names (failed e) = []
heard d bare ev names (ready configured) = told ev (task_fates d bare.kind names configured)

-- The outbox after channels were notified.
record Delivered (d : Delivering) (ev : Event) (channels : List Named) (o o' : Outbox)
    : Type 0 where
  entries : o'.log ≡ o.log ++ select d.stores (delivered d ev channels)
  events : o'.notified ≡ o.notified ++ map (λ c. (c.0, ev)) channels

deliver_all-Delivered :
    (d : Delivering) (ev : Event) (channels : List Named) (o : Outbox)
    → Delivered d ev channels o (deliver_all d ev channels o)
unfolding deliver_all deliver
deliver_all-Delivered d ev [] o = record {
  entries = sym (append-nil o.log);
  events = sym (append-nil o.notified);
}
deliver_all-Delivered d ev ((name, notify) ∷ channels) o =
    let o1 = record o { notified = o.notified ++ (name, ev) ∷ [] } in
    let o2 = record_attempt d ev name (notify ev) o1 in
    let rest = deliver_all-Delivered d ev channels o2 in
    let one = delivery d ev name (notify ev) ∷ [] in
    record {
      entries =
          rest.entries
          ∙ rw
              (
                log-record_attempt d ev name (notify ev) o1,
                select-append d.stores one (delivered d ev channels),
              )
              (append_assoc o.log _ _);
      events =
          rest.events
          ∙ rw (notified-record_attempt d ev name (notify ev) o1) (append_assoc o.notified _ _);
    }

-- Unavailable channels are recorded before the others, in an order of its own.
entries-perm :
    (d : Delivering) (bare ev : Event) (fates : List Fate)
    → Perm
        (select d.stores (missed d bare fates) ++ select d.stores (delivered d ev (named fates)))
        (select d.stores (attempts d bare ev fates))
entries-perm d bare ev [] = Perm.refl []
entries-perm d bare ev (passed_over ∷ fates) = entries-perm d bare ev fates
entries-perm d bare ev (unavailable name e ∷ fates) =
    elim (Bool-cases (d.stores (delivery d bare name (some e)))) [
      | inl h ↦ rw h (Perm.cons _ (entries-perm d bare ev fates))
      | inr h ↦ rw h (entries-perm d bare ev fates)
    ]
entries-perm d bare ev (reached name notify ∷ fates) =
    elim (Bool-cases (d.stores (delivery d ev name (notify ev)))) [
      | inl h ↦ rw h (
          Perm.trans (perm_middle (select d.stores (missed d bare fates)) _)
            (Perm.cons _ (entries-perm d bare ev fates)))
      | inr h ↦ rw h (entries-perm d bare ev fates)
    ]

told-named :
    (ev : Event) (fates : List Fate) → map (λ (c : Named). (c.0, ev)) (named fates) ≡ told ev fates
told-named ev [] = refl
told-named ev (passed_over ∷ fates) = told-named ev fates
told-named ev (unavailable name e ∷ fates) = told-named ev fates
told-named ev (reached name notify ∷ fates) =
    ap (λ (r : List (String × Event)). (name, ev) ∷ r) (told-named ev fates)

log-record_unlisted :
    (d : Delivering) (ev : Event) (cause : String) (names : List String) (o : Outbox)
    → ((record_unlisted d ev cause names o).log
        ≡ o.log ++ select d.stores (map (λ n. delivery d ev n (some cause)) names))
      × ((record_unlisted d ev cause names o).notified ≡ o.notified)
unfolding record_unlisted
log-record_unlisted d ev cause [] o = (sym (append-nil o.log), refl)
log-record_unlisted d ev cause (name ∷ names) o =
    let o1 = record_attempt d ev name (some cause) o in
    let rest = log-record_unlisted d ev cause names o1 in
    let entries = map (λ n. delivery d ev n (some cause)) names in
    (
      rest.0
          ∙ rw
              (
                log-record_attempt d ev name (some cause) o,
                select-append d.stores (delivery d ev name (some cause) ∷ []) entries,
              )
              (append_assoc o.log _ _),
      rest.1 ∙ notified-record_attempt d ev name (some cause) o,
    )

-- Channels that were gathered for an event and then notified.
deliver_all-attempts :
    (d : Delivering) (bare ev : Event) (fates : List Fate) (o : Outbox) (y : List Named × Outbox)
    → Gathered d (named fates) (missed d bare fates) ([], o) y
    → let o' = deliver_all d ev y.0 y.1 in
      Perm o'.log (o.log ++ select d.stores (attempts d bare ev fates))
      × (o'.notified ≡ o.notified ++ told ev fates)
deliver_all-attempts d bare ev fates o y g =
    let all = deliver_all-Delivered d ev (named fates) y.1 in
    rw (g.gathered) (
      rw
          (
            all.entries,
            g.logged,
            append_assoc o.log (select d.stores (missed d bare fates))
                (select d.stores (delivered d ev (named fates))),
          )
          (Perm.append_left o.log (entries-perm d bare ev fates)),
      all.events ∙ rw (g.quiet, told-named ev fates) refl,
    )

listed-attempts :
    (d : Delivering) (bare ev : Event) (names : List String) (o : Outbox)
    (r : Resolved (List NotifierChannel))
    → let y = channels_listed d bare names o r in
      let o' = deliver_all d ev y.0 y.1 in
      Perm o'.log (o.log ++ select d.stores (expected d bare ev names r))
      × (o'.notified ≡ o.notified ++ heard d bare ev names r)
unfolding deliver_all
listed-attempts d bare ev names o (failed e) =
    let all = log-record_unlisted d bare e names o in
    (rw all.0 (Perm.refl _), all.1 ∙ sym (append-nil o.notified))
listed-attempts d bare ev names o (ready configured) =
    let fates = task_fates d bare.kind names configured in
    deliver_all-attempts d bare ev fates o (visit_names d bare configured names ([], o))
      (visit_names-Gathered d bare configured names ([], o))

-- The log tells what became of an event of a task: it gains, in some order, one entry for each channel
-- that the task names, that is configured and that wants the event, or one failed entry for each name
-- where the channels cannot be listed, less the entries that the store refuses; an entry is marked as
-- sent exactly where the channel was built and answered without an error, and else as failed with the
-- scrubbed error; and exactly the channels that could be built are given the event, each as often as
-- the task names it.
pub send_event_attempts :
    (d : Delivering) (t : Task) (kind : String) (run : ℕ) (msg : String) (o : Outbox)
    → let bare = bare_event d kind t.name in
      let ev = task_event d t kind run msg in
      let o' = send_event d t kind run msg o in
      Perm o'.log (o.log ++ select d.stores (expected d bare ev t.notifiers d.listed))
      × (o'.notified ≡ o.notified ++ heard d bare ev t.notifiers d.listed)
unfolding send_event channels_for
send_event_attempts d t kind run msg o =
    listed-attempts d (bare_event d kind t.name) (task_event d t kind run msg) t.notifiers o
      d.listed

-- What the log has to gain for an event of the system.
abbrev pub expected_system :
    Delivering → Event → Resolved (List NotifierChannel) → List Notification
expected_system d ev (failed e) = []
expected_system d ev (ready configured) =
    attempts d ev ev (map (λ ch. fate_of d ev.kind (some ch)) configured)

system_listed-attempts :
    (d : Delivering) (ev : Event) (o : Outbox) (r : Resolved (List NotifierChannel))
    → let y = system_listed d ev o r in
      Perm (deliver_all d ev y.0 y.1).log (o.log ++ select d.stores (expected_system d ev r))
unfolding deliver_all
system_listed-attempts d ev o (failed e) = rw (append-nil o.log) (Perm.refl o.log)
system_listed-attempts d ev o (ready configured) =
    (deliver_all-attempts d ev ev (map (λ ch. fate_of d ev.kind (some ch)) configured) o
      (visit_configured d ev configured ([], o))
      (visit_configured-Gathered d ev configured ([], o))).0

-- The log gains an entry for each channel that wants an event of the system, in some order, and nothing
-- where the channels cannot be listed.
pub send_system_attempts :
    (d : Delivering) (kind subject msg : String) (o : Outbox)
    → let ev = system_event d kind subject msg in
      Perm
        (send_system d kind subject msg o).log
        (o.log ++ select d.stores (expected_system d ev d.listed))
unfolding send_system
send_system_attempts d kind subject msg o =
    system_listed-attempts d (system_event d kind subject msg) o d.listed

-- A test of a channel answers what the log tells of it.
pub test_channel-log :
    (d : Delivering) (ch : NotifierChannel) (o : Outbox)
    → let (answer, o') = test_channel d ch o in
      o'.log ≡ o.log ++ select d.stores (delivery d (test_event d) ch.name answer ∷ [])
unfolding test_channel
test_channel-log d ch o = tested-log d ch.name o (build d ch)
  where
    tested-log :
        (d : Delivering) (name : String) (o : Outbox) (b : Built)
        → let (answer, o') = tested d name o b in
          o'.log ≡ o.log ++ select d.stores (delivery d (test_event d) name answer ∷ [])
    tested-log d name o (unbuilt e) = log-record_attempt d (test_event d) name (some e) o
    tested-log d name o (built notify) =
        log-record_attempt d (test_event d) name (notify (test_event d))
          (record o { notified = o.notified ++ (name, test_event d) ∷ [] })
