-- ===== src/Notices/Fates.antt =====
-- What becomes of the channels for an event, and how the loops of internal/core/notify.go gather them.
use mathlib.Core.List.{append-nil, append_assoc}
use duskrun.Base.{
  ℕ, zero, suc, ◌==◌, str_eq, ap, ◌≡◌, refl, sym, ◌∙◌, String, Bool, Option, none, some, List, [],
  ◌∷◌, ◌++◌, map, select, if◌then◌else◌, Bool-cases, arith, inl, inr,
}
use duskrun.Model.{NotifierChannel, wants}
use duskrun.Notices.{
  Event, Notification, NotificationStatus, sent, failed_delivery, Built, unbuilt, built, Delivering,
  Outbox, Named, build, entry_of, record_attempt, by_name, visit_channel, with_built, add_channel,
  visit_names, visit_configured,
}

-- What becomes of a channel for an event: nothing, it cannot be built, or it is notified.
pub data Fate : Type 0 where
  passed_over : Fate
  unavailable : String → String → Fate
  reached : String → (Event → Option String) → Fate

abbrev pub built_fate : String → Built → Fate
built_fate name (unbuilt e) = unavailable name e
built_fate name (built notify) = reached name notify

abbrev pub fate_of : Delivering → String → Option NotifierChannel → Fate
fate_of d kind none = passed_over
fate_of d kind (some ch) = if wants ch kind then built_fate ch.name (build d ch) else passed_over

-- How the log has to tell a delivery with what the channel answered: `sent` where it answered no
-- error, and else failed with the error's text scrubbed; of the task or, where the event has none,
-- of the event's subject; with the run if there is one.
abbrev pub about_of : String → String → String
about_of task subject = if str_eq task "" then subject else task

abbrev pub run_told : ℕ → Option ℕ
run_told zero = none
run_told (suc n) = some (suc n)

abbrev pub status_told : Option String → NotificationStatus
status_told none = sent
status_told (some cause) = failed_delivery

abbrev pub error_told : (String → String) → Option String → String
error_told scrub none = ""
error_told scrub (some cause) = scrub cause

abbrev pub delivery : Delivering → Event → String → Option String → Notification
delivery d ev channel answer = record {
  kind = ev.kind;
  task = about_of ev.task ev.subject;
  run_id = run_told ev.run_id;
  channel = channel;
  status = status_told answer;
  error = error_told d.scrub answer;
  created_at = ev.at;
}

run_told_of : (n : ℕ) → (if n == 0 then none else some n) ≡ run_told n
run_told_of zero = refl
run_told_of (suc n) = ground arith

entry_of-delivery :
    (d : Delivering) (ev : Event) (name : String) (cause : Option String)
    → entry_of d ev name cause ≡ delivery d ev name cause
unfolding entry_of
entry_of-delivery d ev name none = rw (run_told_of ev.run_id)
entry_of-delivery d ev name (some cause) = rw (run_told_of ev.run_id)

-- The attempt that has to be in the log for a fate: one without the run where the channel was not
-- built, and one with the answer of the channel where it was notified.
abbrev pub attempt : Delivering → Event → Event → Fate → List Notification
attempt d bare ev passed_over = []
attempt d bare ev (unavailable name e) = delivery d bare name (some e) ∷ []
attempt d bare ev (reached name notify) = delivery d ev name (notify ev) ∷ []

abbrev pub attempts : Delivering → Event → Event → List Fate → List Notification
attempts d bare ev [] = []
attempts d bare ev (f ∷ fates) = attempt d bare ev f ++ attempts d bare ev fates

-- Which channels are notified.
abbrev pub reached_of : Event → Fate → List (String × Event)
reached_of ev passed_over = []
reached_of ev (unavailable name e) = []
reached_of ev (reached name notify) = (name, ev) ∷ []

abbrev pub told : Event → List Fate → List (String × Event)
told ev [] = []
told ev (f ∷ fates) = reached_of ev f ++ told ev fates

-- The fates of the channels that a task names.
abbrev pub task_fates : Delivering → String → List String → List NotifierChannel → List Fate
task_fates d kind names configured = map (λ n. fate_of d kind (by_name n configured)) names

abbrev pub named_of : Fate → List Named
named_of passed_over = []
named_of (unavailable name e) = []
named_of (reached name notify) = (name, notify) ∷ []

abbrev pub named : List Fate → List Named
named [] = []
named (f ∷ fates) = named_of f ++ named fates

abbrev pub missed_of : Delivering → Event → Fate → List Notification
missed_of d bare passed_over = []
missed_of d bare (unavailable name e) = delivery d bare name (some e) ∷ []
missed_of d bare (reached name notify) = []

abbrev pub missed : Delivering → Event → List Fate → List Notification
missed d bare [] = []
missed d bare (f ∷ fates) = missed_of d bare f ++ missed d bare fates

abbrev pub delivered : Delivering → Event → List Named → List Notification
delivered d ev [] = []
delivered d ev ((name, notify) ∷ channels) =
    delivery d ev name (notify ev) ∷ delivered d ev channels

pub select-append {ℓ} :
    {A : Type ℓ} (p : A → Bool) (xs ys : List A) → select p (xs ++ ys) ≡ select p xs ++ select p ys
select-append p [] ys = refl
select-append p (x ∷ xs) ys = elim (Bool-cases (p x)) [
  | inl e ↦ rw (e, select-append p xs ys) refl
  | inr e ↦ rw (e, select-append p xs ys) refl
]

log-record_attempt_entry :
    (d : Delivering) (ev : Event) (name : String) (cause : Option String) (o : Outbox)
    → (record_attempt d ev name cause o).log
      ≡ o.log ++ select d.stores (entry_of d ev name cause ∷ [])
unfolding record_attempt
log-record_attempt_entry d ev name cause o =
    elim (Bool-cases (d.stores (entry_of d ev name cause))) [
      | inl e ↦ rw e refl
      | inr e ↦ rw e (sym (append-nil o.log))
    ]

pub log-record_attempt :
    (d : Delivering) (ev : Event) (name : String) (cause : Option String) (o : Outbox)
    → (record_attempt d ev name cause o).log
      ≡ o.log ++ select d.stores (delivery d ev name cause ∷ [])
log-record_attempt d ev name cause o =
    log-record_attempt_entry d ev name cause o
    ∙ ap (λ entry. o.log ++ select d.stores (entry ∷ [])) (entry_of-delivery d ev name cause)

pub notified-record_attempt :
    (d : Delivering) (ev : Event) (name : String) (cause : Option String) (o : Outbox)
    → (record_attempt d ev name cause o).notified ≡ o.notified
unfolding record_attempt
notified-record_attempt d ev name cause o =
    elim (Bool-cases (d.stores (entry_of d ev name cause))) [
      | inl e ↦ rw e refl
      | inr e ↦ rw e refl
    ]

-- An accumulator of the loops after some channels.
pub record Gathered (d : Delivering) (channels : List Named) (entries : List Notification)
    (x y : List Named × Outbox) : Type 0 where
  pub gathered : y.0 ≡ x.0 ++ channels
  pub logged : y.1.log ≡ x.1.log ++ select d.stores entries
  pub quiet : y.1.notified ≡ x.1.notified

Gathered-nothing : (d : Delivering) (x : List Named × Outbox) → Gathered d [] [] x x
Gathered-nothing d x = record {
  gathered = sym (append-nil x.0);
  logged = sym (append-nil x.1.log);
  quiet = refl;
}

Gathered-more :
    (d : Delivering) (cs ds : List Named) (es fs : List Notification) (x y z : List Named × Outbox)
    → Gathered d cs es x y
    → Gathered d ds fs y z
    → Gathered d (cs ++ ds) (es ++ fs) x z
Gathered-more d cs ds es fs x y z g h = record {
  gathered = rw (h.gathered, g.gathered) (append_assoc x.0 cs ds);
  logged = rw (h.logged, g.logged, select-append d.stores es fs) (append_assoc x.1.log _ _);
  quiet = h.quiet ∙ g.quiet;
}

with_built-Gathered :
    (d : Delivering) (bare : Event) (name : String) (x : List Named × Outbox) (b : Built)
    → let f = built_fate name b in
      Gathered d (named_of f) (missed_of d bare f) x (with_built d bare name x b)
with_built-Gathered d bare name (channels, o) (unbuilt e) = record {
  gathered = sym (append-nil channels);
  logged = log-record_attempt d bare name (some e) o;
  quiet = notified-record_attempt d bare name (some e) o;
}
with_built-Gathered d bare name (channels, o) (built notify) = record {
  gathered = refl;
  logged = sym (append-nil o.log);
  quiet = refl;
}

visit_channel-Gathered :
    (d : Delivering) (bare : Event) (ch : Option NotifierChannel) (x : List Named × Outbox)
    → let f = fate_of d bare.kind ch in
      Gathered d (named_of f) (missed_of d bare f) x (visit_channel d bare ch x)
unfolding add_channel
visit_channel-Gathered d bare none x = Gathered-nothing d x
visit_channel-Gathered d bare (some ch) x = elim (Bool-cases (wants ch bare.kind)) [
  | inl e ↦ rw e (with_built-Gathered d bare ch.name x (build d ch))
  | inr e ↦ rw e (Gathered-nothing d x)
]

pub visit_names-Gathered :
    (d : Delivering) (bare : Event) (configured : List NotifierChannel) (names : List String)
    (x : List Named × Outbox)
    → let fates = task_fates d bare.kind names configured in
      Gathered d (named fates) (missed d bare fates) x (visit_names d bare configured names x)
unfolding visit_names
visit_names-Gathered d bare configured [] x = Gathered-nothing d x
visit_names-Gathered d bare configured (name ∷ names) x =
    let ch = by_name name configured in
    let y = visit_channel d bare ch x in
    Gathered-more d _ _ _ _ x y (visit_names d bare configured names y)
      (visit_channel-Gathered d bare ch x) (visit_names-Gathered d bare configured names y)

pub visit_configured-Gathered :
    (d : Delivering) (bare : Event) (configured : List NotifierChannel) (x : List Named × Outbox)
    → let fates = map (λ ch. fate_of d bare.kind (some ch)) configured in
      Gathered d (named fates) (missed d bare fates) x (visit_configured d bare configured x)
unfolding visit_configured
visit_configured-Gathered d bare [] x = Gathered-nothing d x
visit_configured-Gathered d bare (ch ∷ configured) x =
    let y = visit_channel d bare (some ch) x in
    Gathered-more d _ _ _ _ x y (visit_configured d bare configured y)
      (visit_channel-Gathered d bare (some ch) x) (visit_configured-Gathered d bare configured y)
