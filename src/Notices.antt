-- ===== src/Notices.antt =====
-- Delivery of events to the configured channels (internal/core/notify.go) and its log, the table
-- notification. The store is there; the clock does not move during a delivery. A plugin's constructor
-- and what a channel answers are parameters, and so are `obs.Scrub` and the coding of JSON.
pub mod Fates
pub mod Attempts
use duskrun.Base.{
  ℕ, String, Bool, not, Option, none, some, List, [], ◌∷◌, ◌++◌, ◌==◌, str_eq, if◌then◌else◌,
}
use duskrun.Model.{Task, NotifierChannel, wants}
use duskrun.Config.{Entries}
use duskrun.Config.Resolver.{Opener, Resolved, failed, ready, ◌>>=◌, resolve}

-- `plugin.Event`
pub record Event : Type 0 where
  pub kind : String
  pub task : String
  pub subject : String
  pub run_id : ℕ
  pub message : String
  pub at : ℕ

pub data NotificationStatus : Type 0 where
  sent failed_delivery : NotificationStatus

-- `Notification`, less its id.
pub record Notification : Type 0 where
  pub kind : String
  pub task : String
  pub run_id : Option ℕ
  pub channel : String
  pub status : NotificationStatus
  pub error : String
  pub created_at : ℕ

-- A channel that was built, as what `Notify` answers for an event (`none` is no error), or the error.
pub data Built : Type 0 where
  unbuilt : String → Built
  built : (Event → Option String) → Built

-- The channels that `ListNotifiers` returns or the text of its error, the constructor of a plugin, and
-- which entries of the log can be inserted.
pub record Delivering : Type 0 where
  pub listed : Resolved (List NotifierChannel)
  pub opens : Opener
  pub decode : String → Option Entries
  pub encode : Entries → String
  pub create : String → String → Built
  pub stores : Notification → Bool
  pub scrub : String → String
  pub now : ℕ

-- The events that channels were given, by the channels' names, and the log.
pub record Outbox : Type 0 where
  pub notified : List (String × Event)
  pub log : List Notification

-- `namedNotifier`
abbrev pub Named : Type 0
Named = String × (Event → Option String)

abbrev or_same : String → Delivering → Option Entries → String
or_same raw d none = raw
or_same raw d (some fs) = d.encode fs

abbrev decoded : Delivering → String → Option Entries → Resolved String
decoded d raw none = failed "config"
decoded d raw (some fs) = resolve d.opens fs >>= λ r. ready (or_same raw d r)

abbrev created : Delivering → String → Resolved String → Built
created d kind (failed e) = unbuilt e
created d kind (ready cfg) = d.create kind cfg

-- `build`
unfoldable pub build : Delivering → NotifierChannel → Built
unfolding resolve
build d ch =
    created d ch.kind
      (if str_eq ch.config "" then ready ch.config else decoded d ch.config (d.decode ch.config))

abbrev pub about : Event → String
about ev = if str_eq ev.task "" then ev.subject else ev.task

abbrev pub run_of : Event → Option ℕ
run_of ev = if ev.run_id == 0 then none else some ev.run_id

-- The entry of an attempt, for the error if there was one.
unfoldable pub entry_of : Delivering → Event → String → Option String → Notification
entry_of d ev channel none = record {
  kind = ev.kind;
  task = about ev;
  run_id = run_of ev;
  channel = channel;
  status = sent;
  error = "";
  created_at = ev.at;
}
entry_of d ev channel (some cause) = record {
  kind = ev.kind;
  task = about ev;
  run_id = run_of ev;
  channel = channel;
  status = failed_delivery;
  error = d.scrub cause;
  created_at = ev.at;
}

-- `record`
unfoldable pub record_attempt : Delivering → Event → String → Option String → Outbox → Outbox
unfolding entry_of
record_attempt d ev channel cause o =
    let entry = entry_of d ev channel cause in
    if d.stores entry then record o { log = o.log ++ entry ∷ [] } else o

-- The event with which a channel that cannot be used is recorded.
abbrev pub bare_event : Delivering → String → String → Event
bare_event d kind task = record {
  kind = kind;
  task = task;
  subject = "";
  run_id = 0;
  message = "";
  at = d.now;
}

-- byName[name]; a later channel replaces an earlier one of its name.
abbrev pub by_name : String → List NotifierChannel → Option NotifierChannel
by_name name [] = none
by_name name (c ∷ cs) =
    let rest = by_name name cs in
    elim rest [ some x ↦ some x | none ↦ if str_eq c.name name then some c else none ]

abbrev pub with_built :
    Delivering → Event → String → List Named × Outbox → Built → List Named × Outbox
with_built d ev name (channels, o) (unbuilt e) = (channels, record_attempt d ev name (some e) o)
with_built d ev name (channels, o) (built notify) = (channels ++ (name, notify) ∷ [], o)

-- A wanted channel, added to the ones so far or recorded as unavailable.
unfoldable pub add_channel :
    Delivering → Event → NotifierChannel → List Named × Outbox → List Named × Outbox
unfolding build record_attempt
add_channel d ev ch acc = with_built d ev ch.name acc (build d ch)

abbrev pub visit_channel :
    Delivering → Event → Option NotifierChannel → List Named × Outbox → List Named × Outbox
visit_channel d ev none acc = acc
visit_channel d ev (some ch) acc = if not (wants ch ev.kind) then acc else add_channel d ev ch acc

-- The loop of `channelsFor` over the names of a task.
unfoldable pub visit_names :
    Delivering
    → Event
    → List NotifierChannel
    → List String
    → List Named × Outbox
    → List Named × Outbox
unfolding wants add_channel
visit_names d ev configured [] acc = acc
visit_names d ev configured (name ∷ names) acc =
    visit_names d ev configured names (visit_channel d ev (by_name name configured) acc)

-- Where the channels cannot be listed, each name is recorded as a failed attempt.
unfoldable pub record_unlisted : Delivering → Event → String → List String → Outbox → Outbox
unfolding record_attempt
record_unlisted d ev cause [] o = o
record_unlisted d ev cause (name ∷ names) o =
    record_unlisted d ev cause names (record_attempt d ev name (some cause) o)

abbrev pub channels_listed :
    Delivering
    → Event
    → List String
    → Outbox
    → Resolved (List NotifierChannel)
    → List Named × Outbox
channels_listed d ev names o (failed e) = ([], record_unlisted d ev e names o)
channels_listed d ev names o (ready configured) = visit_names d ev configured names ([], o)

-- `channelsFor`
unfoldable pub channels_for : Delivering → Task → String → Outbox → List Named × Outbox
unfolding record_unlisted visit_names
channels_for d t kind o = channels_listed d (bare_event d kind t.name) t.notifiers o d.listed

-- One channel is notified, and the attempt recorded.
unfoldable pub deliver : Delivering → Event → Named → Outbox → Outbox
unfolding record_attempt
deliver d ev (name, notify) o =
    record_attempt d ev name (notify ev) (record o { notified = o.notified ++ (name, ev) ∷ [] })

unfoldable pub deliver_all : Delivering → Event → List Named → Outbox → Outbox
unfolding deliver
deliver_all d ev [] o = o
deliver_all d ev (c ∷ channels) o = deliver_all d ev channels (deliver d ev c o)

abbrev pub task_event : Delivering → Task → String → ℕ → String → Event
task_event d t kind run msg = record {
  kind = kind;
  task = t.name;
  subject = "";
  run_id = run;
  message = d.scrub msg;
  at = d.now;
}

-- `Send`
unfoldable pub send_event : Delivering → Task → String → ℕ → String → Outbox → Outbox
unfolding channels_for deliver_all
send_event d t kind run msg o =
    let (channels, o') = channels_for d t kind o in
    deliver_all d (task_event d t kind run msg) channels o'

abbrev pub system_event : Delivering → String → String → String → Event
system_event d kind subject msg = record {
  kind = kind;
  task = "";
  subject = subject;
  run_id = 0;
  message = d.scrub msg;
  at = d.now;
}

-- The loop of `systemChannels`.
unfoldable pub visit_configured :
    Delivering → Event → List NotifierChannel → List Named × Outbox → List Named × Outbox
unfolding wants add_channel
visit_configured d ev [] acc = acc
visit_configured d ev (ch ∷ configured) acc =
    visit_configured d ev configured (visit_channel d ev (some ch) acc)

abbrev pub system_listed :
    Delivering → Event → Outbox → Resolved (List NotifierChannel) → List Named × Outbox
system_listed d ev o (failed e) = ([], o)
system_listed d ev o (ready configured) = visit_configured d ev configured ([], o)

-- `SendSystem`, with `systemChannels`.
unfoldable pub send_system : Delivering → String → String → String → Outbox → Outbox
unfolding visit_configured deliver_all
send_system d kind subject msg o =
    let ev = system_event d kind subject msg in
    let (channels, o') = system_listed d ev o d.listed in deliver_all d ev channels o'

-- The event of a test of a channel.
abbrev pub test_event : Delivering → Event
test_event d = record {
  kind = "success";
  task = "(проверка канала)";
  subject = "";
  run_id = 0;
  message = "test notification from duskrun";
  at = d.now;
}

abbrev pub tested : Delivering → String → Outbox → Built → Option String × Outbox
tested d name o (unbuilt e) = (some e, record_attempt d (test_event d) name (some e) o)
tested d name o (built notify) = (
  notify (test_event d),
  record_attempt d (test_event d) name (notify (test_event d))
      (record o { notified = o.notified ++ (name, test_event d) ∷ [] }),
)

-- `Test`, with its error.
unfoldable pub test_channel : Delivering → NotifierChannel → Outbox → Option String × Outbox
unfolding build record_attempt
test_channel d ch o = tested d ch.name o (build d ch)
