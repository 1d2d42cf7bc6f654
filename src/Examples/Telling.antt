-- ===== src/Examples/Telling.antt =====
-- Runs of Send and SendSystem (internal/core/notify.go).
use duskrun.Base.{
  ℕ, ◌≡◌, refl, pos, String, true, Option, none, some, [], ◌∷◌, ◌++◌, select, str_eq, if◌then◌else◌,
  Perm,
}
use duskrun.Model.{Task, NotifierChannel, skip, wants}
use duskrun.Config.Resolver.{ready}
use duskrun.Notices.{
  Notification, Built, unbuilt, built, Delivering, Outbox, bare_event, task_event, send_event,
  build, entry_of,
}
use duskrun.Notices.Attempts.{expected, heard, send_event_attempts}

abbrev channel : ℕ → String → String → NotifierChannel
channel i name kind = record {
  id = i;
  name = name;
  kind = kind;
  config = "";
  events = "failure" ∷ [];
  enabled = true;
  created_at = 0;
}

-- A log that takes everything, a chat that does not answer, and a plugin that is not there.
abbrev make : String → String → Built
make kind config =
    if str_eq kind "log"
    then built (λ ev. none)
    else if str_eq kind "chat"
    then built (λ ev. some "timeout")
    else unbuilt "unknown plugin"

abbrev delivering : Delivering
delivering = record {
  listed = ready (channel 1 "log" "log" ∷ channel 2 "chat" "chat" ∷ channel 3 "old" "pager" ∷ []);
  opens = λ ref. none;
  decode = λ raw. none;
  encode = λ fs. "";
  create = make;
  stores = λ entry. true;
  scrub = λ msg. msg;
  now = 7;
}

abbrev task : Task
task = record {
  id = 1;
  name = "orders";
  connection_id = 1;
  dumper_opts = "{}";
  codec_chain = [];
  storage_id = 1;
  cron = "0 * * * *";
  retention = record { keep_last = pos 0; gfs = none };
  notifiers = "log" ∷ "old" ∷ "gone" ∷ "chat" ∷ [];
  enabled = true;
  misfire = skip;
  retries = pos 0;
  timeout = pos 0;
  watchdog = pos 0;
  enabled_at = 0;
  created_at = 0;
}

abbrev quiet : Outbox
quiet = record { notified = []; log = [] }

abbrev row : Option ℕ → String → Option String → Notification
unfolding entry_of
row run name cause =
    entry_of delivering
      (record {
        kind = "failure";
        task = "orders";
        subject = "";
        run_id = elim run [ none ↦ 0 | some r ↦ r ];
        message = "";
        at = 7;
      })
      name cause

-- The plugin that is missing is told first, and without the run.
send_event_run :
    (send_event delivering task "failure" 5 "disk full" quiet).log
    ≡ row none "old" (some "unknown plugin")
      ∷ row (some 5) "log" none
      ∷ row (some 5) "chat" (some "timeout")
      ∷ []
unfolding send_event wants build
send_event_run = refl

send_event_attempts_example :
    let bare = bare_event delivering "failure" "orders" in
    let ev = task_event delivering task "failure" 5 "disk full" in
    let o = send_event delivering task "failure" 5 "disk full" quiet in
    Perm o.log (
      quiet.log
      ++ select (λ entry. true) (expected delivering bare ev task.notifiers delivering.listed))
    × (o.notified ≡ quiet.notified ++ heard delivering bare ev task.notifiers delivering.listed)
send_event_attempts_example = send_event_attempts delivering task "failure" 5 "disk full" quiet
