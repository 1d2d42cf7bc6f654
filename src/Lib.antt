-- ===== src/Lib.antt =====
-- Duskrun is a backup server: tasks with a cron schedule put runs into a queue,
-- a pool of workers takes runs from the queue and makes artifacts, a retention
-- policy prunes artifacts, and a watchdog reports tasks that stopped working.
-- This library models the parts of the server that decide something, as pure
-- functions of an explicit state, and proves what they promise.
--
-- Parts and their source (paths from the repository's root):
--   Model       internal/core/model.go: tasks, misfire policies, notifier
--               channels, roles. A row id is a number. Durations and times count
--               nanoseconds, columns of the database seconds.
--   Retention   internal/core/model.go (Retention) is Retention/Policy, the
--               calendar keys of the GFS buckets are Retention/Periods, Forget of
--               internal/core/retention.go is Retention/Forget, and Prune with
--               its storage cache is Retention/Prune. A storage is the list of
--               its keys; which deletions, openings and row deletions fail is
--               given by predicates, so a theorem covers every pattern of failure.
--   Queue       internal/store/sqlite/queue.go over the table run of
--               migrations/0001_init.sql with its partial unique index: Enqueue,
--               Requeue, ClaimNext, Finish and ReapStale are functions from
--               table to table, each one atomic statement as in the source.
--               Interleavings of workers, the dispatcher and requests are lists
--               of operations.
--   Dispatcher  internal/core/dispatcher.go and schedule.go: Tick over a record
--               of the store's operations, which Queue fills.
--   Watchdog    internal/core/watchdog.go and internal/store/sqlite/watchdog.go:
--               the threshold from the schedule, the verdict on one task, and the
--               check over all tasks with its marks.
--   AlertStore  internal/store/sqlite/alert.go over alert_state: episodes that are
--               opened, graded and closed.
--   Executor    internal/core/executor.go: what Run records in the table run and
--               the catalog, after a pipeline that is a parameter.
--   Worker      internal/core/worker.go, runevents.go and backoff.go: ProcessNext
--               over the queue, the executor, the alert episodes and the watchdog's
--               marks; each call of the store may fail as its answers say.
--   Monitor     internal/core/monitor.go: CheckRuns, and CheckStorages with its
--               reachability and capacity episodes.
--   Access      internal/api/auth.go (authenticate, resolveSession, slideExpiry and
--               guard) is Access, loginLimiter is Access/Throttle, the pending map of
--               internal/api/mfa.go is Access/Pending, and VerifyTOTP of
--               internal/auth/totp.go with AdvanceTOTPStep of
--               internal/store/sqlite/mfa.go is Access/SecondFactor.
--   Users       internal/store/sqlite/user.go over app_user and session of
--               migrations/0007_users.sql: creation, editing, deletion, passwords.
--   Hub         internal/core/progress.go: publishing, the ring buffer, subscribing,
--               cancelling and closing; pointers to live runs are addresses.
--   Sweeper     internal/core/sweep.go: sweepLocked and sweepTask over Prune.
--   ArtifactKey internal/core/pipeline.go (BuildArtifactKey, ArtifactPrefix, dumpExt,
--               slug) and keyPrefix of internal/core/retention.go; Orphans of the same
--               file is Retention/Orphans.
--   Factors     internal/store/sqlite/mfa.go over user_totp, webauthn_credential and
--               recovery_code of migrations/0008_mfa.sql; the handlers of
--               internal/api/handlers_mfa.go for a user's own factors and the reset by
--               an admin are Factors/Enrolment, and Factors/Requests serves lists of
--               them.
--   Login       internal/api/handlers_auth.go: login, issueSession, startMFAChallenge;
--               loginMFA of internal/api/handlers_mfa.go is Login/SecondStep, in the
--               three phases between which other requests may run.
--   Config      plugin configs as decoded JSON values: internal/api/config_mask.go is
--               Config/Masking, internal/core/secrets.go is Config/Resolver, and
--               Config/Refs is SecretRefs and DeleteSecret of
--               internal/store/sqlite/delete.go with deleteSecret of
--               internal/api/handlers_delete.go.
--   Notices     internal/core/notify.go: Send, SendSystem, Test, channelsFor,
--               systemChannels and record over the log of deliveries.
--   Sessions    internal/store/sqlite/session.go over the table session, what
--               resolveSession of internal/api/auth.go does to it, and logout,
--               changeOwnPassword and deleteSession of internal/api/handlers_auth.go;
--               Sessions/Promise is the map from tokens that the table stands for.
--   Deletions   internal/store/sqlite/delete.go and internal/api/handlers_delete.go over
--               the tables of migrations/0001_init.sql with their foreign keys.
--   Examples    every theorem that has hypotheses at a concrete input.
-- The dispatcher and the queue interact through DispatchStore. Login stores the
-- sessions that Sessions keeps and Access resolves; Factors and Users share the table of
-- accounts; Worker composes Queue, Executor, AlertStore and the marks of Watchdog, and
-- Sweeper runs Prune; Notices builds channels with the resolver of Config.
--
-- Parameters. The cron library is a function from an expression to an optional
-- schedule, and a schedule a function from a time to the next activation; where a
-- theorem needs that an activation is later than the time it is asked for, this is
-- a hypothesis. Calendar functions of Go's time package are a parameter as well
-- (Periods). The zero time of Go is 0, before every time the server works with.
-- strings.ToLower, the text of a time and strconv.FormatInt are functions that are
-- given; the libraries for passwords, tokens, WebAuthn and encryption answer each
-- request as its record of answers says. Where Go walks a map, a list gives the order.
--
-- Bounds and fuel. Numbers are natural numbers: ids come from an INTEGER PRIMARY
-- KEY, counts from lengths, and durations are nanoseconds below 2 ^ 63.
-- walk_gaps counts its samples down from the limit that the source has. The fuel
-- of probe_gaps is the number of probe steps that fit into the window.
--
-- Not modelled: HTTP decoding, the web interface, dumpers, connectors, codecs and
-- storages (processes, network, files), the texts of messages, logging, and
-- driver failures of the database other than the ones a definition names.
pub mod Base
pub mod Model
pub mod Retention
pub mod Queue
pub mod Dispatcher
pub mod Watchdog
pub mod Access
pub mod AlertStore
pub mod ArtifactKey
pub mod Config
pub mod Deletions
pub mod Executor
pub mod Factors
pub mod Hub
pub mod Login
pub mod Monitor
pub mod Notices
pub mod Sessions
pub mod Sweeper
pub mod Users
pub mod Worker
pub mod Examples
