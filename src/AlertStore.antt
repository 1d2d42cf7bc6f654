-- ===== src/AlertStore.antt =====
-- Alert episodes: OpenAlert, CloseAlert and AlertLevel of internal/store/sqlite/alert.go over the
-- table alert_state, whose primary key is the kind with the subject.
pub mod Levels
use duskrun.Base.{ℕ, Bool, not, ◌&&◌, List, [], ◌∷◌, ◌==◌, if◌then◌else◌, any, select}

-- The kinds that the worker and the monitor store.
pub data AlertKind : Type 0 where
  task_failure unreachable_storage low_storage : AlertKind

-- What `taskSubject` and `storageSubject` name.
pub data SubjectTable : Type 0 where
  tasks storages : SubjectTable

pub record Key : Type 0 where
  pub kind : AlertKind
  pub table : SubjectTable
  pub id : ℕ

pub record Alert : Type 0 where
  pub key : Key
  pub level : ℕ
  pub opened_at : ℕ

abbrev kind_code : AlertKind → ℕ
kind_code task_failure = 0
kind_code unreachable_storage = 1
kind_code low_storage = 2

abbrev table_code : SubjectTable → ℕ
table_code tasks = 0
table_code storages = 1

unfoldable pub same_key : Key → Key → Bool
same_key x y =
    kind_code x.kind == kind_code y.kind
    && (table_code x.table == table_code y.table && x.id == y.id)

-- `taskSubject` and `storageSubject` under their kinds.
abbrev pub failure_of : ℕ → Key
failure_of i = record { kind = task_failure; table = tasks; id = i }

abbrev pub unreachable_of : ℕ → Key
unreachable_of i = record { kind = unreachable_storage; table = storages; id = i }

abbrev pub low_of : ℕ → Key
low_of i = record { kind = low_storage; table = storages; id = i }

-- 0 where no row has the key.
unfoldable pub alert_level : Key → List Alert → ℕ
alert_level k [] = 0
alert_level k (a ∷ rows) = if same_key a.key k then a.level else alert_level k rows

-- INSERT … ON CONFLICT (kind, subject) DO UPDATE SET level = excluded.level
unfoldable pub upsert_alert : Key → ℕ → ℕ → List Alert → List Alert
upsert_alert k level at [] = record { key = k; level = level; opened_at = at } ∷ []
upsert_alert k level at (a ∷ rows) =
    let rest = upsert_alert k level at rows in
    if same_key a.key k then record a { level = level } ∷ rows else a ∷ rest

-- The level before, and the table with the episode at `level`.
unfoldable pub open_alert : Key → ℕ → ℕ → List Alert → ℕ × List Alert
unfolding alert_level upsert_alert
open_alert k level at rows = (alert_level k rows, upsert_alert k level at rows)

-- Whether an episode was open, and the table without it.
unfoldable pub close_alert : Key → List Alert → Bool × List Alert
close_alert k rows = (any (λ a. same_key a.key k) rows, select (λ a. not (same_key a.key k)) rows)
