-- ===== src/Executor.antt =====
-- The recording half of `Executor` (internal/core/executor.go): what `Run` does with the table run
-- and the catalog once the plugins are assembled and the pipeline has ended. The pipeline's result is
-- a parameter.
pub mod Outcomes
use duskrun.Base.{
  ℕ, suc, max, String, Bool, true, false, Option, none, some, List, [], ◌∷◌, ◌++◌, if◌then◌else◌,
}
use duskrun.Queue.{Table, finish, RunStatus, success, failed, Result, ok, err}
use duskrun.Retention.Forget.{Artifact}

-- What `RunPipeline` returns.
pub record PipelineResult : Type 0 where
  pub key : String
  pub size : ℕ
  pub checksum : String

-- What the calls of one `Run` answer: the pipeline with all that is assembled before it (`none`
-- with the text in `failure` where one of them fails), and whether the store performs the insertion and the two updates.
pub record Calls : Type 0 where
  pub pipeline : Option PipelineResult
  pub failure : String
  pub inserts : Bool
  pub finishes : Bool
  pub fails : Bool
  pub log : String

pub record Outcome : Type 0 where
  pub key : String
  pub size : ℕ
  pub checksum : String
  pub artifact_id : ℕ

pub record Records : Type 0 where
  pub queue : Table
  pub artifacts : List Artifact

abbrev max_artifact : List Artifact → ℕ
max_artifact [] = 0
max_artifact (a ∷ rest) = max a.id (max_artifact rest)

-- `InsertArtifact`: the row, created at `now`.
abbrev pub new_artifact : ℕ → ℕ → ℕ → PipelineResult → List Artifact → Artifact
new_artifact now run storage res artifacts = record {
  id = suc (max_artifact artifacts);
  run_id = run;
  storage_id = storage;
  key = res.key;
  size = res.size;
  checksum = res.checksum;
  created_at = now;
  expires_hint = none;
}

abbrev pub insert_artifact : ℕ → ℕ → ℕ → PipelineResult → Records → Records
insert_artifact now run storage res r = record r {
  artifacts = r.artifacts ++ new_artifact now run storage res r.artifacts ∷ [];
}

abbrev pub answered : Result (Unit {0}) × Table → Records → Bool × Records
answered (ok u, t) r = (true, record r { queue = t })
answered (err e, t) r = (false, record r { queue = t })

-- `Finish`, which `succeeds` or leaves the table as it is.
unfoldable pub try_finish : Bool → ℕ → RunStatus → String → String → ℕ → Records → Bool × Records
unfolding finish
try_finish false run status log error now r = (false, r)
try_finish true run status log error now r = answered (finish run status log error now r.queue) r

abbrev pub outcome_of : Artifact → Outcome
outcome_of a = record { key = a.key; size = a.size; checksum = a.checksum; artifact_id = a.id }

-- The outcome once the success is recorded, `none` where the update failed.
abbrev pub finished_with : Outcome → Bool × Records → Option Outcome × Records
finished_with out (true, r) = (some out, r)
finished_with out (false, r) = (none, r)

-- The end of `run`: the artifact is recorded, then the success.
unfoldable pub record_success :
    Calls → ℕ → ℕ → ℕ → PipelineResult → Records → Option Outcome × Records
unfolding try_finish
record_success calls now run storage res r =
    if calls.inserts
    then finished_with (outcome_of (new_artifact now run storage res r.artifacts)) (
        try_finish calls.finishes run success calls.log "" now
          (insert_artifact now run storage res r))
    else (none, r)

-- `run` from the answer of the pipeline on.
abbrev pub pipeline_ended :
    Calls → ℕ → ℕ → ℕ → Records → Option PipelineResult → Option Outcome × Records
pipeline_ended calls now run storage r none = (none, r)
pipeline_ended calls now run storage r (some res) = record_success calls now run storage res r

-- `run`, with the assembly of the plugins and the pipeline in one call.
unfoldable pub run_steps : Calls → ℕ → ℕ → ℕ → Records → Option Outcome × Records
unfolding record_success
run_steps calls now run storage r = pipeline_ended calls now run storage r calls.pipeline

-- A failure is recorded as such, whatever step it comes from.
unfoldable pub record_failure : Calls → ℕ → ℕ → Option Outcome × Records → Option Outcome × Records
unfolding try_finish
record_failure calls now run (some out, r) = (some out, r)
record_failure calls now run (none, r) =
    (none, (try_finish calls.fails run failed calls.log calls.failure now r).1)

-- `Run`
unfoldable pub execute_run : Calls → ℕ → ℕ → ℕ → Records → Option Outcome × Records
unfolding run_steps record_failure
execute_run calls now run storage r =
    record_failure calls now run (run_steps calls now run storage r)
