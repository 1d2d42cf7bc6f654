-- ===== src/Examples/Locating.antt =====
-- Runs of BuildArtifactKey, keyPrefix (internal/core/pipeline.go) and Orphans
-- (internal/core/retention.go).
use duskrun.Base.{
  ℕ, ◌≡◌, refl, ◌&&◌, ◌||◌, not, pos, String, true, none, some, [], ◌∷◌, map, any, str_eq,
  if◌then◌else◌,
}
use duskrun.Model.{Task, skip}
use duskrun.ArtifactKey.{slug, build_artifact_key, artifact_prefix, key_prefix}
use duskrun.Retention.Forget.{Artifact}
use duskrun.Retention.Prune.{location, holds}
use duskrun.Retention.Orphans.{Listings, own_scope, scope_of, orphans}
use duskrun.Retention.Orphans.Report.{is_listed, orphans_exact, orphans_shared}

-- The names here have no capital letters.
abbrev to_lower : String → String
to_lower s = s

key_run :
    build_artifact_key to_lower " orders db" "a/b" "postgres" "custom" (".gz" ∷ []) "20240101_0300"
    ≡ "orders-db/a-b/20240101_0300_a-b.dump.gz"
unfolding build_artifact_key slug
key_run = refl

-- A name of two dots stays what it is.
dots_run : slug to_lower ".." ≡ ".."
unfolding slug
dots_run = refl

abbrev task : ℕ → String → Task
task i name = record {
  id = i;
  name = name;
  connection_id = 1;
  dumper_opts = "{}";
  codec_chain = [];
  storage_id = 1;
  cron = "0 * * * *";
  retention = record { keep_last = pos 0; gfs = none };
  notifiers = [];
  enabled = true;
  misfire = skip;
  retries = pos 0;
  timeout = pos 0;
  watchdog = pos 0;
  enabled_at = 0;
  created_at = 0;
}

abbrev artifact : ℕ → String → Artifact
artifact i key = record {
  id = i;
  run_id = i;
  storage_id = 1;
  key = key;
  size = 100;
  checksum = "";
  created_at = 0;
  expires_hint = none;
}

abbrev own : Artifact
own = artifact 1 "orders-db/a/20240101_0300_a.rdb"

abbrev other : Artifact
other = artifact 2 "orders-db/b/20240101_0400_b.rdb"

-- The storage holds the artifacts of two tasks, "orders db" and "orders-db".
abbrev listings : Listings
listings = record {
  opens = λ i. true;
  lists =
      λ i prefix. if str_eq prefix "orders-db/" then some (own.key ∷ other.key ∷ []) else some [];
}

orphans_exact_example :
    holds (orphans to_lower listings (task 1 "orders db") (some (own ∷ []))).found (location other)
    ≡ ((is_listed listings (location other) (own_scope to_lower (task 1 "orders db"))
          || any (λ a. is_listed listings (location other) (scope_of a)) (own ∷ []))
        && not (holds (map location (own ∷ [])) (location other)))
orphans_exact_example =
    orphans_exact to_lower listings (task 1 "orders db") (own ∷ []) (location other)

orphans_shared_example :
    holds (orphans to_lower listings (task 1 "orders db") (some (own ∷ []))).found (location other)
    ≡ true
unfolding build_artifact_key artifact_prefix slug key_prefix
orphans_shared_example =
    orphans_shared to_lower listings (task 1 "orders db") (task 2 "orders-db") (own ∷ []) other "b"
      "redis" "" [] "20240101_0400" refl refl refl refl refl
