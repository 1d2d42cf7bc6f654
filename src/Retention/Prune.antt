-- ===== src/Retention/Prune.antt =====
-- `storageCache` and `RetentionManager.Prune` (internal/core/retention.go), against a catalog and
-- the objects of the storages.
pub mod Safety
pub mod Progress
use duskrun.Base.{
  ℕ, String, Bool, true, false, ◌&&◌, not, Option, none, some, List, [], ◌∷◌, ◌++◌, ◌==◌, str_eq,
  if◌then◌else◌, contains, select,
}
use duskrun.Retention.Policy.{Policy}
use duskrun.Retention.Forget.{Artifact, forget}

-- A key within the storage that holds it.
pub record Located : Type 0 where
  pub storage_id : ℕ
  pub key : String

abbrev pub location : Artifact → Located
location a = record { storage_id = a.storage_id; key = a.key }

abbrev pub same_location : Located → Located → Bool
same_location x y = x.storage_id == y.storage_id && str_eq x.key y.key

abbrev pub holds : List Located → Located → Bool
holds [] x = false
holds (y ∷ ys) x = if same_location y x then true else holds ys x

-- What the context and the calls answer while one artifact is pruned: whether the context is done,
-- and whether opening the storage, deleting the object and deleting the row succeed.
pub record Turn : Type 0 where
  pub cancelled : Bool
  pub opens : Bool
  pub object_deletes : Bool
  pub row_deletes : Bool

pub data PruneError : Type 0 where
  list_failed : PruneError
  context_done : PruneError
  open_failed : ℕ → PruneError
  object_failed : String → PruneError
  row_failed : ℕ → PruneError

-- The store's catalog and the storages' objects, the ids in `storageCache.seen`, and the two
-- results under construction.
pub record Pruning : Type 0 where
  pub catalog : List Artifact
  pub objects : List Located
  pub seen : List ℕ
  pub deleted : List Artifact
  pub errs : List PruneError

-- `DeleteArtifact`: DELETE FROM artifact WHERE id = ?
abbrev pub without_row : ℕ → List Artifact → List Artifact
without_row i = select (λ b. not (b.id == i))

-- `Storage.Delete`: a missing key counts as deleted.
abbrev pub without_object : Located → List Located → List Located
without_object x = select (λ y. not (same_location y x))

abbrev fail : PruneError → Pruning → Pruning
fail e s = record s { errs = s.errs ++ e ∷ [] }

-- `storageCache.get`: a storage is opened once and then remembered.
unfoldable pub cache_get : Turn → ℕ → List ℕ → Option (List ℕ)
cache_get t i seen =
    if contains seen i then some seen else if t.opens then some (i ∷ seen) else none

delete_row : Turn → Artifact → Pruning → Pruning
delete_row t a s =
    if t.row_deletes
    then record s { catalog = without_row a.id s.catalog; deleted = s.deleted ++ a ∷ [] }
    else fail (row_failed a.id) s

delete_object : Turn → Artifact → Pruning → Pruning
unfolding delete_row
delete_object t a s =
    if t.object_deletes
    then delete_row t a (record s { objects = without_object (location a) s.objects })
    else fail (object_failed a.key) s

-- The body of the loop for one artifact; each failure goes on to the next one.
unfoldable pub prune_one : Turn → Artifact → Pruning → Pruning
unfolding cache_get delete_object
prune_one t a s = elim (cache_get t a.storage_id s.seen) [
  | none ↦ fail (open_failed a.id) s
  | some seen ↦ delete_object t a (record s { seen = seen })
]

unfoldable pub prune_loop : (Artifact → Turn) → List Artifact → Pruning → Pruning
prune_loop turn [] s = s
prune_loop turn (a ∷ rest) s =
    let next = prune_loop turn rest (prune_one (turn a) a s) in
    if (turn a).cancelled then fail context_done s else next

-- `Prune`, given what `ListArtifactsByTask` returned (`none` is its error).
unfoldable pub prune :
    Policy → (Artifact → Turn) → Option (List Artifact) → List Artifact → List Located → Pruning
prune ret turn none catalog objects = record {
  catalog = catalog;
  objects = objects;
  seen = [];
  deleted = [];
  errs = list_failed ∷ [];
}
prune ret turn (some artifacts) catalog objects =
    prune_loop turn (forget ret artifacts).1
      (record { catalog = catalog; objects = objects; seen = []; deleted = []; errs = [] })
