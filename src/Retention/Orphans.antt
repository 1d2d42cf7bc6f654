-- ===== src/Retention/Orphans.antt =====
-- `RetentionManager.Orphans` (internal/core/retention.go). The order in which Go walks its map of
-- scopes is that of a list, and a storage answers each call as `Listings` says. The cache of opened
-- storages changes no answer here: a storage opens or not by its id.
pub mod Report
use duskrun.Base.{
  ℕ, String, Bool, true, false, ◌&&◌, ◌||◌, Option, none, some, List, [], ◌∷◌, ◌++◌, map, ◌==◌,
  str_eq, if◌then◌else◌,
}
use duskrun.Model.{Task}
use duskrun.ArtifactKey.{artifact_prefix, key_prefix}
use duskrun.Retention.Forget.{Artifact}
use duskrun.Retention.Prune.{Located, location, holds}

pub record Scope : Type 0 where
  pub storage_id : ℕ
  pub prefix : String

abbrev pub same_scope : Scope → Scope → Bool
same_scope x y = x.storage_id == y.storage_id && str_eq x.prefix y.prefix

abbrev pub has_scope : List Scope → Scope → Bool
has_scope [] x = false
has_scope (y ∷ ys) x = if same_scope y x then true else has_scope ys x

-- Which storages open, and the keys that a storage lists under a prefix (`none` is an error).
pub record Listings : Type 0 where
  pub opens : ℕ → Bool
  pub lists : ℕ → String → Option (List String)

pub data OrphanError : Type 0 where
  no_catalog : OrphanError
  not_opened : ℕ → OrphanError
  not_listed : String → OrphanError

pub record Orphaned : Type 0 where
  pub found : List Located
  pub errs : List OrphanError

abbrev pub scope_of : Artifact → Scope
scope_of a = record { storage_id = a.storage_id; prefix = key_prefix a.key }

-- An assignment to the map `scopes`.
abbrev add_scope : Scope → List Scope → List Scope
add_scope x xs = if has_scope xs x then xs else x ∷ xs

unfoldable pub add_scopes : List Artifact → List Scope → List Scope
add_scopes [] xs = xs
add_scopes (a ∷ rest) xs = add_scopes rest (add_scope (scope_of a) xs)

-- Where new artifacts of the task land.
abbrev pub own_scope : (String → String) → Task → Scope
own_scope to_lower t = record {
  storage_id = t.storage_id;
  prefix = artifact_prefix to_lower t.name;
}

abbrev pub at_key : ℕ → String → Located
at_key i key = record { storage_id = i; key = key }

-- The loop over the objects of a scope; `seen` holds what `orphans` holds.
unfoldable pub add_objects : List Located → ℕ → List String → List Located → List Located
add_objects known i [] found = found
add_objects known i (key ∷ keys) found = add_objects known i keys (
    if holds known (at_key i key) || holds found (at_key i key)
    then found
    else found ++ at_key i key ∷ [])

abbrev add_listed : List Located → Scope → Option (List String) → Orphaned → Orphaned
add_listed known sc none o = record o { errs = o.errs ++ not_listed sc.prefix ∷ [] }
add_listed known sc (some keys) o = record o {
  found = add_objects known sc.storage_id keys o.found;
}

unfoldable pub search_scope : Listings → List Located → Scope → Orphaned → Orphaned
unfolding add_objects
search_scope ans known sc o =
    if ans.opens sc.storage_id
    then add_listed known sc (ans.lists sc.storage_id sc.prefix) o
    else record o { errs = o.errs ++ not_opened sc.storage_id ∷ [] }

unfoldable pub search_scopes : Listings → List Located → List Scope → Orphaned → Orphaned
unfolding search_scope
search_scopes ans known [] o = o
search_scopes ans known (sc ∷ scopes) o =
    search_scopes ans known scopes (search_scope ans known sc o)

-- `Orphans`, given what `ListArtifactsByTask` returned (`none` is its error).
unfoldable pub orphans : (String → String) → Listings → Task → Option (List Artifact) → Orphaned
unfolding add_scopes search_scopes
orphans to_lower ans t none = record { found = []; errs = no_catalog ∷ [] }
orphans to_lower ans t (some artifacts) =
    search_scopes ans (map location artifacts) (add_scopes artifacts (own_scope to_lower t ∷ []))
      (record { found = []; errs = [] })
