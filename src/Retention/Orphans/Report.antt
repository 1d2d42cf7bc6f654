-- ===== src/Retention/Orphans/Report.antt =====
-- What `Orphans` reports (internal/core/retention.go).
use duskrun.Base.{
  ℕ, String, ◌≡◌, refl, Bool, true, false, ◌&&◌, ◌||◌, not, Option, none, some, List, [], ◌∷◌, ◌++◌,
  map, ◌==◌, str_eq, eq_iff, if◌then◌else◌, any, arith, Bool-cases, Option-cases, inl, inr, ap, ◌∙◌,
}
use duskrun.Model.{Task}
use duskrun.ArtifactKey.{build_artifact_key, artifact_prefix, key_prefix}
use duskrun.ArtifactKey.Prefix.{key_prefix-build_artifact_key}
use duskrun.Retention.Forget.{Artifact}
use duskrun.Retention.Prune.{Located, location, same_location, holds}
use duskrun.Retention.Orphans.{
  Scope, has_scope, Listings, Orphaned, scope_of, add_scopes, own_scope, at_key, add_objects,
  search_scope, search_scopes, orphans,
}

abbrev pub has_key : List String → String → Bool
has_key [] k = false
has_key (j ∷ js) k = if str_eq j k then true else has_key js k

abbrev pub lists_key : Option (List String) → String → Bool
lists_key none k = false
lists_key (some keys) k = has_key keys k

-- The storage of the scope opens and lists the object.
abbrev pub is_listed : Listings → Located → Scope → Bool
is_listed ans x sc =
    ans.opens sc.storage_id
    && sc.storage_id == x.storage_id
    && lists_key (ans.lists sc.storage_id sc.prefix) x.key

holds-same : (a b : Located) (l : List Located) → same_location a b ≡ true → holds l a ≡ holds l b
holds-same a b [] e = refl
holds-same a b (c ∷ l) e =
    ground
      (arith, e, eq_iff a.key b.key, eq_iff c.key a.key, eq_iff c.key b.key, holds-same a b l e)

holds-append :
    (xs ys : List Located) (x : Located) → holds (xs ++ ys) x ≡ (holds xs x || holds ys x)
holds-append [] ys x = refl
holds-append (z ∷ xs) ys x = ground (arith, holds-append xs ys x)

holds-add_objects :
    (known : List Located) (i : ℕ) (keys : List String) (found : List Located) (x : Located)
    → holds (add_objects known i keys found) x
      ≡ (holds found x || (i == x.storage_id && has_key keys x.key && not (holds known x)))
unfolding add_objects
holds-add_objects known i [] found x = ground arith
holds-add_objects known i (key ∷ keys) found x =
    let at = at_key i key in
    ground (
      arith,
      holds-add_objects known i keys
          (if holds known at || holds found at then found else found ++ at ∷ []) x,
      holds-append found (at ∷ []) x,
      holds-same at x known,
      holds-same at x found,
    )

holds-search_scope :
    (ans : Listings) (known : List Located) (sc : Scope) (o : Orphaned) (x : Located)
    → holds (search_scope ans known sc o).found x
      ≡ (holds o.found x || (is_listed ans x sc && not (holds known x)))
unfolding search_scope
holds-search_scope ans known sc o x = elim (Option-cases (ans.lists sc.storage_id sc.prefix)) [
  | inl e ↦ rw e (ground arith)
  | inr (keys, e) ↦ rw e (ground (arith, holds-add_objects known sc.storage_id keys o.found x))
]

holds-search_scopes :
    (ans : Listings) (known : List Located) (scopes : List Scope) (o : Orphaned) (x : Located)
    → holds (search_scopes ans known scopes o).found x
      ≡ (holds o.found x || (any (is_listed ans x) scopes && not (holds known x)))
unfolding search_scopes
holds-search_scopes ans known [] o x = ground arith
holds-search_scopes ans known (sc ∷ scopes) o x = ground (
  arith,
  holds-search_scopes ans known scopes (search_scope ans known sc o) x,
  holds-search_scope ans known sc o x,
)

-- The listings of a scope that is there are those of one of the scopes.
any-has_scope :
    (ans : Listings) (x : Located) (sc : Scope) (scopes : List Scope)
    → has_scope scopes sc ≡ true
    → is_listed ans x sc ≡ true
    → any (is_listed ans x) scopes ≡ true
any-has_scope ans x sc [] h k = ground (arith, h)
any-has_scope ans x sc (y ∷ scopes) h k =
    ground (arith, h, k, eq_iff y.prefix sc.prefix, any-has_scope ans x sc scopes)

any-add_scopes :
    (ans : Listings) (x : Located) (artifacts : List Artifact) (scopes : List Scope)
    → any (is_listed ans x) (add_scopes artifacts scopes)
      ≡ (any (is_listed ans x) scopes || any (λ a. is_listed ans x (scope_of a)) artifacts)
unfolding add_scopes
any-add_scopes ans x [] scopes = ground arith
any-add_scopes ans x (a ∷ artifacts) scopes = elim (Bool-cases (has_scope scopes (scope_of a))) [
  | inl e ↦ rw e (
      ground
        (arith, any-add_scopes ans x artifacts scopes, any-has_scope ans x (scope_of a) scopes e))
  | inr e ↦ rw e (ground (arith, any-add_scopes ans x artifacts (scope_of a ∷ scopes)))
]

-- An object is reported exactly if it is listed where the task puts new artifacts or under the prefix
-- of one of the artifacts, in that artifact's storage, and none of the given artifacts is at its place.
pub orphans_exact :
    (to_lower : String → String) (ans : Listings) (t : Task) (artifacts : List Artifact)
    (x : Located)
    → holds (orphans to_lower ans t (some artifacts)).found x ≡ (
        (is_listed ans x (own_scope to_lower t)
          || any (λ a. is_listed ans x (scope_of a)) artifacts)
        && not (holds (map location artifacts) x))
unfolding orphans
orphans_exact to_lower ans t artifacts x = ground (
  arith,
  holds-search_scopes ans (map location artifacts)
      (add_scopes artifacts (own_scope to_lower t ∷ [])) (record { found = []; errs = [] }) x,
  any-add_scopes ans x artifacts (own_scope to_lower t ∷ []),
)

-- The catalog of other tasks is not looked at: an artifact that was written for a task into a storage,
-- and which the storage lists under the prefix of its key, is reported as an orphan of any task that
-- writes to this storage under the same prefix and has no artifact at its place.
pub orphans_shared :
    (to_lower : String → String) (ans : Listings) (t u : Task) (artifacts : List Artifact)
    (b : Artifact) (db engine format : String) (codecs : List String) (stamp : String)
    → artifact_prefix to_lower u.name ≡ artifact_prefix to_lower t.name
    → b.key ≡ build_artifact_key to_lower u.name db engine format codecs stamp
    → b.storage_id ≡ t.storage_id
    → is_listed ans (location b) (scope_of b) ≡ true
    → holds (map location artifacts) (location b) ≡ false
    → holds (orphans to_lower ans t (some artifacts)).found (location b) ≡ true
orphans_shared to_lower ans t u artifacts b db engine format codecs stamp same built at listed
      free =
    let prefix : key_prefix b.key ≡ artifact_prefix to_lower t.name =
      ap key_prefix built
      ∙ key_prefix-build_artifact_key to_lower u.name db engine format codecs stamp
      ∙ same in
    ground (arith, orphans_exact to_lower ans t artifacts (location b), free, listed, prefix, at)
