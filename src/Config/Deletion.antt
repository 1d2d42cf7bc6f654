-- ===== src/Config/Deletion.antt =====
-- Deleting a secret that nothing refers to (internal/api/handlers_delete.go).
use duskrun.Base.{
  ℕ, String, ◌≡◌, refl, ap, sym, ◌∙◌, false, ◌||◌, Option, none, some, List, str_eq, eq_iff,
  if◌then◌else◌, ◌==◌, arith, Bool-cases, inl, inr, Distinct, contains,
}
use mathlib.Core.List
use duskrun.ArtifactKey.{trim_space}
use duskrun.Config.{Value, dict, Entries, no_entries}
use duskrun.Config.Hidden.{or-false_left, or-false_right}
use duskrun.Config.Refs.{
  looked_up, ref_name, collect_refs, collect_fields, names, Secret, get_secret, get_secret_by_ref,
  Referrer, has_ref, secret_refs, get_secret_by_id, without_secret, delete_secret,
}
use duskrun.Config.Resolver.{ready, ◌>>=◌, open_secret, assign, resolve}
use duskrun.Config.Unreferenced.{SingleFields, other_name}
use duskrun.Config.Agreement.{resolve_fields-eq}

abbrev pub secret_ids : List Secret → List ℕ
secret_ids = List.map (λ s. s.id)

get_secret-no_id :
    (i : ℕ) (name : String) (secrets : List Secret)
    → contains (secret_ids secrets) i ≡ false
    → get_secret name (without_secret i secrets) ≡ get_secret name secrets
get_secret-no_id i name List.[] n = refl
get_secret-no_id i name (List.◌∷◌ r rest) n = ground (arith, n, get_secret-no_id i name rest)

-- Another name finds what it found.
get_secret-without_secret :
    (i : ℕ) (name : String) (secrets : List Secret) (s : Secret)
    → Distinct (secret_ids secrets)
    → get_secret_by_id i secrets ≡ some s
    → str_eq s.name name ≡ false
    → get_secret name (without_secret i secrets) ≡ get_secret name secrets
get_secret-without_secret i name List.[] s d h n = refl
get_secret-without_secret i name (List.◌∷◌ r rest) s d h n = elim (Bool-cases (r.id == i)) [
  | inr e ↦ rw (e, get_secret-without_secret i name rest s d.1 (simp e at h) n) refl
  | inl e ↦
      let h' : some r ≡ some s = simp e at h in
      let same : r ≡ s = cc in
      let other : str_eq r.name name ≡ false = rw same n in
      let gone : contains (secret_ids rest) i ≡ false = ground (arith, e, d.0) in
      rw (e, other) (get_secret-no_id i name rest gone)
]

-- A text that nothing names is not the name of any reference of a referrer.
secret_refs-false :
    (before after : List Referrer) (r : Referrer) (name : String)
    → secret_refs (List.◌++◌ before (List.◌∷◌ r after)) name ≡ false
    → (str_eq (ref_name r.secret_ref) name ≡ false) × (has_ref r.config name ≡ false)
unfolding secret_refs
secret_refs-false List.[] after r name h =
    let here = or-false_left (str_eq (ref_name r.secret_ref) name || has_ref r.config name) _ h in
    (or-false_left _ _ here, or-false_right _ _ here)
secret_refs-false (List.◌∷◌ q before) after r name h =
    secret_refs-false before after r name
      (or-false_right (str_eq (ref_name q.secret_ref) name || has_ref q.config name) _ h)

has_ref-dict :
    (config : Option Value) (fs : Entries) (name : String)
    → config ≡ some (dict fs)
    → has_ref config name ≡ false
    → names (collect_fields fs) name ≡ false
unfolding has_ref collect_refs
has_ref-dict config fs name e h = sym (ap (λ o. has_ref o name) e) ∙ h

-- The opener after the deletion of a secret agrees at the references to other names.
open_secret-without_secret :
    (i : ℕ) (secrets : List Secret) (s : Secret) (box : String → Option String) (ref : String)
    → Distinct (secret_ids secrets)
    → get_secret_by_id i secrets ≡ some s
    → str_eq (looked_up ref) s.name ≡ false
    → open_secret (some (without_secret i secrets)) (some box) ref
      ≡ open_secret (some secrets) (some box) ref
unfolding open_secret get_secret_by_ref
open_secret-without_secret i secrets s box ref d h n =
    let other : str_eq s.name (looked_up ref) ≡ false =
      ground (arith, n, eq_iff s.name (looked_up ref), eq_iff (looked_up ref) s.name) in
    rw (open_secret, get_secret-without_secret i (looked_up ref) secrets s d h other) refl

-- What a config and a secret_ref resolve to.
abbrev pub SameSecrets :
    Entries → String → (String → Option String) → List Secret → List Secret → Type 0
SameSecrets fs ref box before after =
    (open_secret (some after) (some box) ref ≡ open_secret (some before) (some box) ref)
    × (resolve (open_secret (some after) (some box)) fs
        ≡ resolve (open_secret (some before) (some box)) fs)

-- A deletion takes no secret that is in use: whatever the answer to the deletion of a secret, the
-- secret_ref and the config of every connection, storage and channel resolve as before, errors
-- included. The secrets have distinct ids, the name of the deleted one has no space at its ends, and no
-- key of the config ends in _ref twice.
pub delete_secret_safe :
    (i : ℕ) (before after : List Referrer) (r : Referrer) (secrets : List Secret) (s : Secret)
    (box : String → Option String) (fs : Entries)
    → Distinct (secret_ids secrets)
    → get_secret_by_id i secrets ≡ some s
    → trim_space s.name ≡ s.name
    → r.config ≡ some (dict fs)
    → SingleFields fs
    → SameSecrets fs r.secret_ref box secrets
        (delete_secret i (List.◌++◌ before (List.◌∷◌ r after)) secrets).1
unfolding delete_secret resolve has_ref
delete_secret_safe i before after r secrets s box fs d h trimmed c single =
    let referrers = List.◌++◌ before (List.◌∷◌ r after) in
    elim (Bool-cases (secret_refs referrers s.name)) [
      | inl e ↦ rw (h, e) (refl, refl)
      | inr e ↦
          let free = secret_refs-false before after r s.name e in
          let named : names (collect_fields fs) s.name ≡ false =
            has_ref-dict r.config fs s.name c free.1 in
          let agree = λ (ref : String) (n : str_eq (looked_up ref) s.name ≡ false).
            open_secret-without_secret i secrets s box ref d h n in
          let after_opens = open_secret (some (without_secret i secrets)) (some box) in
          let before_opens = open_secret (some secrets) (some box) in
          rw (h, e)
            (
              agree r.secret_ref
                  (other_name after_opens before_opens s.name agree trimmed r.secret_ref free.0),
              ap (λ m. m >>= λ x. ready (if x.2 then some (assign x.1 x.0) else none))
                  (resolve_fields-eq after_opens before_opens s.name agree trimmed fs no_entries fs
                    single tt named),
            )
    ]
