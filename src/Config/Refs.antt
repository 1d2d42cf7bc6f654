-- ===== src/Config/Refs.antt =====
-- References to secrets: refName, collectRefs and SecretRefs of internal/store/sqlite/delete.go, and
-- GetSecretByRef of internal/store/sqlite/repo.go. Labels of referrers are left out.
use duskrun.Base.{
  String, Bool, false, ◌&&◌, ◌||◌, not, Option, none, some, List, ◌==◌, str_eq, if◌then◌else◌, ℕ,
  any, select,
}
use mathlib.Core.List
use Prim.Native.Char.{code}
use duskrun.ArtifactKey.{trim_space}
use duskrun.Config.{
  Value, null, boolean, number, text, slice, dict, Elements, no_elements, element, Entries,
  no_entries, entry, has_suffix, ref_suffix,
}

-- `strings.TrimPrefix`, where the prefix is there.
unfoldable pub cut_prefix : String → String → Option String
cut_prefix String.[] s = some s
cut_prefix (String.◌∷◌ c p) String.[] = none
cut_prefix (String.◌∷◌ c p) (String.◌∷◌ d s) =
    let rest = cut_prefix p s in if code c == code d then rest else none

abbrev or_self : String → Option String → String
or_self s none = s
or_self s (some t) = t

abbrev pub scheme : String
scheme = "secret://"

-- The name by which `GetSecretByRef` looks.
unfoldable pub looked_up : String → String
unfolding cut_prefix
looked_up ref = or_self ref (cut_prefix scheme ref)

-- `refName`
unfoldable pub ref_name : String → String
unfolding looked_up trim_space
ref_name ref = trim_space (looked_up ref)

-- Whether the text of a field is a reference.
abbrev pub is_ref : String → String → Bool
is_ref k s = has_suffix k ref_suffix && not (str_eq s "")

-- `collectRefs`, as the list that it appends.
unfoldable mutual
  unfolding ref_name

  pub collect_refs : Value → List String
  collect_refs (slice xs) = collect_items xs
  collect_refs (dict fs) = collect_fields fs
  collect_refs null = List.[]
  collect_refs (boolean b) = List.[]
  collect_refs (number n) = List.[]
  collect_refs (text s) = List.[]

  pub collect_items : Elements → List String
  collect_items no_elements = List.[]
  collect_items (element x xs) = List.◌++◌ (collect_refs x) (collect_items xs)

  pub collect_fields : Entries → List String
  collect_fields no_entries = List.[]
  collect_fields (entry k (text s) fs) =
      let rest = collect_fields fs in if is_ref k s then List.◌∷◌ (ref_name s) rest else rest
  collect_fields (entry k (slice xs) fs) = List.◌++◌ (collect_items xs) (collect_fields fs)
  collect_fields (entry k (dict gs) fs) = List.◌++◌ (collect_fields gs) (collect_fields fs)
  collect_fields (entry k null fs) = collect_fields fs
  collect_fields (entry k (boolean b) fs) = collect_fields fs
  collect_fields (entry k (number n) fs) = collect_fields fs

abbrev pub names : List String → String → Bool
names List.[] name = false
names (List.◌∷◌ r refs) name = str_eq r name || names refs name

-- `hasRef`, for what a config decodes to (`none` where it is empty or not JSON).
unfoldable pub has_ref : Option Value → String → Bool
unfolding collect_refs
has_ref none name = false
has_ref (some v) name = names (collect_refs v) name

-- What can refer to a secret: a connection or a storage with its secret_ref, and a channel (whose
-- secret_ref is empty).
pub record Referrer : Type 0 where
  pub secret_ref : String
  pub config : Option Value

-- `SecretRefs`: whether anything refers to the name.
-- A channel has an empty reference here, which no secret with a name is.
unfoldable pub secret_refs : List Referrer → String → Bool
unfolding has_ref
secret_refs referrers name =
    any (λ r. str_eq (ref_name r.secret_ref) name || has_ref r.config name) referrers

-- A row of the table secret: the name and what it is sealed to.
pub record Secret : Type 0 where
  pub id : ℕ
  pub name : String
  pub sealed : String

-- `GetSecretByRef`
abbrev pub get_secret : String → List Secret → Option Secret
get_secret name List.[] = none
get_secret name (List.◌∷◌ s rest) = if str_eq s.name name then some s else get_secret name rest

unfoldable pub get_secret_by_ref : List Secret → String → Option Secret
unfolding looked_up
get_secret_by_ref secrets ref = get_secret (looked_up ref) secrets

-- `GetSecretByID`
abbrev pub get_secret_by_id : ℕ → List Secret → Option Secret
get_secret_by_id i List.[] = none
get_secret_by_id i (List.◌∷◌ s rest) = if s.id == i then some s else get_secret_by_id i rest

-- `DeleteSecret` (the statement)
abbrev pub without_secret : ℕ → List Secret → List Secret
without_secret i = select (λ s. not (s.id == i))

pub data DeleteReply : Type 0 where
  no_content not_found conflict : DeleteReply

abbrev pub delete_found :
    ℕ → List Referrer → List Secret → Option Secret → DeleteReply × List Secret
delete_found i referrers secrets none = (not_found, secrets)
delete_found i referrers secrets (some s) =
    if secret_refs referrers s.name
    then (conflict, secrets)
    else (no_content, without_secret i secrets)

-- `deleteSecret` (internal/api/handlers_delete.go), where nothing comes between its two statements and
-- the store answers.
unfoldable pub delete_secret : ℕ → List Referrer → List Secret → DeleteReply × List Secret
unfolding secret_refs
delete_secret i referrers secrets = delete_found i referrers secrets (get_secret_by_id i secrets)
