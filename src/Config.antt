-- ===== src/Config.antt =====
-- Plugin configs as decoded JSON values (internal/api/config_mask.go, internal/core/secrets.go and
-- internal/store/sqlite/delete.go). An object is the list of its fields in the order in which Go walks
-- the map, so a theorem about every list covers every order. `null` is Go's nil.
pub mod Masking
pub mod RoundTrip
pub mod Stored
pub mod Hidden
pub mod Refs
pub mod Resolver
pub mod Unreferenced
pub mod Agreement
pub mod Deletion
use duskrun.Base.{
  ℕ, String, Bool, true, false, ◌&&◌, ◌||◌, not, Option, none, some, List, str_eq, ◌==◌,
  if◌then◌else◌,
}
use Prim.Native.Char.{Char, code}
use Prim.Native.String.{◌++◌}

mutual
  pub data Value : Type 0 where
    dict : Entries → Value
    slice : Elements → Value
    text number : String → Value
    boolean : Bool → Value
    null : Value

  pub data Entries : Type 0 where
    no_entries : Entries
    entry : String → Value → Entries → Entries

  pub data Elements : Type 0 where
    no_elements : Elements
    element : Value → Elements → Elements

-- m[key], with whether it is there.
abbrev pub lookup : String → Entries → Option Value
lookup k no_entries = none
lookup k (entry j v fs) = if str_eq j k then some v else lookup k fs

abbrev pub has_field : String → Entries → Bool
has_field k no_entries = false
has_field k (entry j v fs) = str_eq j k || has_field k fs

abbrev pub text_in : Option Value → String
text_in (some (text s)) = s
text_in _ = ""

abbrev prepend : Char → Option String → Option String
prepend c none = none
prepend c (some s) = some (String.◌∷◌ c s)

-- `strings.CutSuffix`
unfoldable pub cut_suffix : String → String → Option String
cut_suffix suffix String.[] = if str_eq String.[] suffix then some String.[] else none
cut_suffix suffix (String.◌∷◌ c s) =
    let rest = prepend c (cut_suffix suffix s) in
    if str_eq (String.◌∷◌ c s) suffix then some String.[] else rest

abbrev pub found : Option String → Bool
found none = false
found (some s) = true

-- `strings.HasSuffix`
abbrev pub has_suffix : String → String → Bool
has_suffix s suffix = found (cut_suffix suffix s)

abbrev pub ref_suffix : String
ref_suffix = "_ref"

-- secretishKeys
abbrev secretish_keys : List String
secretish_keys = List.◌∷◌ "token" (
    List.◌∷◌ "password"
      (List.◌∷◌ "passphrase" (List.◌∷◌ "secret" (List.◌∷◌ "key" (List.◌∷◌ "auth" List.[])))))

abbrev names_secret : String → List String → Bool
names_secret key List.[] = false
names_secret key (List.◌∷◌ s rest) =
    (str_eq key s || has_suffix key ("_" ++ s)) || names_secret key rest

-- `isSecretish`
unfoldable pub is_secretish : String → Bool
unfolding cut_suffix
is_secretish key = if has_suffix key ref_suffix then false else names_secret key secretish_keys
