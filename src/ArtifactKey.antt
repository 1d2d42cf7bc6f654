-- ===== src/ArtifactKey.antt =====
-- The keys of artifacts in a storage: BuildArtifactKey, ArtifactPrefix, dumpExt and slug of
-- internal/core/pipeline.go, and keyPrefix of internal/core/retention.go. `strings.ToLower` is a
-- parameter (it needs the tables of Unicode), and so is the text of a time.
pub mod Prefix
use duskrun.Base.{
  ℕ, String, Bool, true, false, ◌&&◌, ◌||◌, Option, none, some, List, ◌==◌, leb, str_eq,
  if◌then◌else◌,
}
use mathlib.Core.List
use Prim.Native.Char.{Char, code}
use Prim.Native.String.{◌++◌}

-- `unicode.IsSpace`
is_space : ℕ → Bool
is_space c =
    (leb 9 c && leb c 13)
    || c == 32
    || c == 0x85
    || c == 0xa0
    || c == 0x1680
    || (leb 0x2000 c && leb c 0x200a)
    || c == 0x2028
    || c == 0x2029
    || c == 0x202f
    || c == 0x205f
    || c == 0x3000

-- `strings.TrimSpace`
trim_left : String → String
unfolding is_space
trim_left String.[] = String.[]
trim_left (String.◌∷◌ c s) =
    let rest = trim_left s in if is_space (code c) then rest else String.◌∷◌ c s

abbrev is_blank : Char → String → Bool
is_blank c String.[] = is_space (code c)
is_blank c _ = false

trim_right : String → String
unfolding is_space
trim_right String.[] = String.[]
trim_right (String.◌∷◌ c s) =
    let rest = trim_right s in if is_blank c rest then String.[] else String.◌∷◌ c rest

unfoldable pub trim_space : String → String
unfolding trim_left trim_right
trim_space s = trim_right (trim_left s)

-- The characters that a key segment may have: a-z, 0-9, and the three marks.
abbrev pub is_key_char : ℕ → Bool
is_key_char c =
    (leb b'a' c && leb c b'z') || (leb b'0' c && leb c b'9') || c == b'-' || c == b'_' || c == b'.'

abbrev pub key_char : Char → Char
key_char c = if is_key_char (code c) then c else "-"

-- `strings.Map`
unfoldable pub map_chars : (Char → Char) → String → String
map_chars f String.[] = String.[]
map_chars f (String.◌∷◌ c s) = String.◌∷◌ (f c) (map_chars f s)

-- `slug`
unfoldable pub slug : (String → String) → String → String
unfolding trim_space map_chars
slug to_lower s = map_chars key_char (trim_space (to_lower s))

-- `dumpExt`
unfoldable pub dump_ext : String → String → String
dump_ext engine format =
    if str_eq engine "postgres" && str_eq format "plain"
    then ".sql"
    else if str_eq engine "mongodb"
    then ".archive"
    else if str_eq engine "mssql"
    then ".bak"
    else if str_eq engine "redis"
    then ".rdb"
    else if str_eq engine "sqlite"
    then ".sqlite"
    else ".dump"

-- The extensions of the codecs, one after the other.
unfoldable pub codec_exts : List String → String
codec_exts List.[] = ""
codec_exts (List.◌∷◌ e es) = e ++ codec_exts es

-- `BuildArtifactKey`; `stamp` is the formatted time.
unfoldable pub build_artifact_key :
    (String → String) → String → String → String → String → List String → String → String
unfolding slug dump_ext codec_exts
build_artifact_key to_lower task db engine format codecs stamp =
    slug to_lower task
    ++ ("/"
        ++ (slug to_lower db
            ++ ("/"
                ++ (stamp
                    ++ ("_"
                        ++ (slug to_lower db ++ (dump_ext engine format ++ codec_exts codecs)))))))

-- `ArtifactPrefix`
unfoldable pub artifact_prefix : (String → String) → String → String
unfolding slug
artifact_prefix to_lower task = slug to_lower task ++ "/"

abbrev prepend : Char → Option String → Option String
prepend c none = none
prepend c (some s) = some (String.◌∷◌ c s)

-- The text up to the first '/' and with it.
unfoldable pub up_to_slash : String → Option String
up_to_slash String.[] = none
up_to_slash (String.◌∷◌ c s) =
    let rest = up_to_slash s in
    if code c == b'/' then some (String.◌∷◌ c String.[]) else prepend c rest

abbrev or_empty : Option String → String
or_empty none = ""
or_empty (some s) = s

-- `keyPrefix`
unfoldable pub key_prefix : String → String
unfolding up_to_slash
key_prefix key = or_empty (up_to_slash key)
