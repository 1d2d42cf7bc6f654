-- ===== src/ArtifactKey/Prefix.antt =====
-- The prefix under which the artifacts of a task are searched (internal/core/pipeline.go and
-- internal/core/retention.go).
use duskrun.Base.{String, ◌≡◌, refl, false, ◌==◌, some, List, arith, Bool-cases, inl, inr}
use Prim.Native.Char.{Char, code}
use Prim.Native.String.{◌++◌}
use text.Mathlib.TextLemmas.{nil-append, cons-append}
use duskrun.ArtifactKey.{
  is_key_char, key_char, map_chars, trim_space, slug, build_artifact_key, artifact_prefix,
  up_to_slash, key_prefix,
}

key_char-ne-slash : (c : Char) → (code (key_char c) == b'/') ≡ false
key_char-ne-slash c = elim (Bool-cases (is_key_char (code c))) [
  | inl e ↦ rw e (ground (arith, e))
  | inr e ↦ rw e refl
]

up_to_slash-map_chars :
    (s rest : String)
    → up_to_slash (map_chars key_char s ++ ("/" ++ rest)) ≡ some (map_chars key_char s ++ "/")
unfolding up_to_slash map_chars
up_to_slash-map_chars String.[] rest =
    rw (nil-append ("/" ++ rest), nil-append "/", cons-append "/" "" rest) refl
up_to_slash-map_chars (String.◌∷◌ c s) rest =
    rw
      (
        cons-append (key_char c) (map_chars key_char s) ("/" ++ rest),
        cons-append (key_char c) (map_chars key_char s) "/",
        key_char-ne-slash c,
        up_to_slash-map_chars s rest,
      )
      refl

-- The search finds what was written: the prefix of a key that was built for a task is the prefix under
-- which the artifacts of the task are searched, whatever the names are.
pub key_prefix-build_artifact_key :
    (to_lower : String → String) (task db engine format : String) (codecs : List String)
    (stamp : String)
    → key_prefix (build_artifact_key to_lower task db engine format codecs stamp)
      ≡ artifact_prefix to_lower task
unfolding key_prefix build_artifact_key artifact_prefix slug
key_prefix-build_artifact_key to_lower task db engine format codecs stamp =
    rw (up_to_slash-map_chars (trim_space (to_lower task)) _) refl
