-- ===== src/Examples/Configuring.antt =====
-- Runs of internal/api/config_mask.go, internal/core/secrets.go and internal/store/sqlite/delete.go.
use duskrun.Base.{◌≡◌, refl, String, false, Option, some, List}
use duskrun.ArtifactKey.{trim_space}
use duskrun.Config.{Value, text, dict, Entries, no_entries, entry, cut_suffix, is_secretish}
use duskrun.Config.Masking.{unmask_secrets, mask_value, mask_secrets}
use duskrun.Config.Stored.{unmask_secrets-mask_secrets}
use duskrun.Config.Hidden.{reveals, shown_of, mask_secrets_hides}
use duskrun.Config.Refs.{Secret, Referrer, secret_refs, delete_secret, conflict, collect_refs}
use duskrun.Config.Resolver.{open_secret}
use duskrun.Config.Deletion.{SameSecrets, delete_secret_safe}

-- A config with a credential inline, one at a depth, and a reference.
abbrev fields : Entries
fields = entry "host" (text "db") (
    entry "api_token" (text "t0p") (
      entry "fetch" (dict (entry "password" (text "pw") no_entries))
        (entry "key_ref" (text "secret://minio") no_entries)))

abbrev config : Value
config = dict fields

mask_run :
    (mask_value config).0
    ≡ dict (
        entry "host" (text "db") (
          entry "api_token" (text "••••") (
            entry "fetch"
              (dict (entry "password" (text "••••") no_entries))
              (entry "key_ref" (text "secret://minio") no_entries))))
unfolding mask_value is_secretish
mask_run = refl

unmask_secrets-mask_secrets_example :
    let sent = shown_of config (mask_secrets false (some config)) in
    shown_of sent (unmask_secrets (some sent) (some config)) ≡ config
unmask_secrets-mask_secrets_example =
    unmask_secrets-mask_secrets config
      (refl, tt, (refl, tt, (refl, (refl, tt, tt), (refl, tt, tt))))

mask_secrets_hides_example : reveals (shown_of config (mask_secrets false (some config))) ≡ false
mask_secrets_hides_example = mask_secrets_hides config

abbrev minio : Secret
minio = record { id = 1; name = "minio"; sealed = "x" }

abbrev other : Secret
other = record { id = 2; name = "other"; sealed = "y" }

abbrev secrets : List Secret
secrets = List.◌∷◌ minio (List.◌∷◌ other List.[])

abbrev storage : Referrer
storage = record { secret_ref = ""; config = some config }

abbrev box : String → Option String
box sealed = some sealed

-- The secret that is in use stays, the other one goes.
in_use_run : (delete_secret 1 (List.◌∷◌ storage List.[]) secrets).0 ≡ conflict
unfolding delete_secret collect_refs cut_suffix
in_use_run = refl

delete_secret_safe_example :
    SameSecrets fields "" box secrets (delete_secret 2 (List.◌∷◌ storage List.[]) secrets).1
unfolding trim_space cut_suffix
delete_secret_safe_example =
    delete_secret_safe 2 List.[] List.[] storage secrets other box fields (refl, (refl, tt)) refl
      refl refl (tt, tt, (tt, tt, (tt, (tt, tt, tt), (refl, tt, tt))))

-- A secret whose name starts with a space is found by its reference, but not seen as in use.
abbrev spaced : Entries
spaced = entry "key_ref" (text "secret:// minio") no_entries

spaced_run :
    (secret_refs
        (List.◌∷◌ (record { secret_ref = ""; config = some (dict spaced) }) List.[])
        " minio"
      ≡ false)
    × (open_secret
          (some (List.◌∷◌ (record { id = 1; name = " minio"; sealed = "x" }) List.[]))
          (some box)
          "secret:// minio"
        ≡ some "x")
unfolding secret_refs collect_refs open_secret cut_suffix
spaced_run = (refl, refl)
