-- ===== src/Config/Stored.antt =====
-- What a config that is read and sent back is stored as (internal/api/config_mask.go: `maskSecrets` and
-- `unmaskSecrets`, each of which answers the text it was given where it changed nothing).
use duskrun.Base.{◌≡◌, refl, sym, ap, ◌∙◌, false, some, str_eq, arith, Bool-cases, inl, inr}
use duskrun.Config.{
  Value, null, boolean, number, text, slice, dict, Elements, no_elements, element, Entries,
  no_entries, entry, lookup,
}
use duskrun.Config.Masking.{
  secret_mask, hides_text, mask_value, mask_items, mask_fields, unmask_value, unmask_items,
  unmask_fields, items_of, fields_of, first_of, rest_of, or_null, mask_secrets, unmask_secrets,
}
use duskrun.Config.Hidden.{shown_of}
use duskrun.Config.RoundTrip.{Unique, unmask-mask}

mutual
  unfolding mask_value

  mask_value-unchanged : (v : Value) → (mask_value v).1 ≡ false → (mask_value v).0 ≡ v
  mask_value-unchanged null h = refl
  mask_value-unchanged (boolean b) h = refl
  mask_value-unchanged (number n) h = refl
  mask_value-unchanged (text s) h = refl
  mask_value-unchanged (slice xs) h = ap slice (mask_items-unchanged xs h)
  mask_value-unchanged (dict fs) h = ap dict (mask_fields-unchanged fs h)

  mask_items-unchanged : (xs : Elements) → (mask_items xs).1 ≡ false → (mask_items xs).0 ≡ xs
  mask_items-unchanged no_elements h = refl
  mask_items-unchanged (element x xs) h =
      rw (mask_value-unchanged x (ground arith), mask_items-unchanged xs (ground arith)) refl

  mask_fields-unchanged : (fs : Entries) → (mask_fields fs).1 ≡ false → (mask_fields fs).0 ≡ fs
  mask_fields-unchanged no_entries h = refl
  mask_fields-unchanged (entry k null fs) h = ap (entry k null) (mask_fields-unchanged fs h)
  mask_fields-unchanged (entry k (boolean b) fs) h =
      ap (entry k (boolean b)) (mask_fields-unchanged fs h)
  mask_fields-unchanged (entry k (number n) fs) h =
      ap (entry k (number n)) (mask_fields-unchanged fs h)
  mask_fields-unchanged (entry k (text s) fs) h =
      let shown : hides_text k s ≡ false = ground arith in
      rw (shown, mask_fields-unchanged fs (ground arith)) refl
  mask_fields-unchanged (entry k (slice xs) fs) h =
      rw (mask_items-unchanged xs (ground arith), mask_fields-unchanged fs (ground arith)) refl
  mask_fields-unchanged (entry k (dict gs) fs) h =
      rw (mask_fields-unchanged gs (ground arith), mask_fields-unchanged fs (ground arith)) refl

mutual
  unfolding unmask_value

  unmask_value-unchanged :
      (v stored : Value) → (unmask_value v stored).1 ≡ false → (unmask_value v stored).0 ≡ v
  unmask_value-unchanged null stored h = refl
  unmask_value-unchanged (boolean b) stored h = refl
  unmask_value-unchanged (number n) stored h = refl
  unmask_value-unchanged (text s) stored h = refl
  unmask_value-unchanged (slice xs) stored h =
      ap slice (unmask_items-unchanged xs (items_of stored) h)
  unmask_value-unchanged (dict fs) stored h =
      ap dict (unmask_fields-unchanged fs (fields_of stored) h)

  unmask_items-unchanged :
      (xs prev : Elements) → (unmask_items xs prev).1 ≡ false → (unmask_items xs prev).0 ≡ xs
  unmask_items-unchanged no_elements prev h = refl
  unmask_items-unchanged (element x xs) prev h =
      rw
        (
          unmask_value-unchanged x (first_of prev) (ground arith),
          unmask_items-unchanged xs (rest_of prev) (ground arith),
        )
        refl

  unmask_fields-unchanged :
      (fs prev : Entries) → (unmask_fields fs prev).1 ≡ false → (unmask_fields fs prev).0 ≡ fs
  unmask_fields-unchanged no_entries prev h = refl
  unmask_fields-unchanged (entry k null fs) prev h =
      ap (entry k null) (unmask_fields-unchanged fs prev h)
  unmask_fields-unchanged (entry k (boolean b) fs) prev h =
      ap (entry k (boolean b)) (unmask_fields-unchanged fs prev h)
  unmask_fields-unchanged (entry k (number n) fs) prev h =
      ap (entry k (number n)) (unmask_fields-unchanged fs prev h)
  unmask_fields-unchanged (entry k (text s) fs) prev h = elim (Bool-cases (str_eq s secret_mask)) [
    | inl e ↦ absurd (ground (arith, rw e at h))
    | inr e ↦ rw e (ap (entry k (text s)) (unmask_fields-unchanged fs prev (rw e at h)))
  ]
  unmask_fields-unchanged (entry k (slice xs) fs) prev h =
      rw
        (
          unmask_items-unchanged xs (items_of (or_null (lookup k prev))) (ground arith),
          unmask_fields-unchanged fs prev (ground arith),
        )
        refl
  unmask_fields-unchanged (entry k (dict gs) fs) prev h =
      rw
        (
          unmask_fields-unchanged gs (fields_of (or_null (lookup k prev))) (ground arith),
          unmask_fields-unchanged fs prev (ground arith),
        )
        refl

-- What `maskSecrets` sends is the masked value, whether or not it was encoded anew.
shown_masked : (v : Value) → shown_of v (mask_secrets false (some v)) ≡ (mask_value v).0
unfolding mask_secrets
shown_masked v = elim (Bool-cases (mask_value v).1) [
  | inl e ↦ rw e refl
  | inr e ↦ rw e (sym (mask_value-unchanged v e))
]

-- What `unmaskSecrets` stores is the restored value, whether or not it was encoded anew.
shown_restored :
    (sent stored : Value)
    → shown_of sent (unmask_secrets (some sent) (some stored)) ≡ (unmask_value sent stored).0
unfolding unmask_secrets
shown_restored sent stored = elim (Bool-cases (unmask_value sent stored).1) [
  | inl e ↦ rw e refl
  | inr e ↦ rw e (sym (unmask_value-unchanged sent stored e))
]

-- Reading a config and sending it back unchanged stores what was stored: for a config that is a JSON
-- value in which no object has a key twice, what `unmaskSecrets` answers to what `maskSecrets` sent
-- has that value, be it a new encoding or the text it was given; the masks are replaced by the
-- credentials behind them, at every depth, and the rest stays as it is.
pub unmask_secrets-mask_secrets :
    (v : Value)
    → Unique v
    → let sent = shown_of v (mask_secrets false (some v)) in
      shown_of sent (unmask_secrets (some sent) (some v)) ≡ v
unmask_secrets-mask_secrets v u =
    shown_restored (shown_of v (mask_secrets false (some v))) v
    ∙ ap (λ sent. (unmask_value sent v).0) (shown_masked v)
    ∙ unmask-mask v u
