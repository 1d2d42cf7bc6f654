-- ===== src/Config/Hidden.antt =====
-- A listing shows no credential (internal/api/config_mask.go).
use duskrun.Base.{
  String, ◌≡◌, refl, Bool, true, false, ◌&&◌, ◌||◌, not, some, str_eq, if◌then◌else◌, arith,
  Bool-cases, inl, inr,
}
use duskrun.Config.{
  Value, null, boolean, number, text, slice, dict, Elements, no_elements, element, Entries,
  no_entries, entry, is_secretish,
}
use duskrun.Config.Masking.{
  secret_mask, hides_text, mask_value, mask_items, mask_fields, Shown, same_text, empty_object,
  encoded, mask_secrets,
}

-- Somewhere a field named like a credential holds a text that is neither empty nor the mask.
abbrev mutual
  pub reveals : Value → Bool
  reveals (slice xs) = reveals_items xs
  reveals (dict fs) = reveals_fields fs
  reveals _ = false

  pub reveals_items : Elements → Bool
  reveals_items no_elements = false
  reveals_items (element x xs) = reveals x || reveals_items xs

  pub reveals_text : String → Value → Bool
  reveals_text k (text s) = is_secretish k && not (str_eq s "") && not (str_eq s secret_mask)
  reveals_text k _ = false

  pub reveals_fields : Entries → Bool
  reveals_fields no_entries = false
  reveals_fields (entry k v fs) = reveals_text k v || (reveals v || reveals_fields fs)

or_false : (a b : Bool) → a ≡ false → b ≡ false → (a || b) ≡ false
or_false a b p q = rw (p, q) refl

pub or-false_left : (a b : Bool) → (a || b) ≡ false → a ≡ false
or-false_left true b h = h
or-false_left false b h = refl

pub or-false_right : (a b : Bool) → (a || b) ≡ false → b ≡ false
or-false_right true b h = cc
or-false_right false b h = h

-- Two parts that reveal nothing.
abbrev Hides : Bool → Bool → Bool → Type 0
Hides after masked before = (after ≡ false) × (masked ≡ false → before ≡ false)

Hides-or :
    (a m b a' m' b' : Bool) → Hides a m b → Hides a' m' b' → Hides (a || a') (m || m') (b || b')
Hides-or a m b a' m' b' p q = (
  or_false a a' p.0 q.0,
  λ h. or_false b b' (p.1 (or-false_left m m' h)) (q.1 (or-false_right m m' h)),
)

text_Hides :
    (k s : String)
    → Hides
        (reveals_text k (text (if hides_text k s then secret_mask else s)))
        (hides_text k s)
        (reveals_text k (text s))
text_Hides k s = elim (Bool-cases (is_secretish k)) [
  | inr e ↦ rw e (refl, λ h. refl)
  | inl e ↦ elim (Bool-cases (str_eq s "")) [
    | inl f ↦ rw (e, f, f) (refl, λ h. refl)
    | inr f ↦ rw (e, f) (refl, λ h. absurd (ground (arith, h)))
  ]
]

mutual
  unfolding mask_value

  mask_value_hides :
      (v : Value)
      → (reveals (mask_value v).0 ≡ false) × ((mask_value v).1 ≡ false → reveals v ≡ false)
  mask_value_hides null = (refl, λ h. refl)
  mask_value_hides (boolean b) = (refl, λ h. refl)
  mask_value_hides (number n) = (refl, λ h. refl)
  mask_value_hides (text s) = (refl, λ h. refl)
  mask_value_hides (slice xs) = mask_items_hides xs
  mask_value_hides (dict fs) = mask_fields_hides fs

  mask_items_hides :
      (xs : Elements)
      → (reveals_items (mask_items xs).0 ≡ false)
        × ((mask_items xs).1 ≡ false → reveals_items xs ≡ false)
  mask_items_hides no_elements = (refl, λ h. refl)
  mask_items_hides (element x xs) = Hides-or _ _ _ _ _ _ (mask_value_hides x) (mask_items_hides xs)

  mask_fields_hides :
      (fs : Entries)
      → (reveals_fields (mask_fields fs).0 ≡ false)
        × ((mask_fields fs).1 ≡ false → reveals_fields fs ≡ false)
  mask_fields_hides no_entries = (refl, λ h. refl)
  mask_fields_hides (entry k null fs) = mask_fields_hides fs
  mask_fields_hides (entry k (boolean b) fs) = mask_fields_hides fs
  mask_fields_hides (entry k (number n) fs) = mask_fields_hides fs
  mask_fields_hides (entry k (text s) fs) =
      Hides-or _ _ _ _ _ _ (text_Hides k s) (mask_fields_hides fs)
  mask_fields_hides (entry k (slice xs) fs) =
      Hides-or _ _ _ _ _ _ (mask_items_hides xs) (mask_fields_hides fs)
  mask_fields_hides (entry k (dict gs) fs) =
      Hides-or _ _ _ _ _ _ (mask_fields_hides gs) (mask_fields_hides fs)

-- The value that a listing shows of a stored one.
abbrev pub shown_of : Value → Shown → Value
shown_of stored same_text = stored
shown_of stored empty_object = dict no_entries
shown_of stored (encoded v) = v

-- A listing shows no credential: whatever a config decodes to, in what is sent of it every text under
-- a key that is named like a credential is empty or the mask, at every depth, also where the stored
-- text is sent as it is.
pub mask_secrets_hides : (v : Value) → reveals (shown_of v (mask_secrets false (some v))) ≡ false
unfolding mask_secrets
mask_secrets_hides v = elim (Bool-cases (mask_value v).1) [
  | inl e ↦ rw e (mask_value_hides v).0
  | inr e ↦ rw e ((mask_value_hides v).1 e)
]
