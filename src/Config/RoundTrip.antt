-- ===== src/Config/RoundTrip.antt =====
-- A config that is read and sent back unchanged keeps its credentials (internal/api/config_mask.go).
use duskrun.Base.{
  String, ◌≡◌, refl, ap, ◌∙◌, Bool, true, false, some, str_eq, eq_iff, if◌then◌else◌, arith,
  Bool-cases, inl, inr,
}
use duskrun.Config.{
  Value, null, boolean, number, text, slice, dict, Elements, no_elements, element, Entries,
  no_entries, entry, lookup, has_field,
}
use duskrun.Config.Masking.{
  secret_mask, hides_text, mask_value, mask_items, mask_fields, unmask_text, unmask_value,
  unmask_items, unmask_fields,
}

-- No object has a key twice, as in every decoded JSON text.
abbrev mutual
  pub Unique : Value → Type 0
  Unique (slice xs) = UniqueItems xs
  Unique (dict fs) = UniqueFields fs
  Unique _ = Unit

  pub UniqueItems : Elements → Type 0
  UniqueItems no_elements = Unit
  UniqueItems (element x xs) = Unique x × UniqueItems xs

  pub UniqueFields : Entries → Type 0
  UniqueFields no_entries = Unit
  UniqueFields (entry k v fs) = (has_field k fs ≡ false) × Unique v × UniqueFields fs

-- The fields are what the object has at their keys.
abbrev Within : Entries → Entries → Type 0
Within no_entries all = Unit
Within (entry k v fs) all = (lookup k all ≡ some v) × Within fs all

Within-entry :
    (k : String) (v : Value) (fs all : Entries)
    → has_field k fs ≡ false
    → Within fs all
    → Within fs (entry k v all)
Within-entry k v no_entries all n h = tt
Within-entry k v (entry j w fs) all n h =
    let other : str_eq k j ≡ false = ground (arith, n, eq_iff j k, eq_iff k j) in
    (rw other h.0, Within-entry k v fs all (ground (arith, n)) h.1)

str_eq_self : (s : String) → str_eq s s ≡ true
str_eq_self s = (eq_iff s s).1 refl

Within-self : (fs : Entries) → UniqueFields fs → Within fs fs
Within-self no_entries u = tt
Within-self (entry k v fs) u =
    (rw (str_eq_self k) refl, Within-entry k v fs fs u.0 (Within-self fs u.2))

unmask_text-hides_text :
    (k s : String) (all : Entries) (x : Entries × Bool)
    → lookup k all ≡ some (text s)
    → (unmask_text k (if hides_text k s then secret_mask else s) all x).0 ≡ entry k (text s) x.0
unmask_text-hides_text k s all x h = elim (Bool-cases (hides_text k s)) [
  | inl e ↦ rw (e, h) refl
  | inr e ↦ elim (Bool-cases (str_eq s secret_mask)) [
    | inl m ↦ rw (e, m, h) refl
    | inr m ↦ rw (e, m) refl
  ]
]

mutual
  unfolding mask_value unmask_value

  unmask_value-mask_value : (v : Value) → Unique v → (unmask_value (mask_value v).0 v).0 ≡ v
  unmask_value-mask_value null u = refl
  unmask_value-mask_value (boolean b) u = refl
  unmask_value-mask_value (number n) u = refl
  unmask_value-mask_value (text s) u = refl
  unmask_value-mask_value (slice xs) u = ap slice (unmask_items-mask_items xs u)
  unmask_value-mask_value (dict fs) u =
      ap dict (unmask_fields-mask_fields fs fs u (Within-self fs u))

  unmask_items-mask_items :
      (xs : Elements) → UniqueItems xs → (unmask_items (mask_items xs).0 xs).0 ≡ xs
  unmask_items-mask_items no_elements u = refl
  unmask_items-mask_items (element x xs) u =
      rw (unmask_value-mask_value x u.0, unmask_items-mask_items xs u.1) refl

  unmask_fields-mask_fields :
      (fs all : Entries)
      → UniqueFields fs
      → Within fs all
      → (unmask_fields (mask_fields fs).0 all).0 ≡ fs
  unmask_fields-mask_fields no_entries all u w = refl
  unmask_fields-mask_fields (entry k null fs) all u w =
      ap (entry k null) (unmask_fields-mask_fields fs all u.2 w.1)
  unmask_fields-mask_fields (entry k (boolean b) fs) all u w =
      ap (entry k (boolean b)) (unmask_fields-mask_fields fs all u.2 w.1)
  unmask_fields-mask_fields (entry k (number n) fs) all u w =
      ap (entry k (number n)) (unmask_fields-mask_fields fs all u.2 w.1)
  unmask_fields-mask_fields (entry k (text s) fs) all u w =
      unmask_text-hides_text k s all (unmask_fields (mask_fields fs).0 all) w.0
      ∙ ap (entry k (text s)) (unmask_fields-mask_fields fs all u.2 w.1)
  unmask_fields-mask_fields (entry k (slice xs) fs) all u w =
      rw (w.0, unmask_items-mask_items xs u.1, unmask_fields-mask_fields fs all u.2 w.1) refl
  unmask_fields-mask_fields (entry k (dict gs) fs) all u w =
      rw
        (
          w.0,
          unmask_fields-mask_fields gs gs u.1 (Within-self gs u.1),
          unmask_fields-mask_fields fs all u.2 w.1,
        )
        refl

-- Masking a value and restoring it from itself gives it back, where no object has a key twice.
pub unmask-mask : (v : Value) → Unique v → (unmask_value (mask_value v).0 v).0 ≡ v
unmask-mask v u = unmask_value-mask_value v u
