-- ===== src/Config/Masking.antt =====
-- What a listing shows of a config, and how an edited one gets its credentials back
-- (internal/api/config_mask.go).
use duskrun.Base.{
  String, Bool, true, false, ◌&&◌, ◌||◌, not, Option, none, some, str_eq, if◌then◌else◌,
}
use duskrun.Config.{
  Value, null, boolean, number, text, slice, dict, Elements, no_elements, element, Entries,
  no_entries, entry, lookup, is_secretish,
}

-- secretMask
abbrev pub secret_mask : String
secret_mask = "••••"

-- The field of a text.
abbrev pub hides_text : String → String → Bool
hides_text key s = is_secretish key && not (str_eq s "")

-- `maskValue`, with whether it changed anything.
unfoldable mutual
  pub mask_value : Value → Value × Bool
  mask_value null = (null, false)
  mask_value (boolean b) = (boolean b, false)
  mask_value (number n) = (number n, false)
  mask_value (text s) = (text s, false)
  mask_value (slice xs) = let (xs', masked) = mask_items xs in (slice xs', masked)
  mask_value (dict fs) = let (fs', masked) = mask_fields fs in (dict fs', masked)

  pub mask_items : Elements → Elements × Bool
  mask_items no_elements = (no_elements, false)
  mask_items (element x xs) =
      let (x', masked) = mask_value x in
      let (xs', rest) = mask_items xs in (element x' xs', masked || rest)

  pub mask_fields : Entries → Entries × Bool
  mask_fields no_entries = (no_entries, false)
  mask_fields (entry k null fs) = let (fs', rest) = mask_fields fs in (entry k null fs', rest)
  mask_fields (entry k (boolean b) fs) =
      let (fs', rest) = mask_fields fs in (entry k (boolean b) fs', rest)
  mask_fields (entry k (number n) fs) =
      let (fs', rest) = mask_fields fs in (entry k (number n) fs', rest)
  mask_fields (entry k (text s) fs) =
      let (fs', rest) = mask_fields fs in
      (entry k (text (if hides_text k s then secret_mask else s)) fs', hides_text k s || rest)
  mask_fields (entry k (slice xs) fs) =
      let (xs', masked) = mask_items xs in
      let (fs', rest) = mask_fields fs in (entry k (slice xs') fs', masked || rest)
  mask_fields (entry k (dict gs) fs) =
      let (gs', masked) = mask_fields gs in
      let (fs', rest) = mask_fields fs in (entry k (dict gs') fs', masked || rest)

abbrev pub fields_of : Value → Entries
fields_of (dict fs) = fs
fields_of _ = no_entries

abbrev pub items_of : Value → Elements
items_of (slice xs) = xs
items_of _ = no_elements

abbrev pub or_null : Option Value → Value
or_null none = null
or_null (some v) = v

abbrev pub first_of : Elements → Value
first_of no_elements = null
first_of (element x xs) = x

abbrev pub rest_of : Elements → Elements
rest_of no_elements = no_elements
rest_of (element x xs) = xs

-- A mask is replaced by what was stored at its key, or dropped.
abbrev pub restore : String → Option Value → Entries → Entries
restore k none fs = fs
restore k (some v) fs = entry k v fs

-- The field of a text, before the other fields.
abbrev pub unmask_text : String → String → Entries → Entries × Bool → Entries × Bool
unmask_text k s prev (fs, rest) =
    if str_eq s secret_mask
    then (restore k (lookup k prev) fs, true)
    else (entry k (text s) fs, rest)

-- `unmaskValue`, with whether it restored anything.
unfoldable mutual
  pub unmask_value : Value → Value → Value × Bool
  unmask_value null stored = (null, false)
  unmask_value (boolean b) stored = (boolean b, false)
  unmask_value (number n) stored = (number n, false)
  unmask_value (text s) stored = (text s, false)
  unmask_value (slice xs) stored =
      let (xs', restored) = unmask_items xs (items_of stored) in (slice xs', restored)
  unmask_value (dict fs) stored =
      let (fs', restored) = unmask_fields fs (fields_of stored) in (dict fs', restored)

  pub unmask_items : Elements → Elements → Elements × Bool
  unmask_items no_elements prev = (no_elements, false)
  unmask_items (element x xs) prev =
      let (x', restored) = unmask_value x (first_of prev) in
      let (xs', rest) = unmask_items xs (rest_of prev) in (element x' xs', restored || rest)

  pub unmask_fields : Entries → Entries → Entries × Bool
  unmask_fields no_entries prev = (no_entries, false)
  unmask_fields (entry k null fs) prev =
      let (fs', rest) = unmask_fields fs prev in (entry k null fs', rest)
  unmask_fields (entry k (boolean b) fs) prev =
      let (fs', rest) = unmask_fields fs prev in (entry k (boolean b) fs', rest)
  unmask_fields (entry k (number n) fs) prev =
      let (fs', rest) = unmask_fields fs prev in (entry k (number n) fs', rest)
  unmask_fields (entry k (text s) fs) prev = unmask_text k s prev (unmask_fields fs prev)
  unmask_fields (entry k (slice xs) fs) prev =
      let (xs', restored) = unmask_items xs (items_of (or_null (lookup k prev))) in
      let (fs', rest) = unmask_fields fs prev in (entry k (slice xs') fs', restored || rest)
  unmask_fields (entry k (dict gs) fs) prev =
      let (gs', restored) = unmask_fields gs (fields_of (or_null (lookup k prev))) in
      let (fs', rest) = unmask_fields fs prev in (entry k (dict gs') fs', restored || rest)

-- What is sent of a stored text: the text itself, a new encoding of a value, or `{}`.
pub data Shown : Type 0 where
  same_text empty_object : Shown
  encoded : Value → Shown

-- `maskSecrets`, for whether the text is empty and what it decodes to.
unfoldable pub mask_secrets : Bool → Option Value → Shown
unfolding mask_value
mask_secrets true decoded = same_text
mask_secrets false none = empty_object
mask_secrets false (some v) =
    let (v', masked) = mask_value v in if masked then encoded v' else same_text

-- `unmaskSecrets`, for what the two texts decode to (`none` where one is empty or not JSON).
unfoldable pub unmask_secrets : Option Value → Option Value → Shown
unfolding unmask_value
unmask_secrets none stored = same_text
unmask_secrets (some v) none = same_text
unmask_secrets (some v) (some stored) =
    let (v', restored) = unmask_value v stored in if restored then encoded v' else same_text
