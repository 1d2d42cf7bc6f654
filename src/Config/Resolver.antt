-- ===== src/Config/Resolver.antt =====
-- `SecretResolver` (internal/core/secrets.go): Resolve, resolveMap, resolveSlice and Open. `opens` is
-- `Open`, with `none` for an error. Go leaves it open whether its loop over a map visits an entry that
-- the loop adds; here it does not, which matters only for keys that end in _ref twice.
use duskrun.Base.{
  String, Bool, true, false, ◌||◌, not, Option, none, some, List, str_eq, if◌then◌else◌,
}
use duskrun.Config.{
  Value, null, boolean, number, text, slice, dict, Elements, no_elements, element, Entries,
  no_entries, entry, lookup, has_field, text_in, cut_suffix, ref_suffix,
}
use duskrun.Config.Refs.{Secret, get_secret_by_ref}

-- A result, or the reference that cannot be opened.
pub data Resolved {ℓ} (A : Type ℓ) : Type ℓ where
  failed : String → Resolved A
  ready : A → Resolved A

infixl 5 ◌>>=◌
abbrev pub ◌>>=◌ {ℓ κ} : {A : Type ℓ} {B : Type κ} → Resolved A → (A → Resolved B) → Resolved B
ready a >>= f = f a
failed s >>= f = failed s

abbrev pub Opener : Type 0
Opener = String → Option String

-- `Open`, for a store and a box (`none` where there is none); the box is a library's.
unfoldable pub open_secret : Option (List Secret) → Option (String → Option String) → Opener
unfolding get_secret_by_ref
open_secret secrets none ref = none
open_secret none (some box) ref = none
open_secret (some secrets) (some box) ref = elim (get_secret_by_ref secrets ref) [
  | none ↦ none
  | some s ↦ box s.sealed
]

-- The value of a key in the map as it is by now: `done` has the entries that the loop assigned.
abbrev pub current : Entries → Entries → String → Option Value
current all done k = if has_field k done then lookup k done else lookup k all

abbrev pub opened_ref : Entries → String → String → Option String → Resolved (Entries × Bool)
opened_ref done base ref none = failed ref
opened_ref done base ref (some plain) = ready (entry base (text plain) done, true)

abbrev pub visit_ref :
    Opener → Entries → Entries → String → Option String → Resolved (Entries × Bool)
visit_ref opens all done ref none = ready (done, false)
visit_ref opens all done ref (some base) =
    if str_eq base "" || str_eq ref ""
    then ready (done, false)
    else if not (str_eq (text_in (current all done base)) "")
    then ready (done, false)
    else opened_ref done base ref (opens ref)

-- The body of the loop for a field that holds a text.
unfoldable pub visit_text : Opener → Entries → Entries → String → String → Resolved (Entries × Bool)
unfolding cut_suffix
visit_text opens all done k s = visit_ref opens all done s (cut_suffix ref_suffix k)

-- An assignment to a map.
abbrev pub put : String → Value → Entries → Entries
put k v no_entries = entry k v no_entries
put k v (entry j w fs) = if str_eq j k then entry j v fs else entry j w (put k v fs)

abbrev pub assign : Entries → Entries → Entries
assign no_entries fs = fs
assign (entry k v done) fs = put k v (assign done fs)

-- The entry that a loop overwrote is a text by now.
abbrev pub visit_overwritten :
    Opener → Entries → Entries → String → Value → Resolved (Value × Entries × Bool)
visit_overwritten opens all done k v =
    visit_text opens all done k (text_in (lookup k done)) >>= λ x. ready (v, x.0, x.1)

-- The fields with their children resolved, the entries that were assigned, and whether anything
-- changed.
unfoldable mutual
  unfolding visit_text

  pub visit : Opener → Entries → Entries → String → Value → Resolved (Value × Entries × Bool)
  visit opens all done k null = ready (null, done, false)
  visit opens all done k (boolean b) = ready (boolean b, done, false)
  visit opens all done k (number n) = ready (number n, done, false)
  visit opens all done k (text s) = visit_text opens all done k s >>= λ x. ready (text s, x.0, x.1)
  visit opens all done k (slice xs) = resolve_items opens xs >>= λ x. ready (slice x.0, done, x.1)
  visit opens all done k (dict gs) =
      resolve_fields opens gs no_entries gs >>= λ x. ready (dict (assign x.1 x.0), done, x.2)

  pub resolve_fields : Opener → Entries → Entries → Entries → Resolved (Entries × Entries × Bool)
  resolve_fields opens all done no_entries = ready (no_entries, done, false)
  resolve_fields opens all done (entry k v fs) =
      (if has_field k done then visit_overwritten opens all done k v else visit opens all done k v)
      >>= λ x. resolve_fields opens all x.1 fs >>= λ y. ready (entry k x.0 y.0, y.1, x.2 || y.2)

  pub visit_item : Opener → Value → Resolved (Value × Bool)
  visit_item opens null = ready (null, false)
  visit_item opens (boolean b) = ready (boolean b, false)
  visit_item opens (number n) = ready (number n, false)
  visit_item opens (text s) = ready (text s, false)
  visit_item opens (slice xs) = resolve_items opens xs >>= λ x. ready (slice x.0, x.1)
  visit_item opens (dict gs) =
      resolve_fields opens gs no_entries gs >>= λ x. ready (dict (assign x.1 x.0), x.2)

  pub resolve_items : Opener → Elements → Resolved (Elements × Bool)
  resolve_items opens no_elements = ready (no_elements, false)
  resolve_items opens (element x xs) = visit_item opens x >>= λ y.
      resolve_items opens xs >>= λ ys. ready (element y.0 ys.0, y.1 || ys.1)

-- `Resolve` of a config that decodes to an object; `none` stands for the text as it is.
unfoldable pub resolve : Opener → Entries → Resolved (Option Entries)
unfolding visit
resolve opens fs = resolve_fields opens fs no_entries fs >>= λ x.
    ready (if x.2 then some (assign x.1 x.0) else none)
