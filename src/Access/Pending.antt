-- ===== src/Access/Pending.antt =====
-- The map of values that live between two requests (`pending` of internal/api/mfa.go). The keys are
-- texts and a missing key is `none`.
use duskrun.Base.{
  ℕ, ◌+◌, ◌≤◌, ◌≡◌, refl, String, true, false, Option, none, some, ltb, str_eq, if◌then◌else◌,
  arith, Bool-cases, Option-cases, inl, inr,
}
use text.Mathlib.TextEquality.{eq_iff}

pub record Entry {ℓ} (V : Type ℓ) : Type ℓ where
  pub value : V
  pub expires : ℕ

abbrev pub Entries {ℓ} : Type ℓ → Type ℓ
Entries V = String → Option (Entry V)

str_eq_self : (s : String) → str_eq s s ≡ true
str_eq_self s = (eq_iff s s).1 refl

module _ {ℓ} {V : Type ℓ} where
  -- An entry that has not expired.
  abbrev pub live : ℕ → Option (Entry V) → Option (Entry V)
  live now none = none
  live now (some e) = if ltb now e.expires then some e else none

  abbrev pub set_entry : String → Option (Entry V) → Entries V → Entries V
  set_entry key e m k = if str_eq k key then e else m k

  unfoldable pub put : ℕ → String → V → ℕ → Entries V → Entries V
  put now key v ttl m =
      set_entry key (some (record { value = v; expires = now + ttl })) (λ k. live now (m k))

  -- What `fn` makes of a live entry, `none` where it is not kept.
  abbrev pub kept : (V → Option V) → Entry V → Option (Entry V)
  kept fn e = elim (fn e.value) [ none ↦ none | some v ↦ some (record e { value = v }) ]

  abbrev pub updated : (V → Option V) → Option (Entry V) → Option (Entry V)
  updated fn none = none
  updated fn (some e) = kept fn e

  -- The live value that was found, and the map afterwards; an expired entry is removed.
  unfoldable pub update : ℕ → String → (V → Option V) → Entries V → Option (Entry V) × Entries V
  update now key fn m = let found = live now (m key) in (found, set_entry key (updated fn found) m)

  unfoldable pub get : ℕ → String → Entries V → Option (Entry V) × Entries V
  unfolding update
  get now key m = update now key (λ v. some v) m

  unfoldable pub take_entry : ℕ → String → Entries V → Option (Entry V) × Entries V
  unfolding update
  take_entry now key m = update now key (λ v. none) m

  unfoldable pub del : String → Entries V → Entries V
  del key m = set_entry key none m

  live-live :
      (now later : ℕ)
      → now ≤ later
      → (e : Option (Entry V)) → live later (live now e) ≡ live later e
  live-live now later h none = refl
  live-live now later h (some e) = elim (Bool-cases (ltb now e.expires)) [
    | inl k ↦ rw k refl
    | inr k ↦ let gone : ltb later e.expires ≡ false = ground (arith, k, h) in rw (k, gone) refl
  ]

  -- A value is taken once: whoever comes second, at whatever time, finds nothing under the key.
  pub take_entry-take_entry :
      (now later : ℕ) (key : String) (m : Entries V)
      → (take_entry later key (take_entry now key m).1).0 ≡ none
  unfolding take_entry update
  take_entry-take_entry now later key m = elim (Option-cases (live now (m key))) [
    | inl e ↦ rw (str_eq_self key, e) refl
    | inr (x, e) ↦ rw (str_eq_self key, e) refl
  ]

  -- A stored value is found under its key until its time is over, and not from then on; storing it
  -- takes no live value from another key.
  pub get-put :
      (now later ttl : ℕ) (key other : String) (v : V) (m : Entries V)
      → now ≤ later
      → let m' = put now key v ttl m in
        ((get later key m').0 ≡ (
          if ltb later (now + ttl) then some (record { value = v; expires = now + ttl }) else none))
        × (str_eq other key ≡ false → (get later other m').0 ≡ (get later other m).0)
  unfolding get put update
  get-put now later ttl key other v m h =
      (rw (put, str_eq_self key) refl, λ e. rw (put, e) (live-live now later h (m other)))
