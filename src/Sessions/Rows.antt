-- ===== src/Sessions/Rows.antt =====
-- Lookups in the table of sessions, whose ids and tokens are unique.
use duskrun.Base.{
  ℕ, ◌≡◌, refl, sym, ap, ◌∙◌, String, Bool, true, false, Option, none, some, List, [], ◌∷◌, ◌==◌,
  str_eq, eq_iff, if◌then◌else◌, any, select, arith, Bool-cases, inl, inr,
}
use duskrun.Users.{SessionRow}
use duskrun.Login.{has_token}
use duskrun.Sessions.{find_token, get_session}

abbrev pub has_id : ℕ → List SessionRow → Bool
has_id i = any (λ r. r.id == i)

abbrev pub Unique : List SessionRow → Type 0
Unique [] = Unit {0}
Unique (r ∷ rows) = (has_token r.token_hash rows ≡ false) × (has_id r.id rows ≡ false) × Unique rows

abbrev pub kept_if : (SessionRow → Bool) → Option SessionRow → Option SessionRow
kept_if p none = none
kept_if p (some r) = if p r then some r else none

pub find_token-none :
    (token : String) (rows : List SessionRow)
    → has_token token rows ≡ false
    → find_token token rows ≡ none
find_token-none token [] h = refl
find_token-none token (r ∷ rows) h = elim (Bool-cases (str_eq r.token_hash token)) [
  | inl e ↦ absurd (ground (arith, e, h))
  | inr e ↦ rw e (find_token-none token rows (ground (arith, e, h)))
]

pub has_token-none :
    (token : String) (rows : List SessionRow)
    → find_token token rows ≡ none
    → has_token token rows ≡ false
has_token-none token [] h = refl
has_token-none token (r ∷ rows) h = elim (Bool-cases (str_eq r.token_hash token)) [
  | inl e ↦ absurd (ground (arith, e, h))
  | inr e ↦ rw e (has_token-none token rows (ground (arith, e, h)))
]

-- A selection of rows has what it selects of a token.
pub find_token-select :
    (p : SessionRow → Bool) (token : String) (rows : List SessionRow)
    → Unique rows
    → find_token token (select p rows) ≡ kept_if p (find_token token rows)
find_token-select p token [] u = refl
find_token-select p token (r ∷ rows) u = elim (Bool-cases (str_eq r.token_hash token)) [
  | inl e ↦
      let gone : find_token token rows ≡ none =
        find_token-none token rows (ap (λ t. has_token t rows) (sym ((eq_iff _ _).0 e)) ∙ u.0) in
      elim (Bool-cases (p r)) [
        | inl f ↦ rw (e, f) (rw e refl)
        | inr f ↦ rw (e, f) (find_token-select p token rows u.2 ∙ ap (kept_if p) gone)
      ]
  | inr e ↦ elim (Bool-cases (p r)) [
    | inl f ↦ rw (e, f) (rw e (find_token-select p token rows u.2))
    | inr f ↦ rw (e, f) (find_token-select p token rows u.2)
  ]
]

has_token-select :
    (p : SessionRow → Bool) (token : String) (rows : List SessionRow)
    → has_token token rows ≡ false
    → has_token token (select p rows) ≡ false
has_token-select p token [] h = refl
has_token-select p token (r ∷ rows) h = ground (arith, h, has_token-select p token rows)

has_id-select :
    (p : SessionRow → Bool) (i : ℕ) (rows : List SessionRow)
    → has_id i rows ≡ false
    → has_id i (select p rows) ≡ false
has_id-select p i [] h = refl
has_id-select p i (r ∷ rows) h = ground (arith, h, has_id-select p i rows)

pub select-Unique :
    (p : SessionRow → Bool) (rows : List SessionRow) → Unique rows → Unique (select p rows)
select-Unique p [] u = tt
select-Unique p (r ∷ rows) u = elim (Bool-cases (p r)) [
  | inl e ↦ rw e (
    has_token-select p r.token_hash rows u.0,
    has_id-select p r.id rows u.1,
    select-Unique p rows u.2,
  )
  | inr e ↦ rw e (select-Unique p rows u.2)
]

-- A row that is found is there under its id.
pub find_token-has_id :
    (token : String) (rows : List SessionRow) (r : SessionRow)
    → find_token token rows ≡ some r
    → has_id r.id rows ≡ true
find_token-has_id token [] r h = absurd (ground (arith, h))
find_token-has_id token (x ∷ rows) r h = elim (Bool-cases (str_eq x.token_hash token)) [
  | inl e ↦
      let h' : some x ≡ some r = simp e at h in
      let same : x ≡ r = cc in rw (sym same) (ground arith)
  | inr e ↦ let h' = simp e at h in ground (arith, find_token-has_id token rows r h')
]

pub find_token-token :
    (token : String) (rows : List SessionRow) (r : SessionRow)
    → find_token token rows ≡ some r
    → r.token_hash ≡ token
find_token-token token [] r h = absurd (ground (arith, h))
find_token-token token (x ∷ rows) r h = elim (Bool-cases (str_eq x.token_hash token)) [
  | inl e ↦
      let h' : some x ≡ some r = simp e at h in
      let same : x ≡ r = cc in ap (λ (y : SessionRow). y.token_hash) (sym same) ∙ (eq_iff _ _).0 e
  | inr e ↦ find_token-token token rows r (simp e at h)
]

-- Rows that are found under two tokens and have one id are one row.
pub find_token-one :
    (s t : String) (rows : List SessionRow) (x y : SessionRow)
    → Unique rows
    → find_token s rows ≡ some x
    → find_token t rows ≡ some y
    → x.id ≡ y.id
    → s ≡ t
find_token-one s t [] x y u h k e = absurd (ground (arith, h))
find_token-one s t (r ∷ rows) x y u h k e = elim (Bool-cases (str_eq r.token_hash s)) [
  | inl a ↦ elim (Bool-cases (str_eq r.token_hash t)) [
    | inl b ↦ sym ((eq_iff _ _).0 a) ∙ (eq_iff _ _).0 b
    | inr b ↦
        let h' : some r ≡ some x = simp a at h in
        let same : r ≡ x = cc in
        let there = find_token-has_id t rows y (simp b at k) in
        absurd (
          ground
            (arith, u.1, ap (λ i. has_id i rows) (ap (λ (z : SessionRow). z.id) same ∙ e) ∙ there))
  ]
  | inr a ↦ elim (Bool-cases (str_eq r.token_hash t)) [
    | inl b ↦
        let k' : some r ≡ some y = simp b at k in
        let same : r ≡ y = cc in
        let there = find_token-has_id s rows x (simp a at h) in
        absurd (
          ground (
            arith,
            u.1,
            ap (λ i. has_id i rows) (ap (λ (z : SessionRow). z.id) same ∙ sym e) ∙ there,
          ))
    | inr b ↦ find_token-one s t rows x y u.2 (simp a at h) (simp b at k) e
  ]
]

pub get_session-has_id :
    (i : ℕ) (rows : List SessionRow) (r : SessionRow)
    → get_session i rows ≡ some r
    → has_id r.id rows ≡ true
get_session-has_id i [] r h = absurd (ground (arith, h))
get_session-has_id i (x ∷ rows) r h = elim (Bool-cases (x.id == i)) [
  | inl e ↦
      let h' : some x ≡ some r = simp e at h in
      let same : x ≡ r = cc in rw (sym same) (ground arith)
  | inr e ↦ let h' = simp e at h in ground (arith, get_session-has_id i rows r h')
]
