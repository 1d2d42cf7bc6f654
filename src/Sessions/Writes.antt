-- ===== src/Sessions/Writes.antt =====
-- Updates and insertions in the table of sessions.
use duskrun.Base.{
  ℕ, suc, ◌≤◌, ◌≡◌, refl, String, false, Option, none, some, List, [], ◌∷◌, ◌++◌, ◌==◌, str_eq,
  eq_iff, if◌then◌else◌, arith,
}
use duskrun.Users.{SessionRow}
use duskrun.Login.{has_token, max_session}
use duskrun.Sessions.{find_token, touched_row, touch_session}
use duskrun.Sessions.Rows.{has_id, Unique}

abbrev pub mapped : (SessionRow → SessionRow) → Option SessionRow → Option SessionRow
mapped f none = none
mapped f (some r) = some (f r)

module _ (i seen expires : ℕ) where
  pub find_token-touch_session :
      (token : String) (rows : List SessionRow)
      → find_token token (touch_session i seen expires rows)
        ≡ mapped (touched_row i seen expires) (find_token token rows)
  unfolding touch_session
  find_token-touch_session token [] = refl
  find_token-touch_session token (r ∷ rows) = ground (arith, find_token-touch_session token rows)

  has_token-touch_session :
      (token : String) (rows : List SessionRow)
      → has_token token (touch_session i seen expires rows) ≡ has_token token rows
  unfolding touch_session
  has_token-touch_session token [] = refl
  has_token-touch_session token (r ∷ rows) = ground (arith, has_token-touch_session token rows)

  has_id-touch_session :
      (j : ℕ) (rows : List SessionRow)
      → has_id j (touch_session i seen expires rows) ≡ has_id j rows
  unfolding touch_session
  has_id-touch_session j [] = refl
  has_id-touch_session j (r ∷ rows) = ground (arith, has_id-touch_session j rows)

  pub touch_session-Unique :
      (rows : List SessionRow) → Unique rows → Unique (touch_session i seen expires rows)
  unfolding touch_session
  touch_session-Unique [] u = tt
  touch_session-Unique (r ∷ rows) u = (
    ground (arith, u.0, has_token-touch_session r.token_hash rows),
    ground (arith, u.1, has_id-touch_session r.id rows),
    touch_session-Unique rows u.2,
  )

abbrev pub or_row : String → SessionRow → Option SessionRow → Option SessionRow
or_row token r (some x) = some x
or_row token r none = if str_eq r.token_hash token then some r else none

pub find_token-append :
    (token : String) (rows : List SessionRow) (r : SessionRow)
    → find_token token (rows ++ r ∷ []) ≡ or_row token r (find_token token rows)
find_token-append token [] r = refl
find_token-append token (x ∷ rows) r = ground (arith, find_token-append token rows r)

has_token-append :
    (token : String) (rows : List SessionRow) (r : SessionRow)
    → str_eq r.token_hash token ≡ false
    → has_token token rows ≡ false
    → has_token token (rows ++ r ∷ []) ≡ false
has_token-append token [] r n h = ground (arith, n)
has_token-append token (x ∷ rows) r n h =
    ground (arith, h, has_token-append token rows r n (ground (arith, h)))

has_id-append :
    (i : ℕ) (rows : List SessionRow) (r : SessionRow)
    → (r.id == i) ≡ false
    → has_id i rows ≡ false
    → has_id i (rows ++ r ∷ []) ≡ false
has_id-append i [] r n h = ground (arith, n)
has_id-append i (x ∷ rows) r n h = ground (arith, h, has_id-append i rows r n (ground (arith, h)))

pub append-Unique :
    (rows : List SessionRow) (r : SessionRow)
    → has_token r.token_hash rows ≡ false
    → has_id r.id rows ≡ false
    → Unique rows
    → Unique (rows ++ r ∷ [])
append-Unique [] r h k u = (refl, refl, tt)
append-Unique (x ∷ rows) r h k u =
    let other : str_eq r.token_hash x.token_hash ≡ false =
      ground (arith, h, eq_iff x.token_hash r.token_hash, eq_iff r.token_hash x.token_hash) in
    (
      has_token-append x.token_hash rows r other u.0,
      has_id-append x.id rows r (ground (arith, k)) u.1,
      append-Unique rows r (ground (arith, h)) (ground (arith, k)) u.2,
    )

pub has_id-above :
    (i : ℕ) (rows : List SessionRow) → suc (max_session rows) ≤ i → has_id i rows ≡ false
has_id-above i [] h = refl
has_id-above i (r ∷ rows) h = ground (arith, h, has_id-above i rows (omega (arith, h)))
