-- ===== src/AlertStore/Levels.antt =====
-- The levels of episodes after the statements of internal/store/sqlite/alert.go.
use duskrun.Base.{
  ◌∙◌, ℕ, ◌<◌, ◌≡◌, refl, true, false, List, [], ◌∷◌, if◌then◌else◌, arith, All, ltb, Bool-cases,
  inl, inr,
}
use duskrun.AlertStore.{open_alert, Key, Alert, same_key, alert_level, upsert_alert, close_alert}

-- Levels are above 0, as every caller of `OpenAlert` passes them.
abbrev pub IsOpen : List Alert → Type 0
IsOpen rows = All (λ a. 0 < a.level) rows

same_key_trans : (x y z : Key) → same_key x y ≡ true → same_key x z ≡ same_key y z
unfolding same_key
same_key_trans x y z h = ground arith

same_key_apart : (x y z : Key) → same_key x y ≡ false → same_key x z ≡ true → same_key y z ≡ false
unfolding same_key
same_key_apart x y z h k = ground arith

pub alert_level-upsert :
    (k j : Key) (level at : ℕ) (rows : List Alert)
    → alert_level j (upsert_alert k level at rows)
      ≡ (if same_key k j then level else alert_level j rows)
unfolding alert_level upsert_alert
alert_level-upsert k j level at [] = refl
alert_level-upsert k j level at (a ∷ rows) = elim (Bool-cases (same_key a.key k)) [
  | inl e ↦ ground (arith, e, same_key_trans a.key k j e)
  | inr e ↦ ground (arith, e, same_key_apart a.key k j e, alert_level-upsert k j level at rows)
]

pub alert_level-close :
    (k j : Key) (rows : List Alert)
    → alert_level j (close_alert k rows).1 ≡ (if same_key k j then 0 else alert_level j rows)
unfolding alert_level close_alert
alert_level-close k j [] = ground arith
alert_level-close k j (a ∷ rows) = elim (Bool-cases (same_key a.key k)) [
  | inl e ↦ ground (arith, e, same_key_trans a.key k j e, alert_level-close k j rows)
  | inr e ↦ ground (arith, e, same_key_apart a.key k j e, alert_level-close k j rows)
]

pub close_alert-eq :
    (k : Key) (rows : List Alert)
    → IsOpen rows
    → (close_alert k rows).0 ≡ ltb 0 (alert_level k rows)
unfolding alert_level close_alert
close_alert-eq k [] h = refl
close_alert-eq k (a ∷ rows) h = ground (arith, h.0, close_alert-eq k rows h.1)

pub IsOpen-upsert :
    (k : Key) (level at : ℕ) (rows : List Alert)
    → 0 < level
    → IsOpen rows
    → IsOpen (upsert_alert k level at rows)
unfolding upsert_alert
IsOpen-upsert k level at [] p h = (p, tt)
IsOpen-upsert k level at (a ∷ rows) p h = elim (Bool-cases (same_key a.key k)) [
  | inl e ↦ rw e (p, h.1)
  | inr e ↦ rw e (h.0, IsOpen-upsert k level at rows p h.1)
]

-- Opening an episode and closing it again: the close reports an open episode, the key has none left,
-- and the level of every other key is what it was.
pub close_alert-open_alert :
    (k j : Key) (level at : ℕ) (rows : List Alert)
    → 0 < level
    → IsOpen rows
    → let opened = (open_alert k level at rows).1 in
      ((close_alert k opened).0 ≡ true)
      × (alert_level j (close_alert k opened).1 ≡ (if same_key k j then 0 else alert_level j rows))
unfolding open_alert same_key
close_alert-open_alert k j level at rows p h = (
  close_alert-eq k (upsert_alert k level at rows) (IsOpen-upsert k level at rows p h)
      ∙ ground (arith, alert_level-upsert k k level at rows),
  ground (
    arith,
    alert_level-close k j (upsert_alert k level at rows),
    alert_level-upsert k j level at rows,
  ),
)
