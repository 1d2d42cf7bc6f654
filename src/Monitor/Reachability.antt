-- ===== src/Monitor/Reachability.antt =====
-- Outages of a storage (`unreachable` and `reachable` of internal/core/monitor.go).
use duskrun.Base.{
  ℕ, zero, suc, ◌<◌, ◌≡◌, refl, ◌∙◌, sym, true, false, [], ◌∷◌, ◌++◌, ◌==◌, leb, ltb, if◌then◌else◌,
  arith, Bool-cases, inl, inr,
}
use mathlib.Core.List.{append-nil, append_assoc}
use duskrun.AlertStore.{alert_level, open_alert, unreachable_of, same_key}
use duskrun.AlertStore.Levels.{
  IsOpen, IsOpen-upsert, alert_level-upsert, alert_level-close, close_alert-eq,
}
use duskrun.Monitor.{
  Monitoring, AlertAnswers, unreachable_notice, recovered_notice, unreachable, reachable,
  set_misses,
}

-- `n` failed probes in a row.
abbrev pub failures : AlertAnswers → ℕ → ℕ → Monitoring → Monitoring
failures ans i zero s = s
failures ans i (suc n) s = failures ans i n (unreachable ans i s)

abbrev pub level_of : ℕ → Monitoring → ℕ
level_of i s = alert_level (unreachable_of i) s.alerts

same_key_self : (i : ℕ) → same_key (unreachable_of i) (unreachable_of i) ≡ true
unfolding same_key
same_key_self i = ground arith

-- A failure that is the second one or later: the episode is open, and was reported when it was not.
record Missed (i : ℕ) (s s' : Monitoring) : Type 0 where
  counted : s'.misses i ≡ suc (s.misses i)
  opened : level_of i s' ≡ 1
  valid : IsOpen s'.alerts
  told :
      s'.sent
      ≡ s.sent
        ++ (if level_of i s == 0
            then record { event = unreachable_notice; subject = i } ∷ []
            else [])

unreachable-Missed :
    (ans : AlertAnswers) (i : ℕ) (s : Monitoring)
    → ans.opens ≡ true
    → 0 < s.misses i
    → IsOpen s.alerts
    → Missed i s (unreachable ans i s)
unfolding unreachable open_alert
unreachable-Missed ans i s o m h =
    let level = alert_level-upsert (unreachable_of i) (unreachable_of i) 1 ans.now s.alerts in
    let valid = IsOpen-upsert (unreachable_of i) 1 ans.now s.alerts (omega arith) h in
    let second : ltb (suc (s.misses i)) 2 ≡ false = ground (arith, m) in
    elim (Bool-cases (level_of i s == 0)) [
      | inl e ↦
          rw (o, second, e)
            (record {
              counted = ground arith;
              opened = ground (arith, level, same_key_self i);
              valid = valid;
              told = rw e refl;
            })
      | inr e ↦
          rw (o, second, e)
            (record {
              counted = ground arith;
              opened = ground (arith, level, same_key_self i);
              valid = valid;
              told = rw e (sym (append-nil s.sent));
            })
    ]

-- The first failure is only counted.
unreachable-first :
    (ans : AlertAnswers) (i : ℕ) (s : Monitoring)
    → s.misses i ≡ 0
    → unreachable ans i s ≡ record s { misses = set_misses i 1 s.misses }
unfolding unreachable
unreachable-first ans i s m = rw (m) refl

record Told (i : ℕ) (s s' : Monitoring) : Type 0 where
  same : s'.sent ≡ s.sent
  opened : level_of i s' ≡ 1
  valid : IsOpen s'.alerts

failures-Told :
    (ans : AlertAnswers) (i n : ℕ) (s : Monitoring)
    → ans.opens ≡ true
    → 0 < s.misses i
    → level_of i s ≡ 1
    → IsOpen s.alerts
    → Told i s (failures ans i n s)
failures-Told ans i zero s o m l h = record { same = refl; opened = l; valid = h }
failures-Told ans i (suc n) s o m l h =
    let one = unreachable-Missed ans i s o m h in
    let rest =
      failures-Told ans i n (unreachable ans i s) o (ground (arith, one.counted)) one.opened
        one.valid in
    record {
      same = rest.same ∙ one.told ∙ rw l (append-nil s.sent);
      opened = rest.opened;
      valid = rest.valid;
    }

record Back (i : ℕ) (s s' : Monitoring) : Type 0 where
  told :
      s'.sent
      ≡ s.sent
        ++ (if ltb 0 (level_of i s)
            then record { event = recovered_notice; subject = i } ∷ []
            else [])
  missed : s'.misses i ≡ 0
  closed : level_of i s' ≡ 0

reachable-Back :
    (ans : AlertAnswers) (i : ℕ) (s : Monitoring)
    → ans.closes ≡ true
    → IsOpen s.alerts
    → Back i s (reachable ans i s)
unfolding reachable
reachable-Back ans i s c h =
    let was = close_alert-eq (unreachable_of i) s.alerts h in
    let level = alert_level-close (unreachable_of i) (unreachable_of i) s.alerts in
    elim (Bool-cases (ltb 0 (level_of i s))) [
      | inl e ↦
          rw (c, was, e)
            (record {
              told = rw e refl;
              missed = ground arith;
              closed = ground (arith, level, same_key_self i);
            })
      | inr e ↦
          rw (c, was, e)
            (record {
              told = rw e (sym (append-nil s.sent));
              missed = ground arith;
              closed = ground (arith, level, same_key_self i);
            })
    ]

-- An outage is told once and its end once. Where episodes can be opened and closed, every stored
-- episode has a level above 0, no probe of the storage was missed before and it has no open
-- episode: after `n` failed probes in a row and an answered one, the notices that went out are one that
-- the storage does not answer and one that it is back if `n` is at least 2, and none otherwise; and
-- nothing is left of the outage.
pub outage_notices :
    (ans : AlertAnswers) (i n : ℕ) (s : Monitoring)
    → ans.opens ≡ true
    → ans.closes ≡ true
    → s.misses i ≡ 0
    → level_of i s ≡ 0
    → IsOpen s.alerts
    → let s' = reachable ans i (failures ans i n s) in
      (s'.sent
        ≡ s.sent
          ++ (if leb 2 n
              then record { event = unreachable_notice; subject = i }
                ∷ record { event = recovered_notice; subject = i }
                ∷ []
              else []))
      × (s'.misses i ≡ 0)
      × (level_of i s' ≡ 0)
outage_notices ans i zero s o c m l h =
    let back = reachable-Back ans i s c h in (back.told ∙ rw l refl, back.missed, back.closed)
outage_notices ans i (suc zero) s o c m l h = rw (unreachable-first ans i s m) (
    let back = reachable-Back ans i (record s { misses = set_misses i 1 s.misses }) c h in
    (back.told ∙ rw l refl, back.missed, back.closed))
outage_notices ans i (suc (suc n)) s o c m l h =
    let s1 = record s { misses = set_misses i 1 s.misses } in
    let one = unreachable-Missed ans i s1 o (ground arith) h in
    let told =
      failures-Told ans i n (unreachable ans i s1) o (ground (arith, one.counted)) one.opened
        one.valid in
    let back = reachable-Back ans i (failures ans i n (unreachable ans i s1)) c told.valid in
    let enough : leb 2 (suc (suc n)) ≡ true = ground arith in
    rw (unreachable-first ans i s m) (
      back.told
          ∙ rw (enough, told.opened) (rw told.same (rw (one.told, l) (append_assoc s.sent _ _))),
      back.missed,
      back.closed,
    )
