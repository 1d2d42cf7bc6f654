-- ===== src/Watchdog/Thresholds.antt =====
-- The threshold of a task and the interval it is derived from (internal/core/watchdog.go).
use duskrun.Base.{
  ℕ, zero, suc, ◌+◌, ◌-◌, ◌*◌, ◌≤◌, ◌<◌, ◌≡◌, refl, ℤ, pos, ltb_ℤ, ◌-ℤ◌, Bool, true, false, Option,
  none, some, ltb, max, arith, Bool-cases, Option-cases, inl, inr, if◌then◌else◌,
}
use duskrun.Model.{Task, hour}
use duskrun.Dispatcher.{Cron, Schedule}
use duskrun.Watchdog.{
  derived, judge, WatchdogAlert, watchdog_threshold, evaluate_watchdog, idle_from,
}
use Prim.Native.Nat.add
use native.Mathlib.Nat.{suc-add}
use duskrun.Watchdog.Gaps.{
  sample_limit, sample_window, probe_fuel, widest_of, positive, walk_gaps, probe_gaps, probe_step,
  schedule_interval, cron_max_interval,
}

-- No wait of the schedule is longer than `g`.
abbrev pub WaitsBelow : Schedule → ℕ → Type 0
WaitsBelow schedule g = (t u : ℕ) → schedule t ≡ some u → u ≤ t + g

walk_gaps-le :
    (left : ℕ) (schedule : Schedule) (deadline seen prev widest g : ℕ)
    → WaitsBelow schedule g
    → widest ≤ g
    → (walk_gaps left schedule deadline seen prev widest).0 ≤ g
unfolding walk_gaps
walk_gaps-le zero schedule deadline seen prev widest g h k = k
walk_gaps-le (suc left) schedule deadline seen prev widest g h k =
    elim (Option-cases (schedule prev)) [
      | inl e ↦ rw (e, walk_gaps) k
      | inr (u, e) ↦
          rw (e, walk_gaps)
            (ground (
              arith,
              h prev u e,
              walk_gaps-le left schedule deadline (suc seen) u (max widest (u - prev)) g h,
            ))
    ]

probe_gaps-le :
    (fuel : ℕ) (schedule : Schedule) (end at widest g : ℕ)
    → WaitsBelow schedule g
    → widest ≤ g
    → probe_gaps fuel schedule end at widest ≤ g
unfolding probe_gaps
probe_gaps-le zero schedule end at widest g h k = k
probe_gaps-le (suc fuel) schedule end at widest g h k = elim (Bool-cases (ltb at end)) [
  | inr e ↦ rw (e, probe_gaps) k
  | inl e ↦ elim (Option-cases (schedule at)) [
    | inl f ↦ rw (e, probe_gaps) (rw f k)
    | inr (u, f) ↦
        rw (e, probe_gaps)
          (rw f (
            probe_gaps-le fuel schedule end (at + probe_step) (max widest (u - at)) g h
              (omega (arith, h at u f))))
  ]
]

-- The probe does not run out of its fuel: once the rounds reach the end of the window, more fuel
-- changes nothing.
pub probe_gaps_enough :
    (fuel more : ℕ) (schedule : Schedule) (end at widest : ℕ)
    → end < at + fuel * probe_step
    → probe_gaps (fuel + more) schedule end at widest ≡ probe_gaps fuel schedule end at widest
unfolding probe_gaps
probe_gaps_enough zero zero schedule end at widest h = refl
probe_gaps_enough zero (suc more) schedule end at widest h =
    let past : ltb at end ≡ false = ground arith in rw (add.zero (suc more)) (rw (past, probe_gaps))
probe_gaps_enough (suc fuel) more schedule end at widest h =
    rw (suc-add fuel more) (elim (Bool-cases (ltb at end)) [
      | inr e ↦ rw (e, probe_gaps) refl
      | inl e ↦ elim (Option-cases (schedule at)) [
        | inl f ↦ rw (e, probe_gaps) (rw f refl)
        | inr (u, f) ↦
            rw (e, probe_gaps)
              (rw f (
                probe_gaps_enough fuel more schedule end (at + probe_step) (max widest (u - at))
                  (omega arith)))
      ]
    ])

-- The interval that is derived from a schedule is a gap of it: never 0, and no longer than its
-- longest wait for an activation.
pub schedule_interval_bounds :
    (schedule : Schedule) (from g n : ℕ)
    → WaitsBelow schedule g
    → schedule_interval schedule from ≡ some n
    → (0 < n) × (n ≤ g)
unfolding schedule_interval
schedule_interval_bounds schedule from g n h e = elim (Option-cases (schedule from)) [
  | inl f ↦ absurd (no_interval (rw (f, schedule_interval) at e))
  | inr (first, f) ↦
      positive_bounds _
        (widest_of-le (walk_gaps sample_limit schedule (from + sample_window) 0 first 0) _
          (walk_gaps-le sample_limit schedule (from + sample_window) 0 first 0 g h (omega arith))
          (probe_gaps-le probe_fuel schedule (from + sample_window) from 0 g h (omega arith)))
        (rw (f, schedule_interval) at e)
]
  where
    no_interval : none ≡ some n → ⊥
    no_interval k = cc

    widest_of-le :
        (walked : ℕ × Bool) (probed : ℕ) → walked.0 ≤ g → probed ≤ g → widest_of walked probed ≤ g
    widest_of-le (w, true) probed p q = p
    widest_of-le (w, false) probed p q = omega arith

    positive_bounds : (m : ℕ) → m ≤ g → positive m ≡ some n → (0 < n) × (n ≤ g)
    positive_bounds m p q = ground arith

-- A threshold is a positive duration: an explicit setting as it stands, and for a task on
-- WatchdogAuto at least an hour and at least two of its schedule's intervals.
pub watchdog_threshold_bounds :
    (cron : Cron) (t : Task) (th : ℤ)
    → watchdog_threshold cron t ≡ some th
    → (ltb_ℤ (pos 0) th ≡ true)
      × (ltb_ℤ (pos 0) t.watchdog ≡ true → th ≡ t.watchdog)
      × (t.watchdog ≡ pos 0
          → (n : ℕ) × (cron_max_interval cron t.cron t.created_at ≡ some n)
            × (th ≡ pos (max (2 * n) hour)))
unfolding watchdog_threshold
watchdog_threshold_bounds cron t th e = by_interval (cron_max_interval cron t.cron t.created_at) e
  where
    by_interval :
        (interval : Option ℕ)
        → (if ltb_ℤ t.watchdog (pos 0)
            then none
            else if ltb_ℤ (pos 0) t.watchdog
            then some t.watchdog
            else derived interval)
          ≡ some th
        → (ltb_ℤ (pos 0) th ≡ true)
          × (ltb_ℤ (pos 0) t.watchdog ≡ true → th ≡ t.watchdog)
          × (t.watchdog ≡ pos 0 → (n : ℕ) × (interval ≡ some n) × (th ≡ pos (max (2 * n) hour)))
    by_interval none k = (ground arith, λ p. ground arith, λ p. absurd (ground arith))
    by_interval (some n) k = (ground arith, λ p. ground arith, λ p. (n, refl, ground arith))

-- A task is reported only after it has been idle for longer than its threshold: an alert means that
-- more than the threshold lies between now and the latest of the last success (or, without one, the
-- creation) and the moment the task was enabled, and `Since` is that idle time.
pub evaluate_watchdog_sound :
    (cron : Cron) (last_success : ℕ → Option ℕ) (now : ℕ) (t : Task) (a : WatchdogAlert)
    → evaluate_watchdog cron last_success now t ≡ some a
    → let from = idle_from t (last_success t.id) in
      (watchdog_threshold cron t ≡ some a.threshold)
      × (a.since ≡ pos now -ℤ pos from)
      × ((th : ℕ) → a.threshold ≡ pos th → from + th < now)
unfolding evaluate_watchdog ◌-ℤ◌
evaluate_watchdog_sound cron last_success now t a e = by_threshold (watchdog_threshold cron t) e
  where
    by_threshold :
        (threshold : Option ℤ)
        → judge t (last_success t.id) now threshold ≡ some a
        → (threshold ≡ some a.threshold)
          × (a.since ≡ pos now -ℤ pos (idle_from t (last_success t.id)))
          × ((th : ℕ) → a.threshold ≡ pos th → idle_from t (last_success t.id) + th < now)
    by_threshold none k = absurd (ground arith)
    by_threshold (some th) k = (ground arith, ground arith, λ n p. ground arith)
