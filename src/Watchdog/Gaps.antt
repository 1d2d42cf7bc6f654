-- ===== src/Watchdog/Gaps.antt =====
-- The interval of a schedule: cronMaxInterval, walkCronGaps and probeCronGaps
-- (internal/core/watchdog.go).
use duskrun.Base.{
  ℕ, zero, suc, ◌+◌, ◌-◌, ◌*◌, String, Bool, true, false, ◌&&◌, not, Option, none, some, ltb, leb,
  if◌then◌else◌, max,
}
use duskrun.Model.{minute, hour}
use duskrun.Dispatcher.{Schedule, Cron}

-- cronSampleWindow, cronMinSamples, cronSampleLimit, cronProbeStep
abbrev pub sample_window : ℕ
sample_window = 8 * 24 * hour

abbrev pub min_samples : ℕ
min_samples = 8

abbrev pub sample_limit : ℕ
sample_limit = 400

abbrev pub probe_step : ℕ
probe_step = 10 * minute

-- The walk with `left` rounds to go; it has seen `seen` gaps, and `widest` is the largest. A gap
-- that is not positive changes nothing, so `-` may stop at 0.
unfoldable pub walk_gaps : ℕ → Schedule → ℕ → ℕ → ℕ → ℕ → ℕ × Bool
walk_gaps zero schedule deadline seen prev widest = (widest, false)
walk_gaps (suc left) schedule deadline seen prev widest = elim (schedule prev) [
  | none ↦ (widest, true)
  | some next ↦
      let widest' = max widest (next - prev) in
      elim (not (ltb next deadline) && leb min_samples (suc seen)) [
        | true ↦ (widest', true)
        | false ↦ walk_gaps left schedule deadline (suc seen) next widest'
      ]
]

-- The probe from `at` up to `end`, on fuel.
unfoldable pub probe_gaps : ℕ → Schedule → ℕ → ℕ → ℕ → ℕ
probe_gaps zero schedule end at widest = widest
probe_gaps (suc fuel) schedule end at widest = elim (ltb at end) [
  | false ↦ widest
  | true ↦ elim (schedule at) [
    | none ↦ widest
    | some next ↦ probe_gaps fuel schedule end (at + probe_step) (max widest (next - at))
  ]
]

-- One more than the probes that fit into the window.
abbrev pub probe_fuel : ℕ
probe_fuel = 1153

abbrev pub widest_of : ℕ × Bool → ℕ → ℕ
widest_of (walked, true) probed = walked
widest_of (walked, false) probed = max walked probed

abbrev pub positive : ℕ → Option ℕ
positive n = if ltb 0 n then some n else none

-- `none` for a schedule with no activation, or with no gap to be seen.
unfoldable pub schedule_interval : Schedule → ℕ → Option ℕ
schedule_interval schedule from = elim (schedule from) [
  | none ↦ none
  | some first ↦ positive (
      widest_of (walk_gaps sample_limit schedule (from + sample_window) 0 first 0)
        (probe_gaps probe_fuel schedule (from + sample_window) from 0))
]

-- `cronMaxInterval`; `none` is any of its errors.
unfoldable pub cron_max_interval : Cron → String → ℕ → Option ℕ
unfolding schedule_interval
cron_max_interval cron expr from = elim (cron expr) [
  | none ↦ none
  | some schedule ↦ schedule_interval schedule from
]
