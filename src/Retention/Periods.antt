-- ===== src/Retention/Periods.antt =====
-- The period keys that `Forget` hands to `keepByPeriod` (internal/core/retention.go). The code
-- formats each as a text and only compares the texts; a key here is the number that the text
-- stands for, so two keys are equal exactly when the texts are. Times are Unix seconds, UTC.
use duskrun.Base.{ℕ, ◌+◌, ◌-◌, ◌*◌, ◌/◌, ◌%◌}

abbrev days : ℕ → ℕ
days t = t / 86400

-- Format("2006-01-02"): the civil date, which is the day's number since 1970-01-01.
unfoldable pub day_key : ℕ → ℕ
day_key t = days t

-- ISOWeek(): weeks begin on Monday, and 1970-01-01 was a Thursday.
unfoldable pub week_key : ℕ → ℕ
week_key t = (days t + 3) / 7

-- Days since 0000-03-01 of the proleptic Gregorian calendar, cut into the year (from March) and
-- the month of a 400-year era.
abbrev era_day : ℕ → ℕ
era_day t = (days t + 719468) % 146097

abbrev era_year : ℕ → ℕ
era_year d = (d - d / 1460 + d / 36524 - d / 146096) / 365

abbrev year_day : ℕ → ℕ
year_day d = d - (365 * era_year d + era_year d / 4 - era_year d / 100)

-- Format("2006-01"): the civil month, counted from 0000-03.
unfoldable pub month_key : ℕ → ℕ
month_key t =
    let d = era_day t in
    ((days t + 719468) / 146097 * 400 + era_year d) * 12 + (5 * year_day d + 2) / 153
