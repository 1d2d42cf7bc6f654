-- ===== src/Retention/Policy.antt =====
-- Retention, GFS and their methods (internal/core/model.go). A Go `int` is an integer; nothing here
-- computes with one, so its width plays no part.
use duskrun.Base.{
  ℤ, pos, negsuc, ltb_ℤ, ◌==◌, Bool, true, false, ◌||◌, ◌&&◌, Option, none, some, if◌then◌else◌,
}

pub record Gfs : Type 0 where
  pub daily : ℤ
  pub weekly : ℤ
  pub monthly : ℤ

pub record Policy : Type 0 where
  pub keep_last : ℤ
  pub gfs : Option Gfs

-- Which count `Validate` complains of.
pub data BadCount : Type 0 where
  bad_keep_last bad_daily bad_weekly bad_monthly : BadCount

abbrev pub is_positive : ℤ → Bool
is_positive n = ltb_ℤ (pos 0) n

abbrev pub is_negative : ℤ → Bool
is_negative n = ltb_ℤ n (pos 0)

abbrev pub is_zero : ℤ → Bool
is_zero (pos n) = n == 0
is_zero (negsuc n) = false

abbrev pub gfs_enabled : Option Gfs → Bool
gfs_enabled none = false
gfs_enabled (some g) = is_positive g.daily || is_positive g.weekly || is_positive g.monthly

unfoldable pub is_enabled : Policy → Bool
is_enabled r = if is_positive r.keep_last then true else gfs_enabled r.gfs

abbrev pub validate_gfs : Option Gfs → Option BadCount
validate_gfs none = none
validate_gfs (some g) =
    if is_negative g.daily
    then some bad_daily
    else if is_negative g.weekly
    then some bad_weekly
    else if is_negative g.monthly
    then some bad_monthly
    else none

-- `none` is the nil error.
unfoldable pub validate : Policy → Option BadCount
validate r = if is_negative r.keep_last then some bad_keep_last else validate_gfs r.gfs

abbrev pub normalized_gfs : Option Gfs → Option Gfs
normalized_gfs none = none
normalized_gfs (some g) =
    if is_zero g.daily && is_zero g.weekly && is_zero g.monthly then none else some g

unfoldable pub normalized : Policy → Policy
normalized r = record r { gfs = normalized_gfs r.gfs }
