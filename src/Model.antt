-- ===== src/Model.antt =====
-- Task, NotifierChannel and Role of internal/core/model.go, which the other components share.
use duskrun.Base.{
  ℕ, ℤ, String, Bool, true, false, ◌&&◌, List, [], ◌∷◌, ltb, leb, str_eq, if◌then◌else◌,
}
use duskrun.Retention.Policy.{Policy}

pub data MisfirePolicy : Type 0 where
  run_once_now skip : MisfirePolicy

-- JSON values stay the texts that they are; a duration is its signed count of nanoseconds, and a
-- time the count of nanoseconds since 1970.
pub record Task : Type 0 where
  pub id : ℕ
  pub name : String
  pub connection_id : ℕ
  pub dumper_opts : String
  pub codec_chain : List String
  pub storage_id : ℕ
  pub cron : String
  pub retention : Policy
  pub notifiers : List String
  pub enabled : Bool
  pub misfire : MisfirePolicy
  pub retries : ℤ
  pub timeout : ℤ
  pub watchdog : ℤ
  pub enabled_at : ℕ
  pub created_at : ℕ

abbrev pub second : ℕ
second = 1000000000

abbrev pub minute : ℕ
minute = 60000000000

abbrev pub hour : ℕ
hour = 3600000000000

pub record NotifierChannel : Type 0 where
  pub id : ℕ
  pub name : String
  pub kind : String
  pub config : String
  pub events : List String
  pub enabled : Bool
  pub created_at : ℕ

abbrev subscribed : List String → String → Bool
subscribed [] kind = false
subscribed (e ∷ es) kind = if str_eq e kind then true else subscribed es kind

-- A channel that is enabled and subscribed to the event kind.
unfoldable pub wants : NotifierChannel → String → Bool
wants c kind = if c.enabled then subscribed c.events kind else false

-- The three known roles, and any other text.
pub data Role : Type 0 where
  viewer operator admin unknown : Role

abbrev pub role_rank : Role → ℕ
role_rank viewer = 1
role_rank operator = 2
role_rank admin = 3
role_rank unknown = 0

unfoldable pub is_known : Role → Bool
is_known r = ltb 0 (role_rank r)

unfoldable pub at_least : Role → Role → Bool
at_least r want = ltb 0 (role_rank r) && leb (role_rank want) (role_rank r)
