-- ===== src/Dispatcher/Windows.antt =====
-- The windows (lastTick, now] of successive ticks (internal/core/dispatcher.go).
use duskrun.Base.{ℕ, ◌<◌, ◌≤◌, ◌≡◌, Bool, true, false, ◌||◌, not, Option, none, some, arith, ◌↔◌}
use duskrun.Model.{Task}
use duskrun.Dispatcher.{Schedule, Cron, next_run, is_after}

abbrev pub due_next : Option (Option ℕ) → ℕ → Bool
due_next none now = false
due_next (some next) now = not (is_after next now)

-- The test of `Tick`: the first activation after the last tick is not after now.
unfoldable pub is_due : Cron → ℕ → ℕ → Task → Bool
unfolding next_run
is_due cron last now t = due_next (next_run cron t.cron last) now

-- What the cron library documents of `Next`: it answers the least activation after a time. `always`
-- says that the schedule never ends.
pub record IsNext {ℓ} (active : ℕ → Type ℓ) (schedule : Schedule) : Type ℓ where
  pub later : (t u : ℕ) → schedule t ≡ some u → t < u
  pub activates : (t u : ℕ) → schedule t ≡ some u → active u
  pub least : (t u v : ℕ) → schedule t ≡ some u → t < v → active v → u ≤ v
  pub always : (t : ℕ) → (u : ℕ) × (schedule t ≡ some u)

due_split {ℓ} :
    (active : ℕ → Type ℓ) (schedule : Schedule) (last mid now : ℕ)
    → IsNext active schedule
    → last ≤ mid
    → mid ≤ now
    → not (is_after (schedule last) now)
      ≡ (not (is_after (schedule last) mid) || not (is_after (schedule mid) now))
due_split active schedule last mid now h p q =
    let (u, eu) = h.always last in
    let (v, ev) = h.always mid in
    let lu = h.later last u eu in
    let lv = h.later mid v ev in
    rw (eu, ev)
      (ground (
        arith,
        lu,
        lv,
        p,
        q,
        λ (k : mid < u). h.least mid v u ev k (h.activates last u eu),
        h.least last u v eu (omega (arith, lv)) (h.activates mid v ev),
      ))

-- Ticks neither miss an activation nor fire one twice because of where they fall: for a schedule
-- that the library reads as documented, a task is due over the window from `last` to `now` exactly
-- if it is due over the window up to a tick between them or over the one from that tick on.
pub is_due-split {ℓ} :
    (active : ℕ → Type ℓ) (cron : Cron) (schedule : Schedule) (t : Task) (last mid now : ℕ)
    → IsNext active schedule
    → cron t.cron ≡ some schedule
    → last ≤ mid
    → mid ≤ now
    → is_due cron last now t ≡ (is_due cron last mid t || is_due cron mid now t)
unfolding is_due
is_due-split active cron schedule t last mid now h e p q =
    rw (e, next_run) (due_split active schedule last mid now h p q)

due_iff {ℓ} :
    (active : ℕ → Type ℓ) (schedule : Schedule) (last now : ℕ)
    → IsNext active schedule
    → (not (is_after (schedule last) now) ≡ true) ↔ ((v : ℕ) × (last < v) × (v ≤ now) × active v)
due_iff active schedule last now h =
    let (u, e) = h.always last in
    (
      λ d. (u, h.later last u e, ground (arith, d, e), h.activates last u e),
      λ w. let le = h.least last u w.0 e w.1 w.3 in rw e (ground (arith, le, w.2)),
    )

-- A task is due at a tick exactly when its schedule has an activation after the last tick and not
-- after now.
pub is_due_iff {ℓ} :
    (active : ℕ → Type ℓ) (cron : Cron) (schedule : Schedule) (t : Task) (last now : ℕ)
    → IsNext active schedule
    → cron t.cron ≡ some schedule
    → (is_due cron last now t ≡ true) ↔ ((v : ℕ) × (last < v) × (v ≤ now) × active v)
unfolding is_due
is_due_iff active cron schedule t last now h e =
    rw (e, next_run) (due_iff active schedule last now h)
