-- ===== src/Dispatcher/Due.antt =====
-- What a tick queues, by the activations of the schedules (internal/core/dispatcher.go over
-- internal/store/sqlite/queue.go).
use duskrun.Base.{
  ℕ, String, ◌+◌, ◌<◌, ◌≤◌, ◌≡◌, refl, ◌⊎◌, inl, inr, ◌↔◌, true, Option, none, some, List, [], ◌∷◌,
  arith, contains, All, length, Bool-cases,
}
use duskrun.Model.{Task}
use duskrun.Queue.{Table, has_active}
use duskrun.Dispatcher.{Schedule, Cron, Dispatcher, next_run, tick}
use duskrun.Dispatcher.Ticks.{queue_store, any_due, tick-dispatches}
use duskrun.Dispatcher.Windows.{IsNext, due_next, is_due, is_due_iff}

module _ (active : String → ℕ → Type 0) (cron : Cron) where
  -- The schedule of `t`, if its expression parses, is read as the library documents and never ends.
  abbrev pub IsRead : Task → Type 0
  IsRead t = (schedule : Schedule) → cron t.cron ≡ some schedule → IsNext (active t.cron) schedule

  -- `t` has the id `i` and a schedule with an activation after `last` and not after `now`.
  abbrev pub Activates : ℕ → ℕ → ℕ → Task → Type 0
  Activates last now i t =
      (t.id ≡ i)
      × ((schedule : Schedule) × (cron t.cron ≡ some schedule))
      × ((v : ℕ) × (last < v) × (v ≤ now) × active t.cron v)

  abbrev pub SomeActivates : ℕ → ℕ → ℕ → List Task → Type 0
  SomeActivates last now i [] = ⊥
  SomeActivates last now i (t ∷ ts) = Activates last now i t ⊎ SomeActivates last now i ts

  is_due-parsed :
      (last now : ℕ) (t : Task)
      → is_due cron last now t ≡ true
      → (schedule : Schedule) × (cron t.cron ≡ some schedule)
  unfolding is_due next_run
  is_due-parsed last now t h = parsed (cron t.cron) h
    where
      parsed :
          (o : Option Schedule)
          → due_next (elim o [ none ↦ none | some schedule ↦ some (schedule last) ]) now ≡ true
          → (schedule : Schedule) × (o ≡ some schedule)
      parsed none h = ground (arith, h)
      parsed (some schedule) h = (schedule, refl)

  any_due-SomeActivates :
      (last now i : ℕ) (ts : List Task)
      → All IsRead ts
      → any_due cron last now i ts ≡ true
      → SomeActivates last now i ts
  any_due-SomeActivates last now i [] r h = ground (arith, h)
  any_due-SomeActivates last now i (t ∷ ts) r h = elim (Bool-cases (any_due cron last now i ts)) [
    | inl e ↦ inr (any_due-SomeActivates last now i ts r.1 e)
    | inr e ↦
        let due : is_due cron last now t ≡ true = ground (arith, h, e) in
        let p = is_due-parsed last now t due in
        inl (
          ground (arith, h, e),
          p,
          (is_due_iff (active t.cron) cron p.0 t last now (r.0 p.0 p.1) p.1).0 due,
        )
  ]

  SomeActivates-any_due :
      (last now i : ℕ) (ts : List Task)
      → All IsRead ts
      → SomeActivates last now i ts
      → any_due cron last now i ts ≡ true
  SomeActivates-any_due last now i [] r a = elim a [ ]
  SomeActivates-any_due last now i (t ∷ ts) r (inl a) =
      let p = a.1 in
      let due = (is_due_iff (active t.cron) cron p.0 t last now (r.0 p.0 p.1) p.1).1 a.2 in
      ground (arith, a.0, due)
  SomeActivates-any_due last now i (t ∷ ts) r (inr a) =
      ground (arith, SomeActivates-any_due last now i ts r.1 a)

  -- A tick queues what is due and nothing else. The listing answers tasks of the table, and each of
  -- their expressions is invalid or a schedule that never ends, of which the library answers the
  -- least activation after a time. Then a task has an active run after the tick exactly if it had
  -- one before or it is listed with a schedule that has an activation after the last tick and not
  -- after now; the answered number is that of the runs added; and the next window begins at now.
  pub tick-activates :
      (list : Table → Option (List Task)) (unix now i : ℕ) (d : Dispatcher Table) (ts : List Task)
      → list d.store ≡ some ts
      → All (λ t. contains d.store.tasks t.id ≡ true) ts
      → All IsRead ts
      → let (n, d') = tick cron (queue_store list unix) now d in
        ((has_active i d'.store.runs ≡ true)
          ↔ ((has_active i d.store.runs ≡ true) ⊎ SomeActivates d.last_tick now i ts))
        × (d'.last_tick ≡ now)
        × ((k : ℕ) × (n ≡ some k) × (length d'.store.runs ≡ length d.store.runs + k))
  tick-activates list unix now i d ts e h r =
      let all = tick-dispatches cron list unix now i d ts e h in
      (
        (
          λ q. elim (Bool-cases (has_active i d.store.runs)) [
            | inl a ↦ inl a
            | inr a ↦
                inr (any_due-SomeActivates d.last_tick now i ts r (ground (arith, all.0, q, a)))
          ],
          λ q. elim q [
            | inl a ↦ ground (arith, all.0, a)
            | inr a ↦ ground (arith, all.0, SomeActivates-any_due d.last_tick now i ts r a)
          ],
        ),
        all.1,
        all.2,
      )
