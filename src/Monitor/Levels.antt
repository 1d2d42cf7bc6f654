-- ===== src/Monitor/Levels.antt =====
-- The grades of free space (`lowLevel` and `judgeCapacity` of internal/core/monitor.go).
use duskrun.Base.{
  ℕ, ◌*◌, ◌≤◌, ◌≡◌, refl, sym, true, false, ◌&&◌, List, [], ◌∷◌, ◌++◌, ◌==◌, leb, ltb,
  if◌then◌else◌, arith, Bool-cases, inl, inr, if-keeps,
}
use mathlib.Core.List.{append-nil}
use native.Mathlib.Nat.{mul-le-mul_left}
use duskrun.AlertStore.{alert_level, open_alert, low_of, same_key}
use duskrun.AlertStore.Levels.{alert_level-upsert, alert_level-close}
use duskrun.Monitor.{
  Notice, Monitoring, AlertAnswers, Capacity, below_with, slack_of, low_notice, recovered_notice,
  low_level, judge_capacity, is_below,
}

below_with_mono :
    (c : Capacity) (round x y share rounds : ℕ)
    → x ≤ y
    → below_with c round x share rounds ≡ true
    → below_with c round y share rounds ≡ true
unfolding below_with
below_with_mono c round x y share rounds h b =
    let volume : c.total * share * x ≤ c.total * share * y = mul-le-mul_left (c.total * share) h in
    let needed : round * rounds * x ≤ round * rounds * y = mul-le-mul_left (round * rounds) h in
    ground (arith, volume, needed, b)

-- The slack of a grade that was reached makes the test no stricter.
is_below_mono :
    (c : Capacity) (round p q level share rounds : ℕ)
    → (leb level p ≡ true → leb level q ≡ true)
    → is_below c round p level share rounds ≡ true
    → is_below c round q level share rounds ≡ true
unfolding is_below
is_below_mono c round p q level share rounds h b =
    below_with_mono c round (slack_of level p) (slack_of level q) share rounds slack b
  where
    slack : slack_of level p ≤ slack_of level q
    slack = elim (Bool-cases (leb level p)) [
      | inl e ↦ rw (e, h e) (omega arith)
      | inr e ↦ rw e (if-keeps (10 ≤◌) (leb level q) (omega arith) (omega arith))
    ]

-- Free space that is graded again from the grade it got keeps it: at one amount of free space there is
-- no swinging between grades, whatever the grade was before.
pub low_level-low_level :
    (c : Capacity) (round prev : ℕ)
    → low_level c round (low_level c round prev) ≡ low_level c round prev
unfolding low_level
low_level-low_level c round prev = elim (Bool-cases (is_below c round prev 2 5 1)) [
  | inl a ↦ rw (a, is_below_mono c round prev 2 2 5 1 (λ e. refl) a) refl
  | inr a ↦ elim (Bool-cases (is_below c round prev 1 10 3)) [
    | inl b ↦ ground (
      arith,
      a,
      b,
      is_below_mono c round 1 prev 2 5 1 (λ e. absurd (ground (arith, e))),
      is_below_mono c round prev 1 1 10 3 (λ e. refl) b,
    )
    | inr b ↦ ground (
      arith,
      a,
      b,
      is_below_mono c round 0 prev 2 5 1 (λ e. absurd (ground (arith, e))),
      is_below_mono c round 0 prev 1 10 3 (λ e. absurd (ground (arith, e))),
    )
  ]
]

-- A grade that is worse before is not better after: leaving a grade takes more free space than
-- entering it.
pub low_level_mono :
    (c : Capacity) (round p q : ℕ) → p ≤ q → low_level c round p ≤ low_level c round q
unfolding low_level
low_level_mono c round p q h =
    let critical = is_below_mono c round p q 2 5 1 (λ e. ground (arith, h, e)) in
    let warned = is_below_mono c round p q 1 10 3 (λ e. ground (arith, h, e)) in
    ground (arith, critical, warned)

abbrev pub grade_of : ℕ → Monitoring → ℕ
grade_of i s = alert_level (low_of i) s.alerts

same_key_low : (i : ℕ) → same_key (low_of i) (low_of i) ≡ true
unfolding same_key
same_key_low i = ground arith

-- The store answers while capacity is judged.
pub record Stores (ans : AlertAnswers) : Type 0 where
  pub opens : ans.opens ≡ true
  pub closes : ans.closes ≡ true
  pub reads : ans.reads ≡ true

-- The notices of a grade after another one.
abbrev pub grade_notices : ℕ → ℕ → ℕ → List Notice
grade_notices i prev level =
    if ltb prev level
    then record { event = low_notice; subject = i } ∷ []
    else if level == 0 && ltb 0 prev
    then record { event = recovered_notice; subject = i } ∷ []
    else []

-- When the store answers, the grade that is stored after a check is the one of the free space, and a
-- notice goes out exactly for a worse grade (space runs out) and for the end of the episode.
pub judge_capacity_grades :
    (ans : AlertAnswers) (i : ℕ) (c : Capacity) (round : ℕ) (s : Monitoring)
    → Stores ans
    → let level = low_level c round (grade_of i s) in
      let s' = judge_capacity ans i c round s in
      (grade_of i s' ≡ level) × (s'.sent ≡ s.sent ++ grade_notices i (grade_of i s) level)
unfolding judge_capacity open_alert
judge_capacity_grades ans i c round s k =
    let prev = grade_of i s in
    let level = low_level c round prev in
    let put = alert_level-upsert (low_of i) (low_of i) level ans.now s.alerts in
    let gone = alert_level-close (low_of i) (low_of i) s.alerts in
    elim (Bool-cases (level == prev)) [
      | inl e ↦
          let none_due : grade_notices i prev level ≡ [] = ground (arith, e) in
          rw (k.reads, e) (ground (arith, e), rw none_due (sym (append-nil s.sent)))
      | inr e ↦ elim (Bool-cases (level == 0)) [
        | inl f ↦
            let no_worse : ltb prev level ≡ false = ground (arith, f) in
            let was : ltb 0 prev ≡ true = ground (arith, e, f) in
            rw (k.reads, e, f, k.closes, no_worse, was)
              (ground (arith, f, gone, same_key_low i), refl)
        | inr f ↦ elim (Bool-cases (ltb level prev)) [
          | inl g ↦
              let no_worse : ltb prev level ≡ false = ground (arith, g) in
              rw (k.reads, e, f, k.opens, g, no_worse)
                (ground (arith, put, same_key_low i), sym (append-nil s.sent))
          | inr g ↦
              let worse : ltb prev level ≡ true = ground (arith, e, g) in
              rw (k.reads, e, f, k.opens, g, worse) (ground (arith, put, same_key_low i), refl)
        ]
      ]
    ]

-- A check that finds the free space of the check before, which the store answered, changes and sends
-- nothing.
pub judge_capacity-judge_capacity :
    (ans ans' : AlertAnswers) (i : ℕ) (c : Capacity) (round : ℕ) (s : Monitoring)
    → Stores ans
    → let s' = judge_capacity ans i c round s in judge_capacity ans' i c round s' ≡ s'
unfolding judge_capacity
judge_capacity-judge_capacity ans ans' i c round s k =
    let prev = grade_of i s in
    let stored = (judge_capacity_grades ans i c round s k).0 in
    let same = low_level-low_level c round prev in ground (arith, stored, same)
