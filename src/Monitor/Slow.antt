-- ===== src/Monitor/Slow.antt =====
-- Slow runs are reported once (`CheckRuns` of internal/core/monitor.go).
use duskrun.Base.{
  ℕ, ◌≡◌, ◌∙◌, ap, refl, Bool, true, false, ◌||◌, ◌&&◌, List, [], ◌∷◌, ◌++◌, ◌==◌, contains, arith,
  Bool-cases, inl, inr, select,
}
use duskrun.Queue.{Run, run_ids}
use duskrun.Monitor.{
  Notice, Monitoring, MonitorEvent, slow_run, RunAnswers, Verdict, after_verdict, is_give_up, go_on,
  give_up, report, run_verdict, check_each, check_runs,
}

abbrev is_slow_run : MonitorEvent → Bool
is_slow_run slow_run = true
is_slow_run _ = false

-- A notice that reports the run as slow.
abbrev pub reports : List Notice → ℕ → Bool
reports [] i = false
reports (n ∷ ns) i = (is_slow_run n.event && n.subject == i) || reports ns i

reports-append_slow :
    (ns : List Notice) (j i : ℕ)
    → reports (ns ++ record { event = slow_run; subject = j } ∷ []) i ≡ (reports ns i || j == i)
reports-append_slow [] j i = ground arith
reports-append_slow (n ∷ ns) j i = ground (arith, reports-append_slow ns j i)

verdict-reported :
    (ans : RunAnswers) (slow : List ℕ) (r : Run)
    → contains slow r.id ≡ true
    → run_verdict ans slow r ≡ go_on
unfolding run_verdict
verdict-reported ans slow r h = rw h refl

-- What the loop keeps of one run: a reported run stays reported and causes no notice; and a run with
-- a notice after the loop had one before, or is reported and was listed.
record Once (rs : List Run) (i : ℕ) (s s' : Monitoring) : Type 0 where
  stays : contains s.slow i ≡ true → contains s'.slow i ≡ true
  silent : contains s.slow i ≡ true → reports s'.sent i ≡ reports s.sent i
  marked :
      reports s.sent i ≡ false
      → reports s'.sent i ≡ true
      → (contains s'.slow i ≡ true) × (contains (run_ids rs) i ≡ true)

after_verdict-Once :
    (v : Verdict) (rs : List Run) (r : Run) (i : ℕ) (s : Monitoring)
    → (contains s.slow r.id ≡ true → v ≡ go_on)
    → Once (r ∷ rs) i s (after_verdict v r.id s)
after_verdict-Once go_on rs r i s h = record {
  stays = λ k. k;
  silent = λ k. refl;
  marked = λ n y. absurd (ground (arith, n, y));
}
after_verdict-Once give_up rs r i s h = record {
  stays = λ k. k;
  silent = λ k. refl;
  marked = λ n y. absurd (ground (arith, n, y));
}
after_verdict-Once report rs r i s h = record {
  stays = λ k. ground arith;
  silent = λ k. elim (Bool-cases (r.id == i)) [
    | inl e ↦ absurd (ground (arith, e, k, h))
    | inr e ↦ ground (arith, e, reports-append_slow s.sent r.id i)
  ];
  marked = λ n y. ground (arith, n, y, reports-append_slow s.sent r.id i);
}

check_each-Once :
    (ans : RunAnswers) (rs : List Run) (i : ℕ) (s : Monitoring)
    → Once rs i s (check_each ans rs s).1
unfolding check_each
check_each-Once ans [] i s = record {
  stays = λ k. k;
  silent = λ k. refl;
  marked = λ n y. absurd (ground (arith, n, y));
}
check_each-Once ans (r ∷ rs) i s =
    let v = run_verdict ans s.slow r in
    let first = after_verdict-Once v rs r i s (verdict-reported ans s.slow r) in
    let rest = check_each-Once ans rs i (after_verdict v r.id s) in
    elim (Bool-cases (is_give_up v)) [
      | inl e ↦ rw e (record {
        stays = λ k. k;
        silent = λ k. refl;
        marked = λ n y. absurd (ground (arith, n, y));
      })
      | inr e ↦ rw e (record {
        stays = λ k. rest.stays (first.stays k);
        silent = λ k. rest.silent (first.stays k) ∙ first.silent k;
        marked = λ n y. elim (Bool-cases (reports (after_verdict v r.id s).sent i)) [
          | inl f ↦ (rest.stays (first.marked n f).0, (first.marked n f).1)
          | inr f ↦ ((rest.marked f y).0, ground (arith, (rest.marked f y).1))
        ];
      })
    ]

contains-select :
    (live xs : List ℕ) (i : ℕ)
    → contains (select (contains live) xs) i ≡ (contains live i && contains xs i)
contains-select live [] i = ground arith
contains-select live (x ∷ xs) i = elim (Bool-cases (x == i)) [
  | inl e ↦
      let same : contains live x ≡ contains live i = ap (contains live) (ground (arith, e)) in
      ground (arith, e, same, contains-select live xs i)
  | inr e ↦ ground (arith, e, contains-select live xs i)
]

check_runs-marked :
    (ans : RunAnswers) (rs : List Run) (i : ℕ) (s : Monitoring)
    → reports s.sent i ≡ false
    → reports (check_runs ans rs s).1.sent i ≡ true
    → contains (check_runs ans rs s).1.slow i ≡ true
unfolding check_runs
check_runs-marked ans rs i s n y =
    let step = check_each ans rs s in
    let once = check_each-Once ans rs i s in
    elim (Bool-cases step.0) [
      | inl e ↦
          let m = once.marked n (ground (arith, e, y)) in
          ground (arith, e, m.0, m.1, contains-select (run_ids rs) step.1.slow i)
      | inr e ↦ ground (arith, e, (once.marked n (ground (arith, e, y))).0)
    ]

check_runs-silent :
    (ans : RunAnswers) (rs : List Run) (i : ℕ) (s : Monitoring)
    → contains s.slow i ≡ true
    → reports (check_runs ans rs s).1.sent i ≡ reports s.sent i
unfolding check_runs
check_runs-silent ans rs i s k =
    let step = check_each ans rs s in
    let once = check_each-Once ans rs i s in
    elim (Bool-cases step.0) [
      | inl e ↦ ground (arith, e, once.silent k)
      | inr e ↦ ground (arith, e, once.silent k)
    ]

-- No run is reported as slow by two checks in a row: what one check reports, whether it ends with an
-- error or not, the next one does not report again, whatever it is told about the run.
pub check_runs-check_runs :
    (ans ans' : RunAnswers) (rs rs' : List Run) (i : ℕ) (s : Monitoring)
    → let s1 = (check_runs ans rs (record s { sent = [] })).1 in
      let s2 = (check_runs ans' rs' (record s1 { sent = [] })).1 in
      reports s1.sent i ≡ true → reports s2.sent i ≡ false
check_runs-check_runs ans ans' rs rs' i s h =
    let s1 = (check_runs ans rs (record s { sent = [] })).1 in
    check_runs-silent ans' rs' i (record s1 { sent = [] })
      (check_runs-marked ans rs i (record s { sent = [] }) refl h)
