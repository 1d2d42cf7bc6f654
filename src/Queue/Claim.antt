-- ===== src/Queue/Claim.antt =====
-- ClaimNext (internal/store/sqlite/queue.go): first in, first out, and no run goes to two workers.
use duskrun.Base.{
  ℕ, ◌≡◌, refl, subst, String, true, false, Option, none, some, List, [], ◌∷◌, ◌<◌, ◌≤◌, arith, ◌↔◌,
  Bool-cases, Option-cases, inl, inr, if◌then◌else◌, ◌==◌, All, Distinct,
}
use duskrun.Queue.{
  Run, Table, ok, err, no_run, is_queued, run_ids, get_run, update_run, older, oldest_queued,
  claimed, returned, claim_next,
}
use duskrun.Queue.Oldest.{oldest_cases, oldest_queued-mem}
use duskrun.Queue.Invariant.{IsValid, claim_next-IsValid}

oldest-none : (rs : List Run) → oldest_queued rs ≡ none → All (λ s. is_queued s.status ≡ false) rs
unfolding oldest_queued
oldest-none [] e = tt
oldest-none (s ∷ rs) e = (ground arith, oldest-none rs (ground arith))

none-oldest : (rs : List Run) → All (λ s. is_queued s.status ≡ false) rs → oldest_queued rs ≡ none
unfolding oldest_queued
none-oldest [] a = refl
none-oldest (s ∷ rs) a = ground (arith, a.0, none-oldest rs a.1)

abbrev NoneBelow : ℕ → List Run → Type 0
NoneBelow i = All (λ s. is_queued s.status ≡ true → i ≤ s.id)

NoneBelow-of_none :
    (i : ℕ) (rs : List Run) → All (λ s. is_queued s.status ≡ false) rs → NoneBelow i rs
NoneBelow-of_none i [] a = tt
NoneBelow-of_none i (s ∷ rs) a = (λ q. ground (arith, a.0), NoneBelow-of_none i rs a.1)

NoneBelow-mono : (i j : ℕ) (rs : List Run) → i ≤ j → NoneBelow j rs → NoneBelow i rs
NoneBelow-mono i j [] h a = tt
NoneBelow-mono i j (s ∷ rs) h a =
    (λ q. let k : j ≤ s.id = a.0 q in omega arith, NoneBelow-mono i j rs h a.1)

-- No queued row is older.
oldest-NoneBelow : (rs : List Run) (r : Run) → oldest_queued rs ≡ some r → NoneBelow r.id rs
unfolding oldest_queued
oldest-NoneBelow [] r e = tt
oldest-NoneBelow (s ∷ rs) r e =
    by_rest (oldest_queued rs) (oldest-none rs) (λ q. oldest-NoneBelow rs q) e
  where
    by_rest :
        (rest : Option Run)
        → (rest ≡ none → All (λ q. is_queued q.status ≡ false) rs)
        → ((q : Run) → rest ≡ some q → NoneBelow q.id rs)
        → (if is_queued s.status then some (older s rest) else rest) ≡ some r
        → NoneBelow r.id (s ∷ rs)
    by_rest none n o h = (ground arith, NoneBelow-of_none r.id rs (n refl))
    by_rest (some q) n o h = (ground arith, NoneBelow-mono r.id q.id rs (ground arith) (o q refl))

get_run-All {κ} :
    (P : Run → Type κ) (i : ℕ) (rs : List Run) (q : Run) → All P rs → get_run i rs ≡ some q → P q
get_run-All P i [] q a e = cc
get_run-All P i (r ∷ rs) q a e = elim (Bool-cases (r.id == i)) [
  | inl h ↦ let same : r ≡ q = ground arith in subst P same a.0
  | inr h ↦ get_run-All P i rs q a.1 (ground arith)
]

get_run-id : (i : ℕ) (rs : List Run) (q : Run) → get_run i rs ≡ some q → q.id ≡ i
get_run-id i [] q e = cc
get_run-id i (r ∷ rs) q e = ground (arith, get_run-id i rs q)

get_run-update_ne :
    (i j : ℕ) (f : Run → Run) (rs : List Run)
    → ((r : Run) → (f r).id ≡ r.id)
    → (i == j) ≡ false
    → get_run j (update_run i f rs) ≡ get_run j rs
unfolding update_run
get_run-update_ne i j f [] k n = refl
get_run-update_ne i j f (r ∷ rs) k n = ground (arith, k r, get_run-update_ne i j f rs k)

get_run-update_self :
    (i : ℕ) (f : Run → Run) (rs : List Run) (q : Run)
    → ((r : Run) → (f r).id ≡ r.id)
    → get_run i rs ≡ some q
    → get_run i (update_run i f rs) ≡ some (f q)
unfolding update_run
get_run-update_self i f [] q k e = cc
get_run-update_self i f (r ∷ rs) q k e = ground (arith, k r, get_run-update_self i f rs q k)

-- `UPDATE … WHERE id = i` changes the row `i` and shows in no other.
pub get_run-update :
    (i j : ℕ) (f : Run → Run) (rs : List Run) (q : Run)
    → ((r : Run) → (f r).id ≡ r.id)
    → get_run i rs ≡ some q
    → get_run j (update_run i f rs) ≡ (if i == j then some (f q) else get_run j rs)
get_run-update i j f rs q k e = elim (Bool-cases (i == j)) [
  | inl h ↦
      let same : i ≡ j = ground arith in
      rw h (
        subst (λ x. get_run x (update_run i f rs) ≡ some (f q)) same
          (get_run-update_self i f rs q k e))
  | inr h ↦ rw h (get_run-update_ne i j f rs k h)
]

oldest-get_run :
    (rs : List Run) (r : Run)
    → Distinct (run_ids rs)
    → oldest_queued rs ≡ some r
    → get_run r.id rs ≡ some r
unfolding oldest_queued
oldest-get_run [] r d e = cc
oldest-get_run (s ∷ rs) r d e = elim (oldest_cases s rs r e) [
  | inl h ↦ ground arith
  | inr h ↦ ground (arith, d.0, (oldest_queued-mem rs r h).0, oldest-get_run rs r d.1 h)
]

-- The claim of run `r` by a worker took the table from `t` to `t'`.
pub record IsClaim (worker : String) (now : ℕ) (t : Table) (r : Run) (t' : Table) : Type 0 where
  pub row : Run
  pub held : get_run r.id t.runs ≡ some row
  pub was_queued : is_queued row.status ≡ true
  pub answer : r ≡ returned worker now row
  pub oldest : NoneBelow r.id t.runs
  pub after :
      (i : ℕ)
      → get_run i t'.runs ≡ (if r.id == i then some (claimed worker now row) else get_run i t.runs)

oldest-IsClaim :
    (worker : String) (now : ℕ) (t : Table) (q : Run)
    → IsValid t
    → oldest_queued t.runs ≡ some q
    → IsClaim worker now t (returned worker now q) (claim_next worker now t).1
unfolding claim_next
oldest-IsClaim worker now t q v h =
    let held = oldest-get_run t.runs q v.distinct h in
    record {
      row = q;
      held = held;
      was_queued = (oldest_queued-mem t.runs q h).1;
      answer = refl;
      oldest = oldest-NoneBelow t.runs q h;
      after = λ i.
          rw (h, claim_next) (get_run-update q.id i (claimed worker now) t.runs q (λ r. refl) held);
    }

-- What a claim takes and what it leaves: if ClaimNext answers a run, the table held it as queued
-- with the least id of all queued runs; the answer is that row as running under the worker; and in
-- the table afterwards the row is running, and every other row is what it was.
pub claim_next-IsClaim :
    (worker : String) (now : ℕ) (t : Table) (r : Run)
    → IsValid t
    → (claim_next worker now t).0 ≡ ok r
    → IsClaim worker now t r (claim_next worker now t).1
unfolding claim_next
claim_next-IsClaim worker now t r v e = elim (Option-cases (oldest_queued t.runs)) [
  | inl n ↦ absurd (refused (rw (n, claim_next) at e))
  | inr (q, h) ↦
      let same : returned worker now q ≡ r = answered (rw (h, claim_next) at e) in
      subst (λ x. IsClaim worker now t x (claim_next worker now t).1) same
        (oldest-IsClaim worker now t q v h)
]
  where
    refused : err no_run ≡ ok r → ⊥
    refused k = cc

    answered : {q : Run} → ok q ≡ ok r → q ≡ r
    answered k = cc

-- ClaimNext answers ErrNoRun exactly when no run is queued.
pub claim_next-eq-no_run_iff :
    (worker : String) (now : ℕ) (t : Table)
    → ((claim_next worker now t).0 ≡ err no_run) ↔ All (λ r. is_queued r.status ≡ false) t.runs
unfolding claim_next
claim_next-eq-no_run_iff worker now t =
    (λ e. oldest-none t.runs (ground arith), λ a. rw (none-oldest t.runs a, claim_next))

IsClaim-lt :
    {worker other : String} {now later : ℕ} {t t' t'' : Table} {r s : Run}
    → IsClaim worker now t r t'
    → IsClaim other later t' s t''
    → r.id < s.id
IsClaim-lt {worker} {now = now} {t = t} {r = r} {s = s} first second =
    elim (Bool-cases (r.id == s.id)) [
      | inl h ↦ absurd (ground (arith, h, first.after s.id, second.held, second.was_queued))
      | inr h ↦
          let held : get_run s.id t.runs ≡ some second.row =
            ground (arith, h, first.after s.id, second.held) in
          let le : r.id ≤ second.row.id =
            get_run-All (λ q. is_queued q.status ≡ true → r.id ≤ q.id) s.id t.runs second.row
              first.oldest held second.was_queued in
          ground (arith, le, h, get_run-id s.id t.runs second.row held)
    ]

-- No run goes to two workers: whichever workers claim one after the other on a valid table, the
-- second claim answers a run of a larger id than the first.
pub claim_next-claim_next :
    (worker other : String) (now later : ℕ) (t : Table) (r s : Run)
    → IsValid t
    → (claim_next worker now t).0 ≡ ok r
    → (claim_next other later (claim_next worker now t).1).0 ≡ ok s
    → r.id < s.id
claim_next-claim_next worker other now later t r s v e f =
    IsClaim-lt (claim_next-IsClaim worker now t r v e) (
      claim_next-IsClaim other later (claim_next worker now t).1 s
        (claim_next-IsValid worker now t v) f)
