-- ===== src/Queue/Oldest.antt =====
-- SELECT id FROM run WHERE status = 'queued' ORDER BY id LIMIT 1 (internal/store/sqlite/queue.go).
use duskrun.Base.{
  ℕ, ◌≡◌, true, false, Option, none, some, List, [], ◌∷◌, ◌==◌, if◌then◌else◌, contains, arith, inl,
  inr, ◌⊎◌, All, Distinct, sym, subst,
}
use duskrun.Queue.{Run, is_queued, run_ids, older, oldest_queued}

-- The oldest queued row is the head or that of the rest, by the smaller id.
pub oldest_cases :
    (s : Run) (rs : List Run) (r : Run)
    → oldest_queued (s ∷ rs) ≡ some r
    → ((is_queued s.status ≡ true) × (r ≡ s)) ⊎ (oldest_queued rs ≡ some r)
unfolding oldest_queued
oldest_cases s rs r e = by_rest (oldest_queued rs) e
  where
    by_rest :
        (rest : Option Run)
        → (if is_queued s.status then some (older s rest) else rest) ≡ some r
        → ((is_queued s.status ≡ true) × (r ≡ s)) ⊎ (rest ≡ some r)
    by_rest none h = ground arith
    by_rest (some q) h = ground arith

pub oldest_queued-mem :
    (rs : List Run) (r : Run)
    → oldest_queued rs ≡ some r
    → (contains (run_ids rs) r.id ≡ true) × (is_queued r.status ≡ true)
unfolding oldest_queued
oldest_queued-mem [] r e = cc
oldest_queued-mem (s ∷ rs) r e = elim (oldest_cases s rs r e) [
  | inl h ↦ ground arith
  | inr h ↦ ground (arith, oldest_queued-mem rs r h)
]

pub queued_of_absent :
    (i : ℕ) (rs : List Run)
    → contains (run_ids rs) i ≡ false
    → All (λ s. (s.id == i) ≡ true → is_queued s.status ≡ true) rs
queued_of_absent i [] h = tt
queued_of_absent i (r ∷ rs) h = (λ e. ground arith, queued_of_absent i rs (ground arith))

-- Where ids are unique, every row with the id of the oldest queued row is queued.
pub queued_at_oldest :
    (rs : List Run) (r : Run)
    → Distinct (run_ids rs)
    → oldest_queued rs ≡ some r
    → All (λ s. (s.id == r.id) ≡ true → is_queued s.status ≡ true) rs
unfolding oldest_queued
queued_at_oldest [] r d e = tt
queued_at_oldest (s ∷ rs) r d e = elim (oldest_cases s rs r e) [
  | inl h ↦ (
    λ k. h.0,
    queued_of_absent r.id rs (subst (λ q. contains (run_ids rs) q.id ≡ false) (sym h.1) d.0),
  )
  | inr h ↦ (λ k. ground (arith, d.0, (oldest_queued-mem rs r h).0), queued_at_oldest rs r d.1 h)
]
