-- ===== src/Retention/Prune/Progress.antt =====
-- What pruning achieves (internal/core/retention.go): one artifact that cannot be removed holds up
-- no other.
use duskrun.Base.{
  ◌+◌, ◌≡◌, true, false, some, List, [], ◌∷◌, ◌++◌, length, length-append, contains, arith,
  Bool-cases, inl, inr, All, eq_iff,
}
use duskrun.Retention.Policy.{Policy}
use duskrun.Retention.Forget.{Artifact, ids, forget}
use duskrun.Retention.Forget.Order.{contains-ids-append}
use duskrun.Retention.Prune.Safety.{contains-without_row, holds-without_object}
use duskrun.Retention.Prune.{
  PruneError, open_failed, object_failed, row_failed, Located, location, holds, Turn, Pruning,
  prune_one, prune_loop, prune,
}

-- Nothing stands in the way of pruning `a`.
abbrev pub Succeeds : Turn → Type 0
Succeeds t = (t.opens ≡ true) × (t.object_deletes ≡ true) × (t.row_deletes ≡ true)

abbrev pub Uncancelled : (Artifact → Turn) → List Artifact → Type 0
Uncancelled turn = All (λ a. (turn a).cancelled ≡ false)

length_fail : (s : Pruning) (e : PruneError) → length (s.errs ++ e ∷ []) ≡ length s.errs + 1
length_fail s e = length-append s.errs (e ∷ [])

prune_one_counts :
    (t : Turn) (a : Artifact) (s : Pruning)
    → length (prune_one t a s).deleted + length (prune_one t a s).errs
      ≡ length s.deleted + length s.errs + 1
unfolding prune_one
prune_one_counts t a s = ground (
  arith,
  length-append s.deleted (a ∷ []),
  length_fail s (open_failed a.id),
  length_fail s (object_failed a.key),
  length_fail s (row_failed a.id),
)

prune_loop_counts :
    (turn : Artifact → Turn) (l : List Artifact) (s : Pruning)
    → Uncancelled turn l
    → length (prune_loop turn l s).deleted + length (prune_loop turn l s).errs
      ≡ length s.deleted + length s.errs + length l
unfolding prune_loop
prune_loop_counts turn [] s h = omega arith
prune_loop_counts turn (a ∷ rest) s h = ground (
  arith,
  h.0,
  prune_one_counts (turn a) a s,
  prune_loop_counts turn rest (prune_one (turn a) a s) h.1,
)

-- Without cancellation every artifact of the delete set is accounted for: `Prune` reports each
-- either as deleted or by an error.
pub prune_accounts :
    (ret : Policy) (turn : Artifact → Turn) (artifacts catalog : List Artifact)
    (objects : List Located)
    → Uncancelled turn (forget ret artifacts).1
    → let s = prune ret turn (some artifacts) catalog objects in
      length s.deleted + length s.errs ≡ length (forget ret artifacts).1
unfolding prune
prune_accounts ret turn artifacts catalog objects h =
    omega (arith, prune_loop_counts turn (forget ret artifacts).1 _ h)

-- The artifact is reported deleted, its object is gone from the storage and its row from the
-- catalog.
abbrev pub IsPruned : Artifact → Pruning → Type 0
IsPruned a s =
    (contains (ids s.deleted) a.id ≡ true)
    × (holds s.objects (location a) ≡ false)
    × (contains (ids s.catalog) a.id ≡ false)

prune_one-IsPruned :
    (t : Turn) (a b : Artifact) (s : Pruning) → IsPruned a s → IsPruned a (prune_one t b s)
unfolding prune_one
prune_one-IsPruned t a b s h = ground (
  arith,
  contains-without_row b.id a.id s.catalog,
  contains-ids-append s.deleted (b ∷ []) a.id,
  holds-without_object (location b) (location a) s.objects,
)

prune_one-Succeeds :
    (t : Turn) (a : Artifact) (s : Pruning) → Succeeds t → IsPruned a (prune_one t a s)
unfolding prune_one
prune_one-Succeeds t a s h = ground (
  arith,
  contains-without_row a.id a.id s.catalog,
  contains-ids-append s.deleted (a ∷ []) a.id,
  holds-without_object (location a) (location a) s.objects,
  eq_iff a.key a.key,
)

prune_loop-IsPruned :
    (turn : Artifact → Turn) (a : Artifact) (l : List Artifact) (s : Pruning)
    → IsPruned a s
    → IsPruned a (prune_loop turn l s)
unfolding prune_loop
prune_loop-IsPruned turn a [] s h = h
prune_loop-IsPruned turn a (b ∷ l) s h = elim (Bool-cases (turn b).cancelled) [
  | inl e ↦ simp e h
  | inr e ↦
      simp e (
        prune_loop-IsPruned turn a l (prune_one (turn b) b s) (prune_one-IsPruned (turn b) a b s h))
]

prune_loop_progress :
    (turn : Artifact → Turn) (before : List Artifact) (a : Artifact) (after : List Artifact)
    (s : Pruning)
    → Uncancelled turn (before ++ a ∷ after)
    → Succeeds (turn a)
    → IsPruned a (prune_loop turn (before ++ a ∷ after) s)
unfolding prune_loop
prune_loop_progress turn [] a after s h good = simp h.0 (
    prune_loop-IsPruned turn a after (prune_one (turn a) a s)
      (prune_one-Succeeds (turn a) a s good))
prune_loop_progress turn (b ∷ before) a after s h good =
    simp h.0 (prune_loop_progress turn before a after (prune_one (turn b) b s) h.1 good)

-- One unremovable object holds up no other: where the context is cancelled at no artifact of the
-- delete set, an artifact of it whose storage opens and whose object and row can be deleted is
-- reported deleted, and neither its object nor its row is left, whatever fails for the artifacts
-- before and after it.
pub prune_progress :
    (ret : Policy) (turn : Artifact → Turn) (artifacts catalog : List Artifact)
    (objects : List Located) (before : List Artifact) (a : Artifact) (after : List Artifact)
    → (forget ret artifacts).1 ≡ before ++ a ∷ after
    → Uncancelled turn (before ++ a ∷ after)
    → Succeeds (turn a)
    → IsPruned a (prune ret turn (some artifacts) catalog objects)
unfolding prune
prune_progress ret turn artifacts catalog objects before a after e h good =
    rw e (prune_loop_progress turn before a after _ h good)
