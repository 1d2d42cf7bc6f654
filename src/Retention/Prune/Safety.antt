-- ===== src/Retention/Prune/Safety.antt =====
-- What pruning never does (internal/core/retention.go): it strands no object and it touches no
-- artifact that `Forget` kept.
use duskrun.Base.{
  ℕ, ◌≡◌, refl, true, false, some, List, [], ◌∷◌, ◌++◌, ◌==◌, eq_iff, if◌then◌else◌, contains,
  arith, ◌∙◌, Bool-cases, inl, inr, All, All-select,
}
use duskrun.Retention.Policy.{Policy}
use duskrun.Retention.Forget.{Artifact, ids, forget}
use duskrun.Retention.Forget.Order.{All-newest_first}
use duskrun.Retention.Prune.{
  Located, location, same_location, holds, Turn, Pruning, without_row, without_object, prune_one,
  prune_loop, prune,
}

pub holds-without_object :
    (x y : Located) (l : List Located)
    → holds (without_object x l) y ≡ (if same_location x y then false else holds l y)
holds-without_object x y [] = ground arith
holds-without_object x y (z ∷ l) =
    ground (
      arith,
      holds-without_object x y l,
      eq_iff z.key x.key,
      eq_iff z.key y.key,
      eq_iff x.key y.key,
    )

pub contains-without_row :
    (i j : ℕ) (l : List Artifact)
    → contains (ids (without_row i l)) j ≡ (if i == j then false else contains (ids l) j)
contains-without_row i j [] = ground arith
contains-without_row i j (a ∷ l) = ground (arith, contains-without_row i j l)

-- While its object exists, the row of `a` does.
abbrev pub Tracked : Artifact → Pruning → Type 0
Tracked a s = holds s.objects (location a) ≡ true → contains (ids s.catalog) a.id ≡ true

-- Artifacts of one id stand for one object.
abbrev pub Agrees : Artifact → Artifact → Type 0
Agrees a b = (b.id == a.id) ≡ true → same_location (location b) (location a) ≡ true

prune_one-Tracked :
    (t : Turn) (a b : Artifact) (s : Pruning)
    → Agrees a b
    → Tracked a s
    → Tracked a (prune_one t b s)
unfolding prune_one
prune_one-Tracked t a b s same h = ground (
  arith,
  holds-without_object (location b) (location a) s.objects,
  contains-without_row b.id a.id s.catalog,
)

prune_loop-Tracked :
    (turn : Artifact → Turn) (a : Artifact) (l : List Artifact) (s : Pruning)
    → All (Agrees a) l
    → Tracked a s
    → Tracked a (prune_loop turn l s)
unfolding prune_loop
prune_loop-Tracked turn a [] s same h = h
prune_loop-Tracked turn a (b ∷ l) s same h = elim (Bool-cases (turn b).cancelled) [
  | inl e ↦ simp e h
  | inr e ↦ simp e (
      prune_loop-Tracked turn a l (prune_one (turn b) b s) same.1
        (prune_one-Tracked (turn b) a b s same.0 h))
]

-- In a list without repetition an id belongs to one entry.
All-Agrees :
    (a : Artifact) (before after : List Artifact)
    → contains (ids before) a.id ≡ false
    → contains (ids after) a.id ≡ false
    → All (Agrees a) (before ++ a ∷ after)
All-Agrees a [] after hb ha = (λ e. ground (arith, eq_iff a.key a.key), absent after ha)
  where
    absent : (l : List Artifact) → contains (ids l) a.id ≡ false → All (Agrees a) l
    absent [] h = tt
    absent (b ∷ l) h = (λ e. ground arith, absent l (ground arith))
All-Agrees a (b ∷ before) after hb ha =
    (λ e. ground arith, All-Agrees a before after (ground arith) ha)

-- Pruning strands no object: an artifact of the task (no other artifact of which has its id) that
-- has a row whenever its object exists still has one after `Prune`, whatever the context, the
-- storages and the store answer on the way.
pub prune-Tracked :
    (ret : Policy) (turn : Artifact → Turn) (before : List Artifact) (a : Artifact)
    (after catalog : List Artifact) (objects : List Located)
    → contains (ids before) a.id ≡ false
    → contains (ids after) a.id ≡ false
    → (holds objects (location a) ≡ true → contains (ids catalog) a.id ≡ true)
    → Tracked a (prune ret turn (some (before ++ a ∷ after)) catalog objects)
unfolding prune forget
prune-Tracked ret turn before a after catalog objects hb ha h =
    prune_loop-Tracked turn a _ _
      (All-select (Agrees a) _ _ (All-newest_first (Agrees a) _ (All-Agrees a before after hb ha)))
      h

prune_one_untouched :
    (t : Turn) (i : ℕ) (b : Artifact) (s : Pruning)
    → (b.id == i) ≡ false
    → contains (ids (prune_one t b s).catalog) i ≡ contains (ids s.catalog) i
unfolding prune_one
prune_one_untouched t i b s h = ground (arith, contains-without_row b.id i s.catalog)

prune_loop_untouched :
    (turn : Artifact → Turn) (i : ℕ) (l : List Artifact) (s : Pruning)
    → contains (ids l) i ≡ false
    → contains (ids (prune_loop turn l s).catalog) i ≡ contains (ids s.catalog) i
unfolding prune_loop
prune_loop_untouched turn i [] s h = refl
prune_loop_untouched turn i (b ∷ l) s h = elim (Bool-cases (turn b).cancelled) [
  | inl e ↦ simp e
  | inr e ↦ simp e (
      prune_loop_untouched turn i l (prune_one (turn b) b s) (ground arith)
      ∙ prune_one_untouched (turn b) i b s (ground arith))
]

-- Pruning deletes the rows of `Forget`'s delete set only: any other row, of this task or another,
-- is in the catalog afterwards exactly if it was before.
pub prune_untouched :
    (ret : Policy) (turn : Artifact → Turn) (i : ℕ) (artifacts catalog : List Artifact)
    (objects : List Located)
    → contains (ids (forget ret artifacts).1) i ≡ false
    → contains (ids (prune ret turn (some artifacts) catalog objects).catalog) i
      ≡ contains (ids catalog) i
unfolding prune
prune_untouched ret turn i artifacts catalog objects h =
    prune_loop_untouched turn i (forget ret artifacts).1 _ h
