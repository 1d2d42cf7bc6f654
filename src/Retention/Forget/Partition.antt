-- ===== src/Retention/Forget/Partition.antt =====
-- `Forget` (internal/core/retention.go) splits the artifacts and loses none.
use mathlib.Core.List.{perm_middle}
use mathlib.Core.List.Perm
use duskrun.Base.{Bool, not, List, [], ◌∷◌, ◌++◌, select, Bool-cases, inl, inr, Perm}
use duskrun.Retention.Policy.{Policy}
use duskrun.Retention.Forget.{Artifact, newer, insert_newest, newest_first, forget}

insert_newest-perm : (a : Artifact) (l : List Artifact) → Perm (insert_newest a l) (a ∷ l)
unfolding insert_newest
insert_newest-perm a [] = Perm.refl (a ∷ [])
insert_newest-perm a (b ∷ bs) = elim (Bool-cases (newer a b)) [
  | inl e ↦ rw e (Perm.refl (a ∷ b ∷ bs))
  | inr e ↦ rw e (Perm.trans (Perm.cons b (insert_newest-perm a bs)) (Perm.swap a b bs))
]

pub newest_first-perm : (l : List Artifact) → Perm (newest_first l) l
unfolding newest_first
newest_first-perm [] = Perm.refl []
newest_first-perm (a ∷ rest) =
    Perm.trans (insert_newest-perm a (newest_first rest)) (Perm.cons a (newest_first-perm rest))

select-perm {ℓ} :
    {A : Type ℓ} (p : A → Bool) (l : List A) → Perm (select p l ++ select (λ a. not (p a)) l) l
select-perm p [] = Perm.refl []
select-perm p (x ∷ xs) = elim (Bool-cases (p x)) [
  | inl e ↦ rw e (Perm.cons x (select-perm p xs))
  | inr e ↦ rw e (
      Perm.trans (perm_middle (select p xs) (select (λ a. not (p a)) xs))
        (Perm.cons x (select-perm p xs)))
]

-- The kept and the deleted artifacts together are the given ones, each as often as it was given.
pub forget-perm :
    (ret : Policy) (artifacts : List Artifact)
    → Perm ((forget ret artifacts).0 ++ (forget ret artifacts).1) artifacts
unfolding forget
forget-perm ret artifacts =
    Perm.trans (select-perm _ (newest_first artifacts)) (newest_first-perm artifacts)
