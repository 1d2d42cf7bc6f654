-- ===== src/Factors/Spending.antt =====
-- Recovery codes are spent once (UseRecoveryCode of internal/store/sqlite/mfa.go).
use duskrun.Base.{
  ℕ, suc, ◌+◌, ◌≡◌, refl, sym, String, Bool, true, false, some, List, [], ◌∷◌, arith, Bool-cases,
  Option-cases, inl, inr, ◌==◌, ==_iff, map, contains, Distinct, subst,
}
use duskrun.Factors.{CodeRow, matches, unused_code, spend, count_recovery_codes, use_recovery_code}

abbrev pub code_ids : List CodeRow → List ℕ
code_ids = map (λ r. r.id)

count-spend_other :
    (j id at : ℕ) (codes : List CodeRow)
    → contains (code_ids codes) id ≡ false
    → count_recovery_codes j (spend id at codes) ≡ count_recovery_codes j codes
unfolding count_recovery_codes
count-spend_other j id at [] h = refl
count-spend_other j id at (r ∷ rs) h = ground (arith, h, count-spend_other j id at rs)

contains-unused_code :
    (i : ℕ) (hash : String) (id : ℕ) (codes : List CodeRow)
    → unused_code i hash codes ≡ some id
    → contains (code_ids codes) id ≡ true
contains-unused_code i hash id [] h = absurd (ground (arith, h))
contains-unused_code i hash id (r ∷ rs) h = elim (Bool-cases (matches i hash r)) [
  | inl e ↦ let here : some r.id ≡ some id = simp e at h in ground (arith, here)
  | inr e ↦
      let rest : unused_code i hash rs ≡ some id = simp e at h in
      ground (arith, contains-unused_code i hash id rs rest)
]

count-spend :
    (i at : ℕ) (hash : String) (id : ℕ) (codes : List CodeRow)
    → Distinct (code_ids codes)
    → unused_code i hash codes ≡ some id
    → suc (count_recovery_codes i (spend id at codes)) ≡ count_recovery_codes i codes
unfolding count_recovery_codes
count-spend i at hash id [] d h = absurd (ground (arith, h))
count-spend i at hash id (r ∷ rs) d h = elim (Bool-cases (matches i hash r)) [
  | inl e ↦
      let here : some r.id ≡ some id = simp e at h in
      ground (arith, e, here, d.0, count-spend_other i id at rs)
  | inr e ↦
      let rest : unused_code i hash rs ≡ some id = simp e at h in
      ground (
        arith,
        d.0,
        count-spend i at hash id rs d.1 rest,
        contains-unused_code i hash id rs rest,
        ==_iff r.id id,
      )
]

code_ids-spend : (id at : ℕ) (codes : List CodeRow) → code_ids (spend id at codes) ≡ code_ids codes
code_ids-spend id at [] = refl
code_ids-spend id at (r ∷ rs) = elim (Bool-cases (r.id == id)) [
  | inl e ↦ rw (e, code_ids-spend id at rs) refl
  | inr e ↦ rw (e, code_ids-spend id at rs) refl
]

abbrev counted : Bool → ℕ
counted true = 1
counted false = 0

use_recovery_code_counts :
    (i : ℕ) (hash : String) (at : ℕ) (codes : List CodeRow)
    → Distinct (code_ids codes)
    → let (accepted, codes') = use_recovery_code i hash at codes in
      (counted accepted + count_recovery_codes i codes' ≡ count_recovery_codes i codes)
      × (code_ids codes' ≡ code_ids codes)
unfolding use_recovery_code
use_recovery_code_counts i hash at codes d = elim (Option-cases (unused_code i hash codes)) [
  | inl e ↦
      let used : use_recovery_code i hash at codes ≡ (false, codes) =
        rw (use_recovery_code, e) refl in
      rw used (omega arith, refl)
  | inr (id, e) ↦
      let used : use_recovery_code i hash at codes ≡ (true, spend id at codes) =
        rw (use_recovery_code, e) refl in
      rw used (omega (arith, count-spend i at hash id codes d e), code_ids-spend id at codes)
]

-- The codes after a sequence of attempts of one user, and how many of them were accepted.
abbrev pub use_all : ℕ → List (String × ℕ) → List CodeRow → ℕ × List CodeRow
use_all i [] codes = (0, codes)
use_all i ((hash, at) ∷ attempts) codes =
    let (accepted, codes') = use_recovery_code i hash at codes in
    let (n, codes'') = use_all i attempts codes' in (counted accepted + n, codes'')

-- A recovery code is good for one login: over any attempts of a user, with any codes and at any times,
-- the accepted ones and the unused codes that are left are together the unused codes of before. The
-- rows have distinct ids.
pub use_all_spends :
    (i : ℕ) (attempts : List (String × ℕ)) (codes : List CodeRow)
    → Distinct (code_ids codes)
    → let (accepted, codes') = use_all i attempts codes in
      accepted + count_recovery_codes i codes' ≡ count_recovery_codes i codes
use_all_spends i [] codes d = omega arith
use_all_spends i ((hash, at) ∷ attempts) codes d =
    let first = use_recovery_code_counts i hash at codes d in
    let codes' = (use_recovery_code i hash at codes).1 in
    omega (arith, first.0, use_all_spends i attempts codes' (subst Distinct (sym first.1) d))
