-- ===== src/Factors/Rows.antt =====
-- Whose rows the tables of second factors have after each statement of internal/store/sqlite/mfa.go.
use duskrun.Base.{
  ℕ, ◌≡◌, refl, String, Bool, true, false, ◌&&◌, ◌||◌, not, Option, none, some, List, [], ◌∷◌, ◌++◌,
  ◌==◌, any, select, arith, Bool-cases, inl, inr, Option-cases, ap, ◌∙◌,
}
use duskrun.Factors.{
  TotpRow, CodeRow, owns_totp, owns_code, without_codes, insert_codes, replace_codes, replace_given,
  upsert_totp, spend, use_recovery_code, unused_code,
}

pub any-append {ℓ} :
    {A : Type ℓ} (p : A → Bool) (xs ys : List A) → any p (xs ++ ys) ≡ (any p xs || any p ys)
any-append p [] ys = refl
any-append p (x ∷ xs) ys = ground (arith, any-append p xs ys)

-- Rows that are not selected for deletion are found as before.
pub any-select {ℓ} :
    {A : Type ℓ} (p gone : A → Bool) (xs : List A)
    → ((x : A) → p x ≡ true → gone x ≡ false)
    → any p (select (λ x. not (gone x)) xs) ≡ any p xs
any-select p gone [] h = refl
any-select p gone (x ∷ xs) h = elim (Bool-cases (p x)) [
  | inl e ↦ rw (e, h x e) (rw e refl)
  | inr e ↦ elim (Bool-cases (gone x)) [
    | inl g ↦ rw (e, g) (any-select p gone xs h)
    | inr g ↦ rw (e, g) (rw e (any-select p gone xs h))
  ]
]

pub any-upsert_totp :
    (i : ℕ) (t : TotpRow) (rs : List TotpRow)
    → any (owns_totp i) (upsert_totp t rs) ≡ (t.user_id == i || any (owns_totp i) rs)
any-upsert_totp i t [] = refl
any-upsert_totp i t (r ∷ rs) = ground (arith, any-upsert_totp i t rs)

pub any-without_codes :
    (i j : ℕ) (codes : List CodeRow)
    → any (owns_code j) (without_codes i codes) ≡ (not (i == j) && any (owns_code j) codes)
any-without_codes i j [] = ground arith
any-without_codes i j (r ∷ rs) = ground (arith, any-without_codes i j rs)

any-insert_codes :
    (i j : ℕ) (hashes : List String) (codes : List CodeRow)
    → (i == j) ≡ false
    → any (owns_code j) (insert_codes i hashes codes) ≡ any (owns_code j) codes
unfolding insert_codes
any-insert_codes i j [] codes n = refl
any-insert_codes i j (h ∷ hs) codes n =
    rw (any-insert_codes i j hs (codes ++ _ ∷ []) n, any-append (owns_code j) codes (_ ∷ []), n)
      (ground arith)

pub any-replace_codes :
    (i j : ℕ) (hashes : List String) (codes : List CodeRow)
    → (i == j) ≡ false
    → any (owns_code j) (replace_codes i hashes codes) ≡ any (owns_code j) codes
unfolding replace_codes
any-replace_codes i j hashes codes n =
    ground
      (arith, n, any-insert_codes i j hashes (without_codes i codes) n, any-without_codes i j codes)

pub any-replace_given :
    (i j : ℕ) (hashes : Option (List String)) (codes : List CodeRow)
    → (i == j) ≡ false
    → any (owns_code j) (replace_given i hashes codes) ≡ any (owns_code j) codes
any-replace_given i j none codes n = refl
any-replace_given i j (some hashes) codes n = any-replace_codes i j hashes codes n

any-spend :
    (j id at : ℕ) (codes : List CodeRow)
    → any (owns_code j) (spend id at codes) ≡ any (owns_code j) codes
any-spend j id at [] = refl
any-spend j id at (r ∷ rs) = elim (Bool-cases (r.id == id)) [
  | inl e ↦ rw (e, any-spend j id at rs) refl
  | inr e ↦ rw (e, any-spend j id at rs) refl
]

pub any-use_recovery_code :
    (i j : ℕ) (hash : String) (at : ℕ) (codes : List CodeRow)
    → any (owns_code j) (use_recovery_code i hash at codes).1 ≡ any (owns_code j) codes
unfolding use_recovery_code
any-use_recovery_code i j hash at codes = elim (Option-cases (unused_code i hash codes)) [
  | inl e ↦ ap (any (owns_code j)) (rw (use_recovery_code, e) refl)
  | inr (id, e) ↦ ap (any (owns_code j)) (rw (use_recovery_code, e) refl) ∙ any-spend j id at codes
]
