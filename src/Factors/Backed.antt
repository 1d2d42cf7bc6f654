-- ===== src/Factors/Backed.antt =====
-- Recovery codes exist alongside a second factor only (migrations/0008_mfa.sql).
use duskrun.Base.{
  ℕ, ◌≡◌, refl, String, Bool, true, false, ◌||◌, Option, List, [], ◌∷◌, ◌==◌, any, length, arith,
  Bool-cases, inl, inr, if-keeps, ==_iff,
}
use duskrun.Factors.{
  FactorStore, TotpRow, Answer, owns_totp, owns_passkey, owns_code, has_totp, has_passkey,
  has_account, is_passkey, drop_orphan_codes, put_totp, delete_totp, new_passkey, add_passkey,
  delete_passkey, replace_recovery_codes, reset_user_mfa,
}
use duskrun.Factors.Rows.{
  any-append, any-select, any-upsert_totp, any-without_codes, any-replace_codes, any-replace_given,
}

abbrev pub has_factor : ℕ → FactorStore → Bool
has_factor i s = has_totp i s || has_passkey i s

abbrev pub BackedFor : ℕ → FactorStore → Type 0
BackedFor j s = any (owns_code j) s.codes ≡ true → has_factor j s ≡ true

-- Every user with a recovery code, spent or not, has a second factor.
abbrev pub Backed : FactorStore → Type 0
Backed s = (j : ℕ) → BackedFor j s

drop_orphan_codes-Backed :
    (i j : ℕ) (s : FactorStore)
    → ((i == j) ≡ false → BackedFor j s)
    → BackedFor j (drop_orphan_codes i s)
unfolding drop_orphan_codes
drop_orphan_codes-Backed i j s h = elim (Bool-cases (i == j)) [
  | inl e ↦
      let same : i ≡ j = (==_iff i j).0 e in rw same (ground (arith, any-without_codes j j s.codes))
  | inr n ↦ let k = h n in ground (arith, n, k, any-without_codes i j s.codes)
]

pub put_totp-Backed :
    (t : TotpRow) (hashes : Option (List String)) (s : FactorStore)
    → Backed s
    → Backed (put_totp t hashes s).1
unfolding put_totp
put_totp-Backed t hashes s h j =
    if-keeps (λ (x : Answer (Unit {0}) × FactorStore). BackedFor j x.1) (has_account t.user_id s)
      (elim (Bool-cases (t.user_id == j)) [
        | inl e ↦ λ k. rw (any-upsert_totp j t s.totp, e) refl
        | inr n ↦
            rw (any-upsert_totp j t s.totp, n, any-replace_given t.user_id j hashes s.codes n) (h j)
      ])
      (h j)

pub add_passkey-Backed :
    (i : ℕ) (credential name blob : String) (hashes : Option (List String)) (s : FactorStore)
    → Backed s
    → Backed (add_passkey i credential name blob hashes s).1
unfolding add_passkey
add_passkey-Backed i credential name blob hashes s h j =
    let more =
      any-append (owns_passkey j) s.passkeys (new_passkey i credential name blob s.passkeys ∷ []) in
    elim (Bool-cases (i == j)) [
      | inl e ↦ ground (arith, h j, e, more)
      | inr n ↦ ground (arith, h j, n, more, any-replace_given i j hashes s.codes n)
    ]

pub delete_totp-Backed : (i : ℕ) (s : FactorStore) → Backed s → Backed (delete_totp i s).1
unfolding delete_totp
delete_totp-Backed i s h j =
    if-keeps (λ (x : Answer (Unit {0}) × FactorStore). BackedFor j x.1) (has_totp i s)
      (drop_orphan_codes-Backed i j _ (λ n.
        rw (any-select (owns_totp j) (owns_totp i) s.totp (λ r e. ground (arith, n, e))) (h j)))
      (h j)

pub delete_passkey-Backed :
    (i id : ℕ) (s : FactorStore) → Backed s → Backed (delete_passkey i id s).1
unfolding delete_passkey
delete_passkey-Backed i id s h j =
    if-keeps (λ (x : Answer (Unit {0}) × FactorStore). BackedFor j x.1)
      (any (is_passkey i id) s.passkeys)
      (drop_orphan_codes-Backed i j _ (λ n.
        rw (any-select (owns_passkey j) (is_passkey i id) s.passkeys (λ r e. ground (arith, n, e)))
          (h j)))
      (h j)

pub reset_user_mfa-Backed : (i : ℕ) (s : FactorStore) → Backed s → Backed (reset_user_mfa i s).1
unfolding reset_user_mfa
reset_user_mfa-Backed i s h j =
    if-keeps (λ (x : Answer (Unit {0}) × FactorStore). BackedFor j x.1) (has_account i s)
      (elim (Bool-cases (i == j)) [
        | inl e ↦ λ k. absurd (ground (arith, k, e, any-without_codes i j s.codes))
        | inr n ↦
            rw
              (
                any-without_codes i j s.codes,
                n,
                any-select (owns_totp j) (owns_totp i) s.totp (λ r e. ground (arith, n, e)),
                any-select (owns_passkey j) (owns_passkey i) s.passkeys
                    (λ r e. ground (arith, n, e)),
              )
              (h j)
      ])
      (h j)

pub replace_recovery_codes-Backed :
    (i : ℕ) (hashes : List String) (s : FactorStore)
    → has_factor i s ≡ true
    → Backed s
    → Backed (replace_recovery_codes i hashes s).1
unfolding replace_recovery_codes
replace_recovery_codes-Backed i hashes s f h j =
    if-keeps (λ (x : Answer (Unit {0}) × FactorStore). BackedFor j x.1)
      (has_account i s || length hashes == 0)
      (elim (Bool-cases (i == j)) [
        | inl e ↦ let same : i ≡ j = (==_iff i j).0 e in λ k. rw (← same) f
        | inr n ↦ rw (any-replace_codes i j hashes s.codes n) (h j)
      ])
      (h j)
