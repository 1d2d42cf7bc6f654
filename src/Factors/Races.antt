-- ===== src/Factors/Races.antt =====
-- Two requests that were authenticated before either of them changed a factor
-- (internal/api/handlers_mfa.go).
use duskrun.Base.{
  ℕ, ◌≡◌, refl, Bool, true, false, not, Option, none, List, [], ◌∷◌, any, select, length, arith,
  pos, ltb_ℤ,
}
use duskrun.Access.{MfaPolicy, User}
use duskrun.Factors.Required.{has_factor-drop_orphan_codes}
use duskrun.Users.{Account}
use duskrun.Factors.{
  FactorStore, PasskeyRow, list_passkeys, owns_totp, owns_passkey, is_passkey, has_totp,
  delete_totp, delete_passkey, drop_orphan_codes,
}
use duskrun.Factors.Backed.{has_factor}
use duskrun.Factors.Served.{any-length-select}
use duskrun.Factors.Enrolment.{
  Password, confirm_password, last_factor_guard, remaining_without, totp_disable, passkey_delete,
}
use duskrun.Factors.Requests.{loaded}

any-select_none {ℓ} :
    {A : Type ℓ} (p q : A → Bool) (xs : List A) → any p xs ≡ false → any p (select q xs) ≡ false
any-select_none p q [] h = refl
any-select_none p q (x ∷ xs) h = ground (arith, h, any-select_none p q xs)

any-is_passkey :
    (i id : ℕ) (rows : List PasskeyRow)
    → any (owns_passkey i) rows ≡ false
    → any (is_passkey i id) rows ≡ false
any-is_passkey i id [] h = refl
any-is_passkey i id (r ∷ rows) h = ground (arith, h, any-is_passkey i id rows)

-- Without its only passkey a user has none.
only_passkey :
    (i id : ℕ) (rows : List PasskeyRow)
    → length (select (owns_passkey i) rows) ≡ 1
    → any (is_passkey i id) rows ≡ true
    → any (owns_passkey i) (select (λ r. not (is_passkey i id r)) rows) ≡ false
only_passkey i id [] n h = ground (arith, h)
only_passkey i id (r ∷ rows) n h = ground (
  arith,
  n,
  h,
  only_passkey i id rows,
  any-length-select (owns_passkey i) rows,
  any-is_passkey i id rows,
  any-select_none (owns_passkey i) (λ x. not (is_passkey i id x)) rows,
)

any-select-not {ℓ} :
    {A : Type ℓ} (p : A → Bool) (xs : List A) → any p (select (λ x. not (p x)) xs) ≡ false
any-select-not p [] = refl
any-select-not p (x ∷ xs) = ground (arith, any-select-not p xs)

disabled :
    (a : Account) (policy : Option MfaPolicy) (p : Password) (s : FactorStore)
    → confirm_password p ≡ none
    → has_totp a.id s ≡ true
    → length (list_passkeys a.id s) ≡ 1
    → (totp_disable (loaded a s) policy p s).1
      ≡ record s { totp = select (λ r. not (owns_totp a.id r)) s.totp }
unfolding totp_disable last_factor_guard delete_totp drop_orphan_codes
disabled a policy p s ok t n =
    rw (t, n, ok) (ground (arith, any-length-select (owns_passkey a.id) s.passkeys, n))

deleted :
    (u : User) (id : ℕ) (policy : Option MfaPolicy) (p : Password) (s : FactorStore)
    → confirm_password p ≡ none
    → ltb_ℤ (pos 0) (remaining_without u) ≡ true
    → any (is_passkey u.id id) s.passkeys ≡ true
    → (passkey_delete u id policy p s).1
      ≡ drop_orphan_codes u.id
          (record s { passkeys = select (λ r. not (is_passkey u.id id r)) s.passkeys })
unfolding passkey_delete last_factor_guard delete_passkey
deleted u id policy p s ok r k = rw (r, ok, k) refl

-- The guards read the account as it was loaded: two requests of a user with the authenticator app and
-- one passkey, both authenticated before either is handled and both with the right password, switch
-- off the app and delete the passkey one after the other, so that no second factor is left, whatever
-- the policy.
pub stale_requests :
    (a : Account) (id : ℕ) (policy : Option MfaPolicy) (p : Password) (s : FactorStore)
    → confirm_password p ≡ none
    → has_totp a.id s ≡ true
    → length (list_passkeys a.id s) ≡ 1
    → any (is_passkey a.id id) s.passkeys ≡ true
    → let u = loaded a s in
      has_factor a.id (passkey_delete u id policy p (totp_disable u policy p s).1).1 ≡ false
stale_requests a id policy p s ok t n k =
    let s' = record s { totp = select (λ r. not (owns_totp a.id r)) s.totp } in
    let s'' = record s' { passkeys = select (λ r. not (is_passkey a.id id r)) s.passkeys } in
    let off = disabled a policy p s ok t n in
    let gone = deleted (loaded a s) id policy p s' ok (rw (t, n) refl) k in
    rw (off, gone, has_factor-drop_orphan_codes a.id a.id s'')
      (ground (arith, only_passkey a.id id s.passkeys n k, any-select-not (owns_totp a.id) s.totp))
