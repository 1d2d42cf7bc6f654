-- ===== src/Factors/Required.antt =====
-- The policy that requires a second factor (lastFactorGuard of internal/api/handlers_mfa.go).
use duskrun.Base.{
  ℕ, suc, ◌≤◌, ◌≡◌, refl, true, false, ◌||◌, not, none, some, List, [], ◌∷◌, select, length, ltb,
  ltb_ℤ, ℤ, pos, arith, Bool-cases, inl, inr, if-keeps, ◌==◌, ==_iff, map, contains, Distinct,
}
use duskrun.Model.{Role}
use duskrun.Access.{MfaPolicy, policy_covers}
use duskrun.Users.{Account}
use duskrun.Factors.{
  FactorStore, PasskeyRow, delete_totp, delete_passkey, list_passkeys, owns_passkey, is_passkey,
  has_totp, has_passkey, drop_orphan_codes,
}
use duskrun.Factors.Backed.{has_factor}
use duskrun.Factors.Served.{answered-keeps, unless-keeps, any-length-select}
use duskrun.Factors.Enrolment.{
  Reply, Password, confirm_password, last_factor_guard, remaining_without, totp_disable,
  passkey_delete,
}
use duskrun.Factors.Requests.{loaded}

abbrev pub passkey_ids : List PasskeyRow → List ℕ
passkey_ids = map (λ r. r.id)

select-no_id :
    (i id : ℕ) (rows : List PasskeyRow)
    → contains (passkey_ids rows) id ≡ false
    → length (select (owns_passkey i) (select (λ r. not (is_passkey i id r)) rows))
      ≡ length (select (owns_passkey i) rows)
select-no_id i id [] h = refl
select-no_id i id (r ∷ rows) h = ground (arith, h, select-no_id i id rows)

-- The deletion of a passkey takes one row at most.
length-delete_passkey :
    (i id : ℕ) (rows : List PasskeyRow)
    → Distinct (passkey_ids rows)
    → length (select (owns_passkey i) rows)
      ≤ suc (length (select (owns_passkey i) (select (λ r. not (is_passkey i id r)) rows)))
length-delete_passkey i id [] d = omega arith
length-delete_passkey i id (r ∷ rows) d =
    ground (arith, d, length-delete_passkey i id rows, select-no_id i id rows, ==_iff r.id id)

pub has_factor-drop_orphan_codes :
    (i j : ℕ) (s : FactorStore) → has_factor j (drop_orphan_codes i s) ≡ has_factor j s
unfolding drop_orphan_codes
has_factor-drop_orphan_codes i j s = ground arith

delete_totp-has_passkey :
    (i : ℕ) (s : FactorStore) → has_passkey i s ≡ true → has_factor i (delete_totp i s).1 ≡ true
unfolding delete_totp
delete_totp-has_passkey i s h = ground (
  arith,
  h,
  has_factor-drop_orphan_codes i i (record s { totp = select (λ r. not (r.user_id == i)) s.totp }),
)

-- What the guard lets through where the policy covers the role.
guard-covers :
    (policy : MfaPolicy) (role : Role) (remaining : ℤ)
    → policy_covers policy role ≡ true
    → ltb_ℤ (pos 0) remaining ≡ false
    → last_factor_guard (some policy) role remaining ≡ some Reply.conflict
unfolding last_factor_guard
guard-covers policy role remaining c r = rw (r, c) refl

totp_disable-has_factor :
    (a : Account) (policy : MfaPolicy) (p : Password) (s : FactorStore)
    → policy_covers policy a.role ≡ true
    → has_factor a.id s ≡ true
    → has_factor a.id (totp_disable (loaded a s) (some policy) p s).1 ≡ true
unfolding totp_disable
totp_disable-has_factor a policy p s c h =
    if-keeps (λ (x : Reply × FactorStore). Holds x.1) (not (has_totp a.id s)) h
      (elim (Bool-cases (ltb 0 (length (list_passkeys a.id s)))) [
        | inl e ↦ unless-keeps Holds _ _ s h (
            unless-keeps Holds (confirm_password p) _ s h (
              answered-keeps Holds none _ (
                delete_totp-has_passkey a.id s
                  (ground (arith, e, any-length-select (owns_passkey a.id) s.passkeys)))))
        | inr e ↦
            rw
              (guard-covers policy a.role (pos (length (list_passkeys a.id s))) c
                (ground (arith, e)))
              h
      ])
  where
    Holds : FactorStore → Type 0
    Holds x = has_factor a.id x ≡ true

delete_passkey-has_factor :
    (i id : ℕ) (s : FactorStore)
    → Distinct (passkey_ids s.passkeys)
    → (has_totp i s || ltb 1 (length (list_passkeys i s))) ≡ true
    → has_factor i (delete_passkey i id s).1 ≡ true
unfolding delete_passkey
delete_passkey-has_factor i id s d h =
    let rest = select (λ r. not (is_passkey i id r)) s.passkeys in
    ground (
      arith,
      h,
      has_factor-drop_orphan_codes i i (record s { passkeys = rest }),
      length-delete_passkey i id s.passkeys d,
      any-length-select (owns_passkey i) rest,
      any-length-select (owns_passkey i) s.passkeys,
    )

passkey_delete-has_factor :
    (a : Account) (id : ℕ) (policy : MfaPolicy) (p : Password) (s : FactorStore)
    → Distinct (passkey_ids s.passkeys)
    → policy_covers policy a.role ≡ true
    → has_factor a.id s ≡ true
    → has_factor a.id (passkey_delete (loaded a s) id (some policy) p s).1 ≡ true
unfolding passkey_delete
passkey_delete-has_factor a id policy p s d c h =
    let left = remaining_without (loaded a s) in
    elim (Bool-cases (ltb_ℤ (pos 0) left)) [
      | inl e ↦ unless-keeps Holds _ _ s h (
          unless-keeps Holds (confirm_password p) _ s h (
            answered-keeps Holds none _
              (delete_passkey-has_factor a.id id s d (ground (arith, e)))))
      | inr e ↦ rw (guard-covers policy a.role left c e) h
    ]
  where
    Holds : FactorStore → Type 0
    Holds x = has_factor a.id x ≡ true

-- The policy is enforced request by request: a user of a role that it covers, who has a second factor
-- when a request comes in, still has one after it, whether it switches off the authenticator app or
-- deletes a passkey, and whatever its password is. The passkeys have distinct ids.
pub required_factor_kept :
    (a : Account) (id : ℕ) (policy : MfaPolicy) (p : Password) (s : FactorStore)
    → Distinct (passkey_ids s.passkeys)
    → policy_covers policy a.role ≡ true
    → has_factor a.id s ≡ true
    → (has_factor a.id (totp_disable (loaded a s) (some policy) p s).1 ≡ true)
      × (has_factor a.id (passkey_delete (loaded a s) id (some policy) p s).1 ≡ true)
required_factor_kept a id policy p s d c h =
    (totp_disable-has_factor a policy p s c h, passkey_delete-has_factor a id policy p s d c h)
