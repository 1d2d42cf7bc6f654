-- ===== src/Factors.antt =====
-- Second factors and recovery codes (internal/store/sqlite/mfa.go) over the tables user_totp,
-- webauthn_credential and recovery_code of migrations/0008_mfa.sql. Each operation is one transaction
-- of a single writer. A blob is the text of its bytes, and times of columns count seconds.
pub mod Enrolment
pub mod Rows
pub mod Requests
pub mod Backed
pub mod Served
pub mod Required
pub mod Spending
pub mod Races
use duskrun.Base.{
  ℕ, suc, max, ℤ, ltb_ℤ, String, Bool, true, false, ◌&&◌, ◌||◌, not, Option, none, some, List, [],
  ◌∷◌, ◌++◌, ◌==◌, str_eq, if◌then◌else◌, any, select, length,
}
use duskrun.Users.{Accounts, Account, get_user, drop_sessions}

pub record TotpRow : Type 0 where
  pub user_id : ℕ
  pub secret : String
  pub key_id : String
  pub last_step : ℤ

pub record PasskeyRow : Type 0 where
  pub id : ℕ
  pub user_id : ℕ
  pub credential_id : String
  pub name : String
  pub blob : String
  pub last_used_at : Option ℕ

pub record CodeRow : Type 0 where
  pub id : ℕ
  pub user_id : ℕ
  pub code_hash : String
  pub used_at : Option ℕ

pub record FactorStore : Type 0 where
  pub accounts : Accounts
  pub totp : List TotpRow
  pub passkeys : List PasskeyRow
  pub codes : List CodeRow

pub data FactorError : Type 0 where
  not_found duplicate_passkey no_owner : FactorError

pub data Answer {ℓ} (A : Type ℓ) : Type ℓ where
  done : A → Answer A
  refused : FactorError → Answer A

abbrev pub has_account : ℕ → FactorStore → Bool
has_account i s = elim (get_user i s.accounts.users) [ none ↦ false | some u ↦ true ]

abbrev pub owns_totp : ℕ → TotpRow → Bool
owns_totp i r = r.user_id == i

abbrev pub owns_passkey : ℕ → PasskeyRow → Bool
owns_passkey i r = r.user_id == i

abbrev pub owns_code : ℕ → CodeRow → Bool
owns_code i r = r.user_id == i

abbrev pub has_totp : ℕ → FactorStore → Bool
has_totp i s = any (owns_totp i) s.totp

abbrev pub has_passkey : ℕ → FactorStore → Bool
has_passkey i s = any (owns_passkey i) s.passkeys

-- `GetTOTP`, of the table
abbrev pub get_totp : ℕ → List TotpRow → Option TotpRow
get_totp i [] = none
get_totp i (r ∷ rs) = if r.user_id == i then some r else get_totp i rs

-- `ListWebAuthnCredentials`
abbrev pub list_passkeys : ℕ → FactorStore → List PasskeyRow
list_passkeys i s = select (owns_passkey i) s.passkeys

abbrev max_passkey : List PasskeyRow → ℕ
max_passkey [] = 0
max_passkey (r ∷ rs) = max r.id (max_passkey rs)

abbrev max_code : List CodeRow → ℕ
max_code [] = 0
max_code (r ∷ rs) = max r.id (max_code rs)

abbrev pub without_codes : ℕ → List CodeRow → List CodeRow
without_codes i = select (λ r. not (r.user_id == i))

abbrev new_code : ℕ → String → List CodeRow → CodeRow
new_code i hash codes = record {
  id = suc (max_code codes);
  user_id = i;
  code_hash = hash;
  used_at = none;
}

-- The loop of `replaceRecoveryCodes`: one INSERT for each hash.
unfoldable pub insert_codes : ℕ → List String → List CodeRow → List CodeRow
insert_codes i [] codes = codes
insert_codes i (h ∷ hs) codes = insert_codes i hs (codes ++ new_code i h codes ∷ [])

-- `replaceRecoveryCodes`
unfoldable pub replace_codes : ℕ → List String → List CodeRow → List CodeRow
unfolding insert_codes
replace_codes i hashes codes = insert_codes i hashes (without_codes i codes)

-- The replacement that `PutTOTP` and `AddWebAuthnCredential` make where hashes are given.
abbrev pub replace_given : ℕ → Option (List String) → List CodeRow → List CodeRow
replace_given i none codes = codes
replace_given i (some hashes) codes = replace_codes i hashes codes

-- INSERT … ON CONFLICT (user_id) DO UPDATE
abbrev pub upsert_totp : TotpRow → List TotpRow → List TotpRow
upsert_totp t [] = t ∷ []
upsert_totp t (r ∷ rs) = if r.user_id == t.user_id then t ∷ rs else r ∷ upsert_totp t rs

-- `PutTOTP`; the row's owner has to exist.
unfoldable pub put_totp :
    TotpRow → Option (List String) → FactorStore → Answer (Unit {0}) × FactorStore
unfolding replace_codes
put_totp t hashes s =
    if has_account t.user_id s
    then (
      done tt,
      record s { totp = upsert_totp t s.totp; codes = replace_given t.user_id hashes s.codes },
    )
    else (refused no_owner, s)

-- UPDATE user_totp … WHERE user_id = ? AND last_step < ?
abbrev advance_rows : ℕ → ℤ → List TotpRow → List TotpRow
advance_rows i step [] = []
advance_rows i step (r ∷ rs) =
    (if r.user_id == i && ltb_ℤ r.last_step step then record r { last_step = step } else r)
    ∷ advance_rows i step rs

abbrev is_behind : ℕ → ℤ → TotpRow → Bool
is_behind i step r = r.user_id == i && ltb_ℤ r.last_step step

-- `AdvanceTOTPStep`
unfoldable pub advance_step : ℕ → ℤ → FactorStore → Bool × FactorStore
advance_step i step s =
    (length (select (is_behind i step) s.totp) == 1, record s { totp = advance_rows i step s.totp })

-- `dropOrphanRecoveryCodes`
unfoldable pub drop_orphan_codes : ℕ → FactorStore → FactorStore
drop_orphan_codes i s =
    if not (has_totp i s) && not (has_passkey i s)
    then record s { codes = without_codes i s.codes }
    else s

-- `DeleteTOTP`
unfoldable pub delete_totp : ℕ → FactorStore → Answer (Unit {0}) × FactorStore
unfolding drop_orphan_codes
delete_totp i s =
    if has_totp i s
    then (
      done tt,
      drop_orphan_codes i (record s { totp = select (λ r. not (r.user_id == i)) s.totp }),
    )
    else (refused not_found, s)

abbrev has_credential : String → List PasskeyRow → Bool
has_credential c = any (λ r. str_eq r.credential_id c)

abbrev pub new_passkey : ℕ → String → String → String → List PasskeyRow → PasskeyRow
new_passkey i credential name blob rows = record {
  id = suc (max_passkey rows);
  user_id = i;
  credential_id = credential;
  name = name;
  blob = blob;
  last_used_at = none;
}

-- `AddWebAuthnCredential`; the credential's id is unique and the owner has to exist.
unfoldable pub add_passkey :
    ℕ → String → String → String → Option (List String) → FactorStore → Answer ℕ × FactorStore
unfolding replace_codes
add_passkey i credential name blob hashes s =
    if has_credential credential s.passkeys
    then (refused duplicate_passkey, s)
    else if has_account i s
    then (
      done (suc (max_passkey s.passkeys)),
      record s {
        passkeys = s.passkeys ++ new_passkey i credential name blob s.passkeys ∷ [];
        codes = replace_given i hashes s.codes;
      },
    )
    else (refused no_owner, s)

abbrev touch_row : ℕ → String → ℕ → PasskeyRow → PasskeyRow
touch_row id blob at r = if r.id == id then record r { blob = blob; last_used_at = some at } else r

abbrev touch_rows : ℕ → String → ℕ → List PasskeyRow → List PasskeyRow
touch_rows id blob at [] = []
touch_rows id blob at (r ∷ rs) = touch_row id blob at r ∷ touch_rows id blob at rs

-- `TouchWebAuthnCredential`
unfoldable pub touch_passkey : ℕ → String → ℕ → FactorStore → FactorStore
touch_passkey id blob at s = record s { passkeys = touch_rows id blob at s.passkeys }

abbrev pub is_passkey : ℕ → ℕ → PasskeyRow → Bool
is_passkey i id r = r.id == id && r.user_id == i

-- `DeleteWebAuthnCredential`
unfoldable pub delete_passkey : ℕ → ℕ → FactorStore → Answer (Unit {0}) × FactorStore
unfolding drop_orphan_codes
delete_passkey i id s =
    if any (is_passkey i id) s.passkeys
    then (
      done tt,
      drop_orphan_codes i
          (record s { passkeys = select (λ r. not (is_passkey i id r)) s.passkeys }),
    )
    else (refused not_found, s)

-- `ReplaceRecoveryCodes`
unfoldable pub replace_recovery_codes :
    ℕ → List String → FactorStore → Answer (Unit {0}) × FactorStore
unfolding replace_codes
replace_recovery_codes i hashes s =
    if has_account i s || length hashes == 0
    then (done tt, record s { codes = replace_codes i hashes s.codes })
    else (refused no_owner, s)

abbrev pub is_unused : Option ℕ → Bool
is_unused none = true
is_unused (some at) = false

-- `CountRecoveryCodes`
unfoldable pub count_recovery_codes : ℕ → List CodeRow → ℕ
count_recovery_codes i codes = length (select (λ r. r.user_id == i && is_unused r.used_at) codes)

abbrev pub matches : ℕ → String → CodeRow → Bool
matches i hash r = r.user_id == i && str_eq r.code_hash hash && is_unused r.used_at

-- SELECT id FROM recovery_code WHERE … LIMIT 1
abbrev pub unused_code : ℕ → String → List CodeRow → Option ℕ
unused_code i hash [] = none
unused_code i hash (r ∷ rs) = if matches i hash r then some r.id else unused_code i hash rs

abbrev pub spend : ℕ → ℕ → List CodeRow → List CodeRow
spend id at [] = []
spend id at (r ∷ rs) = (if r.id == id then record r { used_at = some at } else r) ∷ spend id at rs

-- `UseRecoveryCode`, of the table; the id is a primary key.
unfoldable pub use_recovery_code : ℕ → String → ℕ → List CodeRow → Bool × List CodeRow
use_recovery_code i hash at codes = elim (unused_code i hash codes) [
  | none ↦ (false, codes)
  | some id ↦ (true, spend id at codes)
]

-- `ResetUserMFA`
unfoldable pub reset_user_mfa : ℕ → FactorStore → Answer (Unit {0}) × FactorStore
reset_user_mfa i s =
    if has_account i s
    then (
      done tt,
      record s {
        totp = select (λ r. not (r.user_id == i)) s.totp;
        passkeys = select (λ r. not (r.user_id == i)) s.passkeys;
        codes = without_codes i s.codes;
        accounts = record s.accounts {
          sessions = drop_sessions (λ r. r.user_id == i) s.accounts.sessions;
        };
      },
    )
    else (refused not_found, s)
