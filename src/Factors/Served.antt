-- ===== src/Factors/Served.antt =====
-- What the requests about second factors keep (internal/api/handlers_mfa.go): a request that is refused
-- changes nothing, and a sequence of requests leaves no recovery code without a factor.
use duskrun.Base.{
  ℕ, ◌≡◌, refl, String, Bool, true, false, not, Option, none, some, List, [], ◌∷◌, any, select,
  length, ltb, ℤ, pos, arith, Bool-cases, inl, inr, if-keeps, ◌==◌,
}
use duskrun.Access.{User, MfaPolicy, mfa_enabled}
use duskrun.Users.{Account, get_user}
use duskrun.Factors.{
  FactorStore, Answer, done, refused, not_found, duplicate_passkey, no_owner, put_totp,
  owns_passkey,
}
use duskrun.Factors.Rows.{any-use_recovery_code}
use duskrun.Factors.Backed.{
  has_factor, Backed, put_totp-Backed, add_passkey-Backed, delete_totp-Backed,
  delete_passkey-Backed, reset_user_mfa-Backed, replace_recovery_codes-Backed,
}
use duskrun.Factors.Enrolment.{
  Reply, Password, Registration, malformed, load_failed, unverified, unencoded, registered, CodeSet,
  unless, answered, register_answered, first_factor_codes, confirm_password, last_factor_guard,
  store_totp, totp_confirm, totp_disable, store_passkey, passkey_register, passkey_delete,
  regenerate, regenerate_recovery_codes, reset_by_admin,
}
use duskrun.Factors.Requests.{
  Fresh, Request, confirm_totp, disable_totp, register_passkey, remove_passkey, new_codes, redeem,
  reset_other, loaded, handle, serve_found, serve_all,
}

module _ (P : FactorStore → Type 0) where
  pub answered-keeps :
      (codes : Option (List String)) (x : Answer (Unit {0}) × FactorStore)
      → P x.1
      → P (answered codes x).1
  answered-keeps codes (done tt, s) h = h
  answered-keeps codes (refused e, s) h = h

  register_answered-keeps :
      (codes : Option (List String)) (x : Answer ℕ × FactorStore)
      → P x.1
      → P (register_answered codes x).1
  register_answered-keeps codes (done id, s) h = h
  register_answered-keeps codes (refused duplicate_passkey, s) h = h
  register_answered-keeps codes (refused not_found, s) h = h
  register_answered-keeps codes (refused no_owner, s) h = h

  pub unless-keeps :
      (r : Option Reply) (go : Reply × FactorStore) (s : FactorStore)
      → P s
      → P go.1
      → P (unless r go s).1
  unless-keeps none go s h k = k
  unless-keeps (some r) go s h k = h

store_totp-Backed :
    (u : User) (step : ℤ) (sealed : Option (String × String)) (codes : Option CodeSet)
    (s : FactorStore)
    → Backed s
    → Backed (store_totp u step sealed codes s).1
unfolding store_totp
store_totp-Backed u step none codes s h = h
store_totp-Backed u step (some sealed) none s h = h
store_totp-Backed u step (some (cipher, key)) (some (codes, hashes)) s h =
    answered-keeps Backed codes (put_totp _ hashes s) (put_totp-Backed _ hashes s h)

totp_confirm-Backed :
    (u : User) (pending : Bool) (step : Option ℤ) (sealed : Option (String × String))
    (fresh : Fresh) (s : FactorStore)
    → Backed s
    → Backed (totp_confirm u pending step sealed fresh s).1
unfolding totp_confirm
totp_confirm-Backed u false step sealed fresh s h = h
totp_confirm-Backed u true none sealed fresh s h = h
totp_confirm-Backed u true (some step) sealed fresh s h =
    store_totp-Backed u step sealed (first_factor_codes u fresh) s h

store_passkey-Backed :
    (u : User) (name credential blob : String) (codes : Option CodeSet) (s : FactorStore)
    → Backed s
    → Backed (store_passkey u name credential blob codes s).1
unfolding store_passkey
store_passkey-Backed u name credential blob none s h = h
store_passkey-Backed u name credential blob (some (codes, hashes)) s h =
    register_answered-keeps Backed codes _ (add_passkey-Backed u.id credential name blob hashes s h)

passkey_register-Backed :
    (u : User) (pending : Option String) (reg : Registration) (fresh : Fresh) (s : FactorStore)
    → Backed s
    → Backed (passkey_register u pending reg fresh s).1
unfolding passkey_register
passkey_register-Backed u none reg fresh s h = h
passkey_register-Backed u (some name) malformed fresh s h = h
passkey_register-Backed u (some name) load_failed fresh s h = h
passkey_register-Backed u (some name) unverified fresh s h = h
passkey_register-Backed u (some name) unencoded fresh s h = h
passkey_register-Backed u (some name) (registered credential blob) fresh s h =
    store_passkey-Backed u name credential blob (first_factor_codes u fresh) s h

totp_disable-Backed :
    (u : User) (policy : Option MfaPolicy) (p : Password) (s : FactorStore)
    → Backed s
    → Backed (totp_disable u policy p s).1
unfolding totp_disable
totp_disable-Backed u policy p s h =
    if-keeps (λ (x : Reply × FactorStore). Backed x.1) (not u.totp_enabled) h
      (unless-keeps Backed (last_factor_guard policy u.role (pos u.passkeys)) _ s h (
        unless-keeps Backed (confirm_password p) _ s h
          (answered-keeps Backed none _ (delete_totp-Backed u.id s h))))

passkey_delete-Backed :
    (u : User) (id : ℕ) (policy : Option MfaPolicy) (p : Password) (s : FactorStore)
    → Backed s
    → Backed (passkey_delete u id policy p s).1
unfolding passkey_delete
passkey_delete-Backed u id policy p s h =
    unless-keeps Backed (last_factor_guard policy u.role _) _ s h (
      unless-keeps Backed (confirm_password p) _ s h
        (answered-keeps Backed none _ (delete_passkey-Backed u.id id s h)))

regenerate-Backed :
    (u : User) (fresh : Fresh) (s : FactorStore)
    → has_factor u.id s ≡ true
    → Backed s
    → Backed (regenerate u fresh s).1
unfolding regenerate
regenerate-Backed u none s f h = h
regenerate-Backed u (some (codes, hashes)) s f h =
    answered-keeps Backed (some codes) _ (replace_recovery_codes-Backed u.id hashes s f h)

regenerate_recovery_codes-Backed :
    (u : User) (p : Password) (fresh : Fresh) (s : FactorStore)
    → (mfa_enabled u ≡ true → has_factor u.id s ≡ true)
    → Backed s
    → Backed (regenerate_recovery_codes u p fresh s).1
unfolding regenerate_recovery_codes
regenerate_recovery_codes-Backed u p fresh s f h = elim (Bool-cases (mfa_enabled u)) [
  | inr e ↦ rw e h
  | inl e ↦
      rw e (unless-keeps Backed (confirm_password p) _ s h (regenerate-Backed u fresh s (f e) h))
]

reset_by_admin-Backed :
    (caller i : ℕ) (s : FactorStore) → Backed s → Backed (reset_by_admin (some caller) i s).1
unfolding reset_by_admin
reset_by_admin-Backed caller i s h =
    if-keeps (λ (x : Reply × FactorStore). Backed x.1) (caller == i) h
      (answered-keeps Backed none _ (reset_user_mfa-Backed i s h))

-- A request of a user whose factors, as they were loaded, are there.
handle-Backed :
    (u : User) (r : Request) (s : FactorStore)
    → (mfa_enabled u ≡ true → has_factor u.id s ≡ true)
    → Backed s
    → Backed (handle u r s)
unfolding handle
handle-Backed u (confirm_totp pending step sealed fresh) s f h =
    totp_confirm-Backed u pending step sealed fresh s h
handle-Backed u (disable_totp policy p) s f h = totp_disable-Backed u policy p s h
handle-Backed u (register_passkey pending reg fresh) s f h =
    passkey_register-Backed u pending reg fresh s h
handle-Backed u (remove_passkey id policy p) s f h = passkey_delete-Backed u id policy p s h
handle-Backed u (new_codes p fresh) s f h = regenerate_recovery_codes-Backed u p fresh s f h
handle-Backed u (redeem hash at) s f h =
    λ j. rw (any-use_recovery_code u.id j hash at s.codes) (h j)
handle-Backed u (reset_other i) s f h = reset_by_admin-Backed u.id i s h

pub any-length-select {ℓ} :
    {A : Type ℓ} (p : A → Bool) (xs : List A) → ltb 0 (length (select p xs)) ≡ any p xs
any-length-select p [] = refl
any-length-select p (x ∷ xs) = ground (arith, any-length-select p xs)

-- A loaded account counts the factors that are there.
pub mfa_enabled-loaded :
    (a : Account) (s : FactorStore) → mfa_enabled (loaded a s) ≡ has_factor a.id s
mfa_enabled-loaded a s = ground (arith, any-length-select (owns_passkey a.id) s.passkeys)

serve_found-Backed :
    (found : Option Account) (r : Request) (s : FactorStore)
    → Backed s
    → Backed (serve_found found r s)
serve_found-Backed none r s h = h
serve_found-Backed (some a) r s h =
    handle-Backed (loaded a s) r s (λ e. ground (arith, e, mfa_enabled-loaded a s)) h

-- No recovery code outlives the last factor: whatever requests users make one after the other, and
-- however passwords, libraries and the policy answer, a user who has a recovery code afterwards has a
-- second factor, if this held before.
pub serve_all-Backed :
    (requests : List (ℕ × Request)) (s : FactorStore) → Backed s → Backed (serve_all requests s)
unfolding serve_all
serve_all-Backed [] s h = h
serve_all-Backed ((i, r) ∷ requests) s h =
    serve_all-Backed requests (serve_found (get_user i s.accounts.users) r s)
      (serve_found-Backed (get_user i s.accounts.users) r s h)
