-- ===== src/Access/SecondFactor.antt =====
-- One-time codes: VerifyTOTP of internal/auth/totp.go, AdvanceTOTPStep of
-- internal/store/sqlite/mfa.go, and verifyLoginTOTP of internal/api/handlers_mfa.go. A code is the
-- list of its bytes once the spaces are taken off, and the generator of the otp library is a parameter.
use duskrun.Base.{
  ℕ, ℤ, pos, ltb_ℤ, ◌+◌, ◌-ℤ◌, ◌/◌, ◌==◌, ◌≡◌, refl, Bool, true, false, ◌&&◌, Option, none, some,
  List, [], ◌∷◌, length, if◌then◌else◌, arith, Bool-cases, Option-cases, inl, inr, subst,
}

abbrev pub Code : Type 0
Code = List ℕ

abbrev pub same_code : Code → Code → Bool
same_code [] [] = true
same_code (x ∷ xs) (y ∷ ys) = x == y && same_code xs ys
same_code _ _ = false

-- The code of a secret at a time step, `none` for an error.
abbrev pub Generator : Type 0
Generator = ℤ → Option Code

-- The loop over the steps: a step that was used is passed over, an error ends the loop.
abbrev pub try_code : ℤ → Code → Option Code → Option ℤ → Option ℤ
try_code step code none rest = none
try_code step code (some want) rest = if same_code want code then some step else rest

unfoldable pub try_steps : Generator → Code → ℤ → List ℤ → Option ℤ
try_steps generate code after [] = none
try_steps generate code after (step ∷ steps) =
    let rest = try_steps generate code after steps in
    if ltb_ℤ after step then try_code step code (generate step) rest else rest

-- The steps of the loop: totpPeriod is 30 and totpSkew is 1. `now` counts seconds.
unfoldable pub steps_at : ℕ → List ℤ
unfolding ◌-ℤ◌
steps_at now =
    let current = now / 30 in (pos current -ℤ pos 1) ∷ pos current ∷ pos (current + 1) ∷ []

unfoldable pub verify_totp : Generator → Code → ℕ → ℤ → Option ℤ
unfolding try_steps steps_at
verify_totp generate code now after =
    if length code == 6 then try_steps generate code after (steps_at now) else none

-- Table user_totp of one user: the newest accepted step.
unfoldable pub advance_totp_step : ℤ → Option ℤ → Bool × Option ℤ
advance_totp_step step none = (false, none)
advance_totp_step step (some last) =
    if ltb_ℤ last step then (true, some step) else (false, some last)

abbrev pub advance_verified : Option ℤ → Option ℤ → Bool × Option ℤ
advance_verified none row = (false, row)
advance_verified (some step) row = advance_totp_step step row

-- A login reads the row at one moment and advances it at another, with `row` as it is by then.
unfoldable pub finish_login : Generator → Code → ℕ → Option ℤ → Option ℤ → Bool × Option ℤ
unfolding verify_totp advance_totp_step
finish_login generate code now none row = (false, row)
finish_login generate code now (some last) row =
    advance_verified (verify_totp generate code now last) row

-- What an accepted code is: the code of a step at most one away from now that is after the newest
-- accepted one.
pub record Accepted (generate : Generator) (code : Code) (after step : ℤ) : Type 0 where
  pub fresh : ltb_ℤ after step ≡ true
  pub generated : (want : Code) × (generate step ≡ some want) × (same_code want code ≡ true)

try_steps_sound :
    (generate : Generator) (code : Code) (after step : ℤ) (steps : List ℤ)
    → try_steps generate code after steps ≡ some step
    → Accepted generate code after step
unfolding try_steps
try_steps_sound generate code after step [] h = ground arith
try_steps_sound generate code after step (s ∷ steps) h = elim (Bool-cases (ltb_ℤ after s)) [
  | inr e ↦ try_steps_sound generate code after step steps (simp e at h)
  | inl e ↦ elim (Option-cases (generate s)) [
    | inl f ↦ absurd (ground (arith, e, f, h))
    | inr (want, f) ↦ elim (Bool-cases (same_code want code)) [
      | inl g ↦
          let here : some s ≡ some step = simp (e, f, g) at h in
          let same : s ≡ step = cc in
          subst (Accepted generate code after) same (record { fresh = e; generated = (want, f, g) })
      | inr g ↦ try_steps_sound generate code after step steps (simp (e, f, g) at h)
    ]
  ]
]

verify_totp_sound :
    (generate : Generator) (code : Code) (now : ℕ) (after step : ℤ)
    → verify_totp generate code now after ≡ some step
    → Accepted generate code after step
unfolding verify_totp
verify_totp_sound generate code now after step h = elim (Bool-cases (length code == 6)) [
  | inl e ↦ try_steps_sound generate code after step (steps_at now) (simp e at h)
  | inr e ↦ absurd (ground (arith, e, h))
]

-- A step that was verified and advanced the row.
record Advanced (verified : Option ℤ) (last : ℤ) (row : Option ℤ) : Type 0 where
  step : ℤ
  verifies : verified ≡ some step
  newer : ltb_ℤ last step ≡ true
  stored : row ≡ some step

advance_verified-Advanced :
    (verified : Option ℤ) (last : ℤ)
    → (advance_verified verified (some last)).0 ≡ true
    → Advanced verified last (advance_verified verified (some last)).1
unfolding advance_totp_step
advance_verified-Advanced none last h = absurd (ground (arith, h))
advance_verified-Advanced (some step) last h = elim (Bool-cases (ltb_ℤ last step)) [
  | inl e ↦ record { step = step; verifies = refl; newer = e; stored = rw e refl }
  | inr e ↦ absurd (ground (arith, e, h))
]

ltb_ℤ_irrefl : (z : ℤ) → ltb_ℤ z z ≡ false
ltb_ℤ_irrefl z = ground arith

-- A login that is accepted has a code of a step after the one that it read, generated by the user's
-- secret, and leaves the row at this step, which is after the step of the row before.
pub finish_login_sound :
    (generate : Generator) (code : Code) (now : ℕ) (read last : ℤ)
    → (finish_login generate code now (some read) (some last)).0 ≡ true
    → (step : ℤ) × Accepted generate code read step
      × (ltb_ℤ last step ≡ true)
      × ((finish_login generate code now (some read) (some last)).1 ≡ some step)
unfolding finish_login
finish_login_sound generate code now read last h =
    let a = advance_verified-Advanced (verify_totp generate code now read) last h in
    (a.step, verify_totp_sound generate code now read a.step a.verifies, a.newer, a.stored)

-- A code is good for one login: of two logins whose codes are those of one step, whatever each of them
-- read and however their statements interleave, the one that comes second is refused.
pub finish_login-finish_login :
    (generate : Generator) (code code' : Code) (now now' : ℕ) (read read' last : ℤ)
    → verify_totp generate code now read ≡ verify_totp generate code' now' read'
    → let (accepted, row) = finish_login generate code now (some read) (some last) in
      accepted ≡ true → (finish_login generate code' now' (some read') row).0 ≡ false
unfolding finish_login advance_totp_step
finish_login-finish_login generate code code' now now' read read' last e h =
    let a = advance_verified-Advanced (verify_totp generate code now read) last h in
    rw (a.stored, ← e, a.verifies, ltb_ℤ_irrefl a.step) refl
