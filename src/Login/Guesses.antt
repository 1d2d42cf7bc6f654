-- ===== src/Login/Guesses.antt =====
-- A challenge allows five wrong answers (loginMFA of internal/api/handlers_mfa.go).
use duskrun.Base.{
  ℕ, ◌+◌, ◌≤◌, ◌≡◌, refl, ap, sym, ◌∙◌, String, Bool, true, false, ◌&&◌, ◌||◌, not, Option, none,
  some, ltb, arith, Bool-cases, inl, inr, if-keeps, ℤ, subst,
}
use duskrun.Access.{User}
use duskrun.Access.Pending.{Entry, Entries, live, updated, update, take_entry}
use duskrun.Access.SecondFactor.{Generator, Code}
use duskrun.Factors.{TotpRow, PasskeyRow, get_totp, list_passkeys}
use duskrun.Factors.Requests.{loaded}
use duskrun.Login.{
  Challenge, LoginState, LoginReply, LoginAnswers, has_token, issue_with, issue_session,
}
use duskrun.Login.SecondStep.{
  Assertion, unparsed, undecoded, invalid, asserted, Method, by_totp, by_recovery, by_passkey,
  by_other, FactorAnswers, Admission, turned_away, let_in, Verdict, verify_step, verify_opened,
  verify_row, verify_login_totp, find_passkey, touched, passkey_found, verify_assertion,
  verify_session, session_in, without_session, verify_login_passkey, verify_recovery, verify_method,
  count_fail, issue_taken, finish_second, finish_verdict, after_admission, admit, login_mfa,
}
use duskrun.Login.Budget.{
  left_of, budget, wrong, left-update, left-live, left-count_fail, Alive, Admits, admit-Admits,
}

verify_step-challenges :
    (i : ℕ) (st : LoginState) (step : Option ℤ)
    → (verify_step i st step).state.challenges ≡ st.challenges
verify_step-challenges i st none = refl
verify_step-challenges i st (some step) = refl

verify_opened-challenges :
    (i : ℕ) (code : Code) (ans : LoginAnswers) (t : TotpRow) (st : LoginState)
    (generate : Option Generator)
    → (verify_opened i code ans t st generate).state.challenges ≡ st.challenges
verify_opened-challenges i code ans t st none = refl
verify_opened-challenges i code ans t st (some generate) = verify_step-challenges i st _

verify_row-challenges :
    (i : ℕ) (code : Code) (ans : LoginAnswers) (fs : FactorAnswers) (st : LoginState)
    (row : Option TotpRow)
    → (verify_row i code ans fs st row).state.challenges ≡ st.challenges
verify_row-challenges i code ans fs st none = refl
verify_row-challenges i code ans fs st (some t) =
    verify_opened-challenges i code ans t st (fs.opens t)

pub verify_login_totp-challenges :
    (u : User) (code : Code) (ans : LoginAnswers) (fs : FactorAnswers) (st : LoginState)
    → (verify_login_totp u code ans fs st).state.challenges ≡ st.challenges
unfolding verify_login_totp
verify_login_totp-challenges u code ans fs st =
    if-keeps (λ (v : Verdict). v.state.challenges ≡ st.challenges) (not u.totp_enabled) refl
      (verify_row-challenges u.id code ans fs st (get_totp u.id st.store.totp))

pub verify_recovery-challenges :
    (i : ℕ) (hash : String) (ans : LoginAnswers) (fs : FactorAnswers) (st : LoginState)
    → (verify_recovery i hash ans fs st).state.challenges ≡ st.challenges
unfolding verify_recovery
verify_recovery-challenges i hash ans fs st =
    if-keeps (λ (v : Verdict). v.state.challenges ≡ st.challenges) fs.spends refl refl

touched-challenges :
    (at : ℕ) (works : Bool) (r : PasskeyRow) (st : LoginState) (blob : Option String)
    → (touched at works r st blob).state.challenges ≡ st.challenges
touched-challenges at works r st none = refl
touched-challenges at true r st (some blob) = refl
touched-challenges at false r st (some blob) = refl

passkey_found-challenges :
    (at : ℕ) (works : Bool) (blob : Option String) (st : LoginState) (row : Option PasskeyRow)
    → (passkey_found at works blob st row).state.challenges ≡ st.challenges
passkey_found-challenges at works blob st none = refl
passkey_found-challenges at works blob st (some r) = touched-challenges at works r st blob

verify_assertion-challenges :
    (u : User) (ans : LoginAnswers) (fs : FactorAnswers) (st : LoginState) (a : Assertion)
    → (verify_assertion u ans fs st a).state.challenges ≡ st.challenges
verify_assertion-challenges u ans fs st unparsed = refl
verify_assertion-challenges u ans fs st undecoded = refl
verify_assertion-challenges u ans fs st invalid = refl
verify_assertion-challenges u ans fs st (asserted c blob) =
    passkey_found-challenges _ fs.touches blob st (find_passkey c (list_passkeys u.id st.store))

pub verify_session-challenges :
    (u : User) (ans : LoginAnswers) (fs : FactorAnswers) (answer : String → Assertion)
    (st : LoginState) (session : Option String)
    → (verify_session u ans fs answer st session).state.challenges ≡ st.challenges
verify_session-challenges u ans fs answer st none = refl
verify_session-challenges u ans fs answer st (some session) =
    verify_assertion-challenges u ans fs st (answer session)

live-fresh :
    (now : ℕ) (o : Option (Entry Challenge)) (e : Entry Challenge)
    → live now o ≡ some e
    → ltb now e.expires ≡ true
live-fresh now none e h = absurd (ground (arith, h))
live-fresh now (some d) e h = elim (Bool-cases (ltb now d.expires)) [
  | inl t ↦
      let h' : some d ≡ some e = simp t at h in
      let same : d ≡ e = cc in subst (λ (x : Entry Challenge). ltb now x.expires ≡ true) same t
  | inr t ↦ absurd (ground (arith, t, h))
]

module _ (now : ℕ) (key : String) where
  -- A check of a code keeps the challenge and its budget.
  abbrev Keeps : LoginState → Entries Challenge → Type 0
  Keeps st m =
      (left_of (m key) ≤ budget key st) × (e : Entry Challenge) × (live now (m key) ≡ some e)

  Keeps-self : (st : LoginState) → Alive now key st → Keeps st st.challenges
  Keeps-self st (e, h) = (omega arith, e, h)

  -- The use of a challenge's passkey session leaves the challenge alive.
  Keeps-without_session :
      (st : LoginState)
      → Alive now key st
      → Keeps st (update now key without_session st.challenges).1
  Keeps-without_session st (e, h) =
      let same = left-update now key without_session st.challenges in
      let e' = record e { value = record e.value { webauthn = none } } in
      let here : (update now key without_session st.challenges).1 key ≡ some e' =
        same ∙ ap (updated without_session) h in
      (
        omega (arith, ap left_of here, ap left_of h, left-live now key (st.challenges key)),
        e',
        ap (live now) here ∙ rw (live-fresh now (st.challenges key) e h) refl,
      )

-- What follows a right code guesses nothing.
module _ (digits : ℕ → String) (ans : LoginAnswers) where
  issue_with-quiet :
      (i : ℕ) (left : Option ℕ) (st : LoginState) (token : Option String)
      → let x = issue_with ans i left st token in (wrong x.0 ≡ 0) × (x.1.challenges ≡ st.challenges)
  issue_with-quiet i left st none = (refl, refl)
  issue_with-quiet i left st (some token) =
      if-keeps (λ (x : LoginReply × LoginState). (wrong x.0 ≡ 0) × (x.1.challenges ≡ st.challenges))
        (ans.stores && not (has_token token st.store.accounts.sessions)) (refl, refl) (refl, refl)

  pub issue_taken-quiet :
      (i : ℕ) (left : Option ℕ) (st : LoginState) (taken : Option (Entry Challenge))
      → let x = issue_taken digits ans i left st taken in
        (wrong x.0 ≡ 0) × (x.1.challenges ≡ st.challenges)
  unfolding issue_session
  issue_taken-quiet i left st none = (refl, refl)
  issue_taken-quiet i left st (some e) = issue_with-quiet i left _ ans.token

module _ (digits : ℕ → String) (ans : LoginAnswers) (fs : FactorAnswers) (key : String) where
  verify_login_passkey-Keeps :
      (u : User) (is_empty : Bool) (answer : String → Assertion) (st : LoginState)
      → Alive ans.now key st
      → Keeps ans.now key st (verify_login_passkey key u is_empty answer ans fs st).state.challenges
  unfolding verify_login_passkey update
  verify_login_passkey-Keeps u is_empty answer st alive =
      if-keeps (λ (v : Verdict). Keeps ans.now key st v.state.challenges)
        (not fs.configured || is_empty) (Keeps-self ans.now key st alive)
        (let (found, m) = update ans.now key without_session st.challenges in
          let st' = record st { challenges = m } in
          subst (Keeps ans.now key st)
            (sym (verify_session-challenges u ans fs answer st' (session_in found)))
            (Keeps-without_session ans.now key st alive))

  -- The second phase, with any method.
  abbrev KeepsVerdict : LoginState → Option Verdict → Type 0
  KeepsVerdict st none = Unit
  KeepsVerdict st (some v) = Keeps ans.now key st v.state.challenges

  verify_method-KeepsVerdict :
      (u : User) (st : LoginState) (method : Method)
      → Alive ans.now key st
      → KeepsVerdict st (verify_method key u ans fs st method)
  unfolding verify_method
  verify_method-KeepsVerdict u st (by_totp code) alive =
      subst (Keeps ans.now key st) (sym (verify_login_totp-challenges u code ans fs st))
        (Keeps-self ans.now key st alive)
  verify_method-KeepsVerdict u st (by_recovery hash) alive =
      subst (Keeps ans.now key st) (sym (verify_recovery-challenges u.id hash ans fs st))
        (Keeps-self ans.now key st alive)
  verify_method-KeepsVerdict u st (by_passkey is_empty answer) alive =
      verify_login_passkey-Keeps u is_empty answer st alive
  verify_method-KeepsVerdict u st by_other alive = tt

  -- A reply uses up what it guesses.
  abbrev pub Spends : LoginState → LoginReply × LoginState → Type 0
  Spends st x = wrong x.0 + budget key x.1 ≤ budget key st

  finish_second-Spends :
      (i : ℕ) (left : Option ℕ) (v : Option Bool) (st : LoginState)
      → Alive ans.now key st
      → Spends st (finish_second digits ans key i left v st)
  unfolding finish_second take_entry update
  finish_second-Spends i left none st alive = omega arith
  finish_second-Spends i left (some false) st (e, h) = omega (
    arith,
    ap left_of (left-update ans.now key count_fail st.challenges ∙ ap (updated count_fail) h),
    ap left_of h,
    left-count_fail e,
    left-live ans.now key (st.challenges key),
  )
  finish_second-Spends i left (some true) st (e, h) =
      let (taken, m) = take_entry ans.now key st.challenges in
      let quiet = issue_taken-quiet digits ans i left (record st { challenges = m }) taken in
      omega (
        arith,
        quiet.0,
        ap (λ (c : Entries Challenge). left_of (c key)) quiet.1,
        ap left_of (left-update ans.now key (λ c. none) st.challenges ∙ ap (updated (λ c. none)) h),
      )

  finish_verdict-Spends :
      (i : ℕ) (st : LoginState) (v : Option Verdict)
      → KeepsVerdict st v
      → Spends st (finish_verdict digits ans key i st v)
  finish_verdict-Spends i st none k = omega arith
  finish_verdict-Spends i st (some v) k =
      omega (arith, k.0, finish_second-Spends i v.codes_left v.verified v.state (k.1, k.2))

  after_admission-Spends :
      (method : Method) (st : LoginState) (x : Admission × LoginState)
      → Admits ans.now key st x
      → Spends st (after_admission digits ans fs key method x)
  after_admission-Spends method st (turned_away reply, st') h = omega (arith, h.0, h.1)
  after_admission-Spends method st (let_in a, st') h =
      let v = verify_method key (loaded a st'.store) ans fs st' method in
      let kept = verify_method-KeepsVerdict (loaded a st'.store) st' method h.0 in
      omega (arith, h.1, finish_verdict-Spends a.id st' v kept)

  pub login_mfa-Spends :
      (method : Method) (st : LoginState) → Spends st (login_mfa digits ans fs key method st)
  unfolding login_mfa
  login_mfa-Spends method st =
      after_admission-Spends method st (admit digits ans key st) (admit-Admits digits ans key st)
