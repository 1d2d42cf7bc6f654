-- ===== src/Login/Once.antt =====
-- A challenge gives one session, whatever other requests come between (login of
-- internal/api/handlers_auth.go and loginMFA of internal/api/handlers_mfa.go).
use duskrun.Base.{
  ℕ, ◌≡◌, refl, sym, ap, ◌∙◌, String, Bool, true, false, ◌||◌, ◌&&◌, not, Option, none, some, List,
  [], ◌∷◌, All, str_eq, eq_iff, Bool-cases, inl, inr, if-keeps,
}
use duskrun.Access.{User, mfa_enabled}
use duskrun.Access.Pending.{Entry, Entries, live, updated, put, get, update, take_entry, del}
use duskrun.Access.Throttle.{Limiter, sweep, succeed}
use duskrun.Users.{Account}
use duskrun.Factors.Requests.{loaded}
use duskrun.Login.{
  Challenge, LoginState, LoginReply, gone, LoginAnswers, limit_keys, check_keys, get_user_by_email,
  opened, has_token, issue_with, issue_session, start_with, start_challenge, challenge_ttl,
  signed_in, login_opened, login_unblocked, login_checked, login,
}
use duskrun.Login.SecondStep.{
  Method, by_totp, by_recovery, by_passkey, by_other, FactorAnswers, Admission, Verdict,
  admit_account, admit_checked, admit_found, admit, without_session, session_in,
  verify_login_passkey, verify_method, count_fail, finish_second,
}
use duskrun.Login.Guesses.{
  verify_login_totp-challenges, verify_recovery-challenges, verify_session-challenges,
  issue_taken-quiet,
}
use duskrun.Login.Budget.{left-update}

-- A login, or a phase of the second step of one, of any client and with any token; a phase comes with
-- whatever its request learned in the phases before.
pub data LoginStep : Type 0 where
  logs_in : LoginAnswers → String → String → LoginStep
  admits : LoginAnswers → String → LoginStep
  verifies : LoginAnswers → FactorAnswers → String → User → Method → LoginStep
  finishes : LoginAnswers → String → ℕ → Option ℕ → Option Bool → LoginStep

abbrev pub verified_state : LoginState → Option Verdict → LoginState
verified_state st none = st
verified_state st (some v) = v.state

abbrev pub step : (ℕ → String) → LoginStep → LoginState → LoginState
step digits (logs_in ans email password) st = (login ans email password st).1
step digits (admits ans key) st = (admit digits ans key st).1
step digits (verifies ans fs key u method) st =
    verified_state st (verify_method key u ans fs st method)
step digits (finishes ans key i left v) st = (finish_second digits ans key i left v st).1

abbrev pub step_all : (ℕ → String) → List LoginStep → LoginState → LoginState
step_all digits [] st = st
step_all digits (s ∷ steps) st = step_all digits steps (step digits s st)

abbrev pub issues : String → Option String → Bool
issues key none = false
issues key (some token) = str_eq key token

-- A login does not draw a token that was drawn before.
abbrev pub Fresh : String → LoginStep → Type 0
Fresh key (logs_in ans email password) = issues key ans.token ≡ false
Fresh key _ = Unit

module _ (key : String) where
  abbrev Absent : LoginState → Type 0
  Absent st = st.challenges key ≡ none

  abbrev Replied : LoginReply × LoginState → Type 0
  Replied x = Absent x.1

  put-Absent :
      (now : ℕ) (token : String) (c : Challenge) (m : Entries Challenge)
      → str_eq key token ≡ false
      → m key ≡ none
      → put now token c challenge_ttl m key ≡ none
  unfolding put
  put-Absent now token c m e h = rw (e, h) refl

  update-Absent :
      (now : ℕ) (k : String) (fn : Challenge → Option Challenge) (m : Entries Challenge)
      → m key ≡ none
      → (update now k fn m).1 key ≡ none
  unfolding update
  update-Absent now k fn m h = elim (Bool-cases (str_eq key k)) [
    | inl e ↦ let same : m k ≡ none = ap m (sym ((eq_iff key k).0 e)) ∙ h in rw (e, same) refl
    | inr e ↦ rw (e, h) refl
  ]

  del-Absent : (k : String) (m : Entries Challenge) → m key ≡ none → del k m key ≡ none
  unfolding del
  del-Absent k m h = if-keeps (λ (o : Option (Entry Challenge)). o ≡ none) (str_eq key k) refl h

  start_with-Absent :
      (now i : ℕ) (st : LoginState) (token : Option String)
      → issues key token ≡ false
      → Absent st
      → Replied (start_with now i st token)
  start_with-Absent now i st none e h = h
  start_with-Absent now i st (some token) e h = put-Absent now token _ st.challenges e h

  issue_with-Absent :
      (ans : LoginAnswers) (i : ℕ) (left : Option ℕ) (st : LoginState) (token : Option String)
      → Absent st
      → Replied (issue_with ans i left st token)
  issue_with-Absent ans i left st none h = h
  issue_with-Absent ans i left st (some token) h =
      if-keeps Replied (ans.stores && not (has_token token st.store.accounts.sessions)) h h

  login_opened-Absent :
      (ans : LoginAnswers) (keys : List String) (st : LoginState) (a : Option Account)
      → issues key ans.token ≡ false
      → Absent st
      → Replied (login_opened ans keys st a)
  unfolding signed_in issue_session start_challenge
  login_opened-Absent ans keys st none e h = h
  login_opened-Absent ans keys st (some a) e h =
      let st' = record st { limiter = succeed keys st.limiter } in
      if-keeps Replied (mfa_enabled (loaded a st.store))
        (start_with-Absent ans.now a.id st' ans.token e h)
        (issue_with-Absent ans a.id none st' ans.token h)

  login_checked-Absent :
      (ans : LoginAnswers) (keys : List String) (email password : String) (st : LoginState)
      (x : Option ℕ × Limiter)
      → issues key ans.token ≡ false
      → Absent st
      → Replied (login_checked ans keys email password st x)
  unfolding login_unblocked
  login_checked-Absent ans keys email password st (some retry, l) e h = h
  login_checked-Absent ans keys email password st (none, l) e h =
      if-keeps Replied (not ans.admitted) h (
        if-keeps Replied (not ans.reads) h (
          login_opened-Absent ans keys (record st { limiter = sweep ans.now l })
            (opened ans password (get_user_by_email email st.store.accounts.users)) e h))

  login-Absent :
      (ans : LoginAnswers) (email password : String) (st : LoginState)
      → issues key ans.token ≡ false
      → Absent st
      → Replied (login ans email password st)
  unfolding login
  login-Absent ans email password st e h =
      let keys = limit_keys "email:" email "ip:" ans.ip in
      if-keeps Replied (str_eq email "" || str_eq password "") h
        (login_checked-Absent ans keys email password st (check_keys ans.now keys st.limiter) e h)

  abbrev Admitted : Admission × LoginState → Type 0
  Admitted x = Absent x.1

  admit_account-Absent :
      (k : String) (st : LoginState) (a : Option Account)
      → Absent st
      → Admitted (admit_account k st a)
  admit_account-Absent k st none h = del-Absent k st.challenges h
  admit_account-Absent k st (some a) h =
      if-keeps Admitted a.disabled (del-Absent k st.challenges h) h

  admit_checked-Absent :
      (ans : LoginAnswers) (k : String) (i : ℕ) (st : LoginState) (x : Option ℕ × Limiter)
      → Absent st
      → Admitted (admit_checked ans k i st x)
  admit_checked-Absent ans k i st (some retry, l) h = h
  admit_checked-Absent ans k i st (none, l) h =
      admit_account-Absent k (record st { limiter = l }) _ h

  admit_found-Absent :
      (digits : ℕ → String) (ans : LoginAnswers) (k : String) (st : LoginState)
      (found : Option (Entry Challenge))
      → Absent st
      → Admitted (admit_found digits ans k st found)
  admit_found-Absent digits ans k st none h = h
  admit_found-Absent digits ans k st (some e) h = admit_checked-Absent ans k e.value.user_id st _ h

  verify_method-Absent :
      (ans : LoginAnswers) (fs : FactorAnswers) (k : String) (u : User) (st : LoginState)
      (method : Method)
      → Absent st
      → Absent (verified_state st (verify_method k u ans fs st method))
  unfolding verify_method verify_login_passkey
  verify_method-Absent ans fs k u st (by_totp code) h =
      ap (λ (m : Entries Challenge). m key) (verify_login_totp-challenges u code ans fs st) ∙ h
  verify_method-Absent ans fs k u st (by_recovery hash) h =
      ap (λ (m : Entries Challenge). m key) (verify_recovery-challenges u.id hash ans fs st) ∙ h
  verify_method-Absent ans fs k u st (by_passkey is_empty answer) h =
      let (found, m) = update ans.now k without_session st.challenges in
      if-keeps (λ (v : Verdict). Absent v.state) (not fs.configured || is_empty) h
        (ap (λ (m : Entries Challenge). m key)
            (verify_session-challenges u ans fs answer (record st { challenges = m })
              (session_in found))
          ∙ update-Absent ans.now k without_session st.challenges h)
  verify_method-Absent ans fs k u st by_other h = h

  finish_second-Absent :
      (digits : ℕ → String) (ans : LoginAnswers) (k : String) (i : ℕ) (left : Option ℕ)
      (v : Option Bool) (st : LoginState)
      → Absent st
      → Replied (finish_second digits ans k i left v st)
  unfolding finish_second take_entry
  finish_second-Absent digits ans k i left none st h = h
  finish_second-Absent digits ans k i left (some false) st h =
      update-Absent ans.now k count_fail st.challenges h
  finish_second-Absent digits ans k i left (some true) st h =
      let (taken, m) = take_entry ans.now k st.challenges in
      ap (λ (m : Entries Challenge). m key)
        (issue_taken-quiet digits ans i left (record st { challenges = m }) taken).1
      ∙ update-Absent ans.now k (λ v. none) st.challenges h

  step-Absent :
      (digits : ℕ → String) (s : LoginStep) (st : LoginState)
      → Fresh key s
      → Absent st
      → Absent (step digits s st)
  unfolding admit get
  step-Absent digits (logs_in ans email password) st f h = login-Absent ans email password st f h
  step-Absent digits (admits ans k) st f h =
      let (found, m) = get ans.now k st.challenges in
      admit_found-Absent digits ans k (record st { challenges = m }) found
        (update-Absent ans.now k (λ v. some v) st.challenges h)
  step-Absent digits (verifies ans fs k u method) st f h =
      verify_method-Absent ans fs k u st method h
  step-Absent digits (finishes ans k i left v) st f h =
      finish_second-Absent digits ans k i left v st h

  step_all-Absent :
      (digits : ℕ → String) (steps : List LoginStep) (st : LoginState)
      → All (Fresh key) steps
      → Absent st
      → Absent (step_all digits steps st)
  step_all-Absent digits [] st f h = h
  step_all-Absent digits (s ∷ steps) st f h =
      step_all-Absent digits steps (step digits s st) f.1 (step-Absent digits s st f.0 h)

nothing_kept : (o : Option (Entry Challenge)) → updated (λ v. none) o ≡ none
nothing_kept none = refl
nothing_kept (some e) = refl

taken-Absent :
    (now : ℕ) (key : String) (m : Entries Challenge) → (take_entry now key m).1 key ≡ none
unfolding take_entry
taken-Absent now key m = left-update now key (λ v. none) m ∙ nothing_kept (live now (m key))

-- A challenge gives one session. Once a request with its token has passed the last phase with a right
-- code, let any logins and phases of any second steps follow, this token's too, of which no login
-- draws the token again. Then any other request that was verified for this token, at whatever time it
-- gets to the last phase, is told to start again and changes no session.
pub one_session :
    (digits : ℕ → String) (ans later : LoginAnswers) (key : String) (i j : ℕ)
    (left left' : Option ℕ) (steps : List LoginStep) (st : LoginState)
    → All (Fresh key) steps
    → let between = step_all digits steps (finish_second digits ans key i left (some true) st).1 in
      let (reply, st') = finish_second digits later key j left' (some true) between in
      (reply ≡ gone) × (st'.store ≡ between.store)
unfolding finish_second take_entry update
one_session digits ans later key i j left left' steps st f =
    let first = (finish_second digits ans key i left (some true) st).1 in
    let (taken, m) = take_entry ans.now key st.challenges in
    let removed : first.challenges key ≡ none =
      ap (λ (m : Entries Challenge). m key)
        (issue_taken-quiet digits ans i left (record st { challenges = m }) taken).1
      ∙ taken-Absent ans.now key st.challenges in
    let between = step_all digits steps first in
    let absent : between.challenges key ≡ none = step_all-Absent key digits steps first f removed in
    rw absent (refl, refl)
