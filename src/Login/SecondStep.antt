-- ===== src/Login/SecondStep.antt =====
-- The second step of a login (loginMFA of internal/api/handlers_mfa.go), in the three phases between
-- which the requests of other clients may run: what is looked at before the code, the check of the
-- code, and what follows from its outcome.
use duskrun.Base.{
  ℕ, suc, ℤ, ◌/◌, String, Bool, true, false, ◌&&◌, ◌||◌, not, Option, none, some, List, [], ◌∷◌,
  ltb, str_eq, if◌then◌else◌,
}
use duskrun.Model.{second}
use duskrun.Access.{User}
use duskrun.Access.Pending.{Entry, get, update, take_entry, del}
use duskrun.Access.Throttle.{Limiter, fail, succeed}
use duskrun.Access.SecondFactor.{Generator, Code, verify_totp}
use duskrun.Users.{Account, get_user}
use duskrun.Factors.{
  TotpRow, PasskeyRow, get_totp, advance_step, use_recovery_code, count_recovery_codes,
  list_passkeys, touch_passkey,
}
use duskrun.Factors.Requests.{loaded}
use duskrun.Login.{
  Challenge, LoginState, LoginReply, bad_request, unavailable, unauthorized, gone, throttled,
  LoginAnswers, check_keys, limit_keys, issue_session,
}

-- mfaChallengeFail
abbrev pub challenge_fail : ℕ
challenge_fail = 5

-- What the WebAuthn library makes of an assertion: it is not parsed, the credentials cannot be decoded,
-- it is not valid, or it is of a credential with a new record (`none` where it cannot be encoded).
pub data Assertion : Type 0 where
  unparsed undecoded invalid : Assertion
  asserted : String → Option String → Assertion

-- The method of a request: a code, a recovery code's hash, a credential (which may be empty, and whose
-- assertion depends on the challenge), or another text.
pub data Method : Type 0 where
  by_totp : Code → Method
  by_recovery : String → Method
  by_passkey : Bool → (String → Assertion) → Method
  by_other : Method

-- The secret that `openTOTP` opens, as its generator of codes; whether the statement for recovery codes
-- works and their count is read; whether passkeys are configured and the counter is stored.
pub record FactorAnswers : Type 0 where
  pub opens : TotpRow → Option Generator
  pub spends : Bool
  pub counts : Bool
  pub configured : Bool
  pub touches : Bool

pub data Admission : Type 0 where
  turned_away : LoginReply → Admission
  let_in : Account → Admission

abbrev pub mfa_keys : (ℕ → String) → LoginAnswers → ℕ → List String
mfa_keys digits ans i = limit_keys "mfa:" (digits i) "mfa-ip:" ans.ip

abbrev pub admit_account : String → LoginState → Option Account → Admission × LoginState
admit_account key st none = (turned_away gone, record st { challenges = del key st.challenges })
admit_account key st (some a) =
    if a.disabled
    then (turned_away gone, record st { challenges = del key st.challenges })
    else (let_in a, st)

abbrev pub admit_checked :
    LoginAnswers → String → ℕ → LoginState → Option ℕ × Limiter → Admission × LoginState
admit_checked ans key i st (some retry, l) =
    (turned_away (throttled retry), record st { limiter = l })
admit_checked ans key i st (none, l) =
    admit_account key (record st { limiter = l })
      (if ans.reads then get_user i st.store.accounts.users else none)

abbrev pub admit_found :
    (ℕ → String)
    → LoginAnswers
    → String
    → LoginState
    → Option (Entry Challenge)
    → Admission × LoginState
admit_found digits ans key st none = (turned_away gone, st)
admit_found digits ans key st (some e) =
    let i = e.value.user_id in
    admit_checked ans key i st (check_keys ans.now (mfa_keys digits ans i) st.limiter)

-- The first phase, for a token's hash; `digits` is strconv.FormatInt.
unfoldable pub admit : (ℕ → String) → LoginAnswers → String → LoginState → Admission × LoginState
unfolding check_keys get del
admit digits ans key st =
    let (found, m) = get ans.now key st.challenges in
    admit_found digits ans key (record st { challenges = m }) found

-- The outcome of a check (`none` for an error) and the number of recovery codes that are left.
pub record Verdict : Type 0 where
  pub verified : Option Bool
  pub codes_left : Option ℕ
  pub state : LoginState

abbrev pub verdict : Option Bool → LoginState → Verdict
verdict v st = record { verified = v; codes_left = none; state = st }

abbrev pub verify_step : ℕ → LoginState → Option ℤ → Verdict
verify_step i st none = verdict (some false) st
verify_step i st (some step) =
    let (advanced, s) = advance_step i step st.store in
    verdict (some advanced) (record st { store = s })

abbrev pub verify_opened :
    ℕ → Code → LoginAnswers → TotpRow → LoginState → Option Generator → Verdict
verify_opened i code ans t st none = verdict none st
verify_opened i code ans t st (some generate) =
    verify_step i st (verify_totp generate code (ans.now / second) t.last_step)

abbrev pub verify_row :
    ℕ → Code → LoginAnswers → FactorAnswers → LoginState → Option TotpRow → Verdict
verify_row i code ans fs st none = verdict (some false) st
verify_row i code ans fs st (some t) = verify_opened i code ans t st (fs.opens t)

-- `verifyLoginTOTP`
unfoldable pub verify_login_totp : User → Code → LoginAnswers → FactorAnswers → LoginState → Verdict
unfolding verify_totp advance_step
verify_login_totp u code ans fs st =
    if not u.totp_enabled
    then verdict (some false) st
    else verify_row u.id code ans fs st (get_totp u.id st.store.totp)

abbrev pub find_passkey : String → List PasskeyRow → Option PasskeyRow
find_passkey c [] = none
find_passkey c (r ∷ rs) = if str_eq r.credential_id c then some r else find_passkey c rs

abbrev pub touched : ℕ → Bool → PasskeyRow → LoginState → Option String → Verdict
touched at works r st none = verdict none st
touched at works r st (some blob) =
    verdict (some true)
      (if works then record st { store = touch_passkey r.id blob at st.store } else st)

abbrev pub passkey_found : ℕ → Bool → Option String → LoginState → Option PasskeyRow → Verdict
passkey_found at works blob st none = verdict (some false) st
passkey_found at works blob st (some r) = touched at works r st blob

abbrev pub verify_assertion : User → LoginAnswers → FactorAnswers → LoginState → Assertion → Verdict
verify_assertion u ans fs st unparsed = verdict (some false) st
verify_assertion u ans fs st undecoded = verdict none st
verify_assertion u ans fs st invalid = verdict (some false) st
verify_assertion u ans fs st (asserted c blob) =
    passkey_found (ans.now / second) fs.touches blob st
      (find_passkey c (list_passkeys u.id st.store))

abbrev pub session_in : Option (Entry Challenge) → Option String
session_in none = none
session_in (some e) = e.value.webauthn

abbrev pub verify_session :
    User
    → LoginAnswers
    → FactorAnswers
    → (String → Assertion)
    → LoginState
    → Option String
    → Verdict
verify_session u ans fs answer st none = verdict (some false) st
verify_session u ans fs answer st (some session) = verify_assertion u ans fs st (answer session)

abbrev pub without_session : Challenge → Option Challenge
without_session c = some (record c { webauthn = none })

-- `verifyLoginPasskey`: the challenge is used up by the attempt.
unfoldable pub verify_login_passkey :
    String
    → User
    → Bool
    → (String → Assertion)
    → LoginAnswers
    → FactorAnswers
    → LoginState
    → Verdict
unfolding update touch_passkey
verify_login_passkey key u is_empty answer ans fs st =
    let (found, m) = update ans.now key without_session st.challenges in
    if not fs.configured || is_empty
    then verdict (some false) st
    else verify_session u ans fs answer (record st { challenges = m }) (session_in found)

abbrev pub recovered : Bool → ℕ → Bool → LoginState → Verdict
recovered counts i accepted st = record {
  verified = some accepted;
  codes_left = if accepted && counts then some (count_recovery_codes i st.store.codes) else none;
  state = st;
}

-- `UseRecoveryCode`, and the count after a code was accepted.
unfoldable pub verify_recovery : ℕ → String → LoginAnswers → FactorAnswers → LoginState → Verdict
unfolding use_recovery_code count_recovery_codes
verify_recovery i hash ans fs st =
    let (accepted, codes) = use_recovery_code i hash (ans.now / second) st.store.codes in
    if fs.spends
    then recovered fs.counts i accepted (record st { store = record st.store { codes = codes } })
    else verdict none st

-- The second phase; another method than the three has no verdict.
unfoldable pub verify_method :
    String → User → LoginAnswers → FactorAnswers → LoginState → Method → Option Verdict
unfolding verify_login_totp verify_login_passkey verify_recovery
verify_method key u ans fs st (by_totp code) = some (verify_login_totp u code ans fs st)
verify_method key u ans fs st (by_recovery hash) = some (verify_recovery u.id hash ans fs st)
verify_method key u ans fs st (by_passkey is_empty answer) =
    some (verify_login_passkey key u is_empty answer ans fs st)
verify_method key u ans fs st by_other = none

-- A wrong answer: the challenge is kept as long as it has fewer than five.
abbrev pub count_fail : Challenge → Option Challenge
count_fail c =
    if ltb (suc c.fails) challenge_fail then some (record c { fails = suc c.fails }) else none

abbrev pub issue_taken :
    (ℕ → String)
    → LoginAnswers
    → ℕ
    → Option ℕ
    → LoginState
    → Option (Entry Challenge)
    → LoginReply × LoginState
issue_taken digits ans i left st none = (gone, st)
issue_taken digits ans i left st (some e) =
    issue_session ans i left (record st { limiter = succeed (mfa_keys digits ans i) st.limiter })

-- The third phase, for the outcome of the check.
unfoldable pub finish_second :
    (ℕ → String)
    → LoginAnswers
    → String
    → ℕ
    → Option ℕ
    → Option Bool
    → LoginState
    → LoginReply × LoginState
unfolding update take_entry fail succeed issue_session
finish_second digits ans key i left none st = (unavailable, st)
finish_second digits ans key i left (some false) st = (
  unauthorized,
  record st {
    challenges = (update ans.now key count_fail st.challenges).1;
    limiter = (fail ans.now (mfa_keys digits ans i) st.limiter).1;
  },
)
finish_second digits ans key i left (some true) st =
    let (taken, m) = take_entry ans.now key st.challenges in
    issue_taken digits ans i left (record st { challenges = m }) taken

abbrev pub finish_verdict :
    (ℕ → String) → LoginAnswers → String → ℕ → LoginState → Option Verdict → LoginReply × LoginState
finish_verdict digits ans key i st none = (bad_request, st)
finish_verdict digits ans key i st (some v) =
    finish_second digits ans key i v.codes_left v.verified v.state

abbrev pub after_admission :
    (ℕ → String)
    → LoginAnswers
    → FactorAnswers
    → String
    → Method
    → Admission × LoginState
    → LoginReply × LoginState
after_admission digits ans fs key method (turned_away reply, st) = (reply, st)
after_admission digits ans fs key method (let_in a, st) =
    finish_verdict digits ans key a.id st (verify_method key (loaded a st.store) ans fs st method)

-- `loginMFA`, where no other request comes between its phases.
unfoldable pub login_mfa :
    (ℕ → String)
    → LoginAnswers
    → FactorAnswers
    → String
    → Method
    → LoginState
    → LoginReply × LoginState
unfolding admit verify_method finish_second
login_mfa digits ans fs key method st =
    after_admission digits ans fs key method (admit digits ans key st)
