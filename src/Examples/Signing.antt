-- ===== src/Examples/Signing.antt =====
-- Runs of internal/api/handlers_auth.go and internal/api/handlers_mfa.go.
use duskrun.Base.{
  ℕ, ◌≤◌, ◌≡◌, refl, String, true, false, none, some, List, [], ◌∷◌, str_eq, if◌then◌else◌, Option,
  ◌==◌,
}
use duskrun.Model.{operator}
use duskrun.Access.Pending.{Entry, Entries}
use duskrun.Access.Throttle.{Limiter, blocked}
use duskrun.Users.{Account}
use duskrun.Factors.{FactorStore}
use duskrun.Login.{Challenge, LoginState, gone, LoginAnswers, login, session_of, check_keys}
use duskrun.Access.{User, resolve_session, principal_with}
use duskrun.Factors.Requests.{loaded}
use duskrun.Sessions.{session_by_token}
use duskrun.Sessions.Promise.{SessionOp, begins, presents, cleans, leaves, loses_access, apply_all}
use duskrun.Sessions.Opening.{Unhindered, login_lets_in}
use duskrun.Login.SecondStep.{FactorAnswers, by_recovery, challenge_fail, finish_second}
use duskrun.Login.Uniform.{login_uniform}
use duskrun.Login.Attempts.{Attempt, guesses, guesses_bounded}
use duskrun.Login.Once.{LoginStep, finishes, logs_in, admits, step_all, one_session}

abbrev eva : Account
eva = record {
  id = 7;
  email = "eva@example.org";
  name = "Eva";
  role = operator;
  password_hash = "h";
  last_login_at = none;
  disabled = false;
}

abbrev no_users : FactorStore
no_users = record {
  accounts = record { users = []; sessions = [] };
  totp = [];
  passkeys = [];
  codes = [];
}

abbrev one_user : FactorStore
one_user = record no_users { accounts = record { users = eva ∷ []; sessions = [] } }

abbrev no_challenges : Entries Challenge
no_challenges k = none

abbrev no_fails : Limiter
no_fails k = none

abbrev calm : FactorStore → LoginState
calm s = record {
  limiter = no_fails;
  challenges = no_challenges;
  store = s;
  sign_ins = record { devices = []; reports = [] };
}

abbrev answers : LoginAnswers
answers = record {
  now = 1000;
  ip = "192.0.2.1";
  admitted = true;
  reads = true;
  verifies = λ hash password. some (str_eq password "pw");
  token = some "t";
  stores = true;
  stamps = true;
  notes = true;
  fingerprint = "f";
  label = "Firefox";
}

login_run : (login answers "eva@example.org" "pw" (calm one_user)).0 ≡ session_of 7 none
unfolding login blocked
login_run = refl

-- A wrong password and an unknown email look the same.
login_uniform_example :
    ((login answers "eva@example.org" "no" (calm one_user)).0
      ≡ (login answers "eva@example.org" "no" (calm no_users)).0)
    × ((login answers "eva@example.org" "no" (calm one_user)).1.limiter
        ≡ (login answers "eva@example.org" "no" (calm no_users)).1.limiter)
login_uniform_example =
    login_uniform answers "eva@example.org" "no" (calm one_user) no_users refl refl

abbrev challenge : Entry Challenge
challenge = record { value = record { user_id = 7; fails = 0; webauthn = none }; expires = 5000 }

abbrev waiting : LoginState
waiting = record (calm one_user) { challenges = λ k. if str_eq k "t" then some challenge else none }

abbrev digits : ℕ → String
digits i = "7"

abbrev factors : FactorAnswers
factors = record {
  opens = λ t. none;
  spends = true;
  counts = true;
  configured = false;
  touches = true;
}

abbrev attempt : Attempt
attempt = record { answers = answers; factors = factors; method = by_recovery "x" }

abbrev six : List Attempt
six = attempt ∷ attempt ∷ attempt ∷ attempt ∷ attempt ∷ attempt ∷ []

guesses_bounded_example :
    ((e : Entry Challenge)
      → waiting.challenges "t" ≡ some e
      → e.value.fails ≡ 0
      → (guesses digits "t" six waiting).0 ≤ challenge_fail)
    × (waiting.challenges "t" ≡ none → (guesses digits "t" six waiting).0 ≡ 0)
guesses_bounded_example = guesses_bounded digits "t" six waiting

-- A wrong code for the same token, and another login.
abbrev others : List LoginStep
others =
    finishes answers "t" 7 none (some false)
    ∷ logs_in (record answers { token = some "u" }) "eva@example.org" "pw"
    ∷ admits answers "t"
    ∷ []

one_session_example :
    let between =
      step_all digits others (finish_second digits answers "t" 7 none (some true) waiting).1 in
    let (reply, st') = finish_second digits answers "t" 7 none (some true) between in
    (reply ≡ gone) × (st'.store ≡ between.store)
one_session_example =
    one_session digits answers answers "t" 7 7 none none others waiting (tt, (refl, (tt, tt)))

abbrev owner_of : ℕ → Option User
owner_of i = if i == 7 then some (loaded eva one_user) else none

eva-Unhindered : Unhindered answers "eva@example.org" "pw" "t" (calm one_user) eva
unfolding check_keys blocked
eva-Unhindered = record {
  given = refl;
  unblocked = refl;
  admitted = refl;
  reads = refl;
  opens = refl;
  single = refl;
  issued = refl;
  stores = refl;
  free = refl;
}

-- Another login, the use and the end of its session, and a cleaning.
abbrev meanwhile : List SessionOp
meanwhile =
    begins 1500 7 "x"
    ∷ presents true true 1600 "x"
    ∷ cleans 1700
    ∷ leaves true "x"
    ∷ loses_access 8
    ∷ []

login_lets_in_example :
    ((login answers "eva@example.org" "pw" (calm one_user)).0 ≡ session_of 7 none)
    × (resolve_session 2000 none (
          session_by_token true owner_of
            (apply_all owner_of meanwhile
              (login answers "eva@example.org" "pw" (calm one_user)).1.store.accounts.sessions)
            "t")
        ≡ principal_with none (loaded eva one_user) false)
login_lets_in_example =
    login_lets_in answers "eva@example.org" "pw" "t" (calm one_user) eva meanwhile 2000 none
      owner_of (loaded eva one_user) eva-Unhindered tt (tt, (refl, (refl, (refl, (refl, tt))))) refl
      refl refl
