-- ===== src/Login.antt =====
-- Signing in (internal/api/handlers_auth.go and internal/api/handlers_mfa.go): login with an email and
-- a password is here, the second step is Login/SecondStep. What the libraries, the clock and the store
-- answer comes with each request; an email is given as `normalizeEmail` leaves it, a token as its hash.
pub mod SecondStep
pub mod Sound
pub mod Uniform
pub mod Budget
pub mod Guesses
pub mod Attempts
pub mod Once
use duskrun.Base.{
  ℕ, suc, max, ◌+◌, ◌*◌, ◌/◌, String, Bool, false, ◌&&◌, ◌||◌, not, Option, none, some, List, [],
  ◌∷◌, ◌++◌, str_eq, if◌then◌else◌, any, map, ◌==◌,
}
use Prim.Native.String.{◌++◌ as str_append}
use duskrun.Model.{minute, second}
use duskrun.Access.{mfa_enabled, session_ttl}
use duskrun.Access.Pending.{Entries, put}
use duskrun.Access.Throttle.{Limiter, blocked, fail, succeed, sweep}
use duskrun.Users.{Account, SessionRow, update_account}
use duskrun.Factors.{FactorStore}
use duskrun.Factors.Requests.{loaded}

-- `mfaChallenge`; the WebAuthn challenge is a text.
pub record Challenge : Type 0 where
  pub user_id : ℕ
  pub fails : ℕ
  pub webauthn : Option String

-- A row of the table known_device.
pub record Device : Type 0 where
  pub user_id : ℕ
  pub fingerprint : String
  pub label : String
  pub first_seen : ℕ
  pub last_seen : ℕ

-- The devices, and the new ones that were reported, with the account.
pub record SignIns : Type 0 where
  pub devices : List Device
  pub reports : List (ℕ × String)

-- The limiter and the pending challenges of the server, and the store.
pub record LoginState : Type 0 where
  pub limiter : Limiter
  pub challenges : Entries Challenge
  pub store : FactorStore
  pub sign_ins : SignIns

pub data LoginReply : Type 0 where
  bad_request busy unavailable unauthorized gone internal : LoginReply
  throttled : ℕ → LoginReply
  challenged : String → LoginReply
  session_of : ℕ → Option ℕ → LoginReply

-- The clock, the client's address ("" where none is known), whether a place for hashing is free, whether
-- the lookup works, `Verify` for a hash and a password, the hash of a new token (`none` for an error),
-- and whether the session, the time of the login and the device can be stored; `fingerprint` and `label`
-- are what `deviceOf` makes of the client's name and address.
pub record LoginAnswers : Type 0 where
  pub now : ℕ
  pub ip : String
  pub admitted : Bool
  pub reads : Bool
  pub verifies : String → String → Option Bool
  pub token : Option String
  pub stores : Bool
  pub stamps : Bool
  pub notes : Bool
  pub fingerprint : String
  pub label : String

-- mfaChallengeTTL
abbrev pub challenge_ttl : ℕ
challenge_ttl = 5 * minute

-- The keys of the limiter: a name and, where it is known, the address.
abbrev pub limit_keys : String → String → String → String → List String
limit_keys label name ip_label ip =
    str_append label name ∷ (if str_eq ip "" then [] else str_append ip_label ip ∷ [])

-- The loop over the keys: the first one that is blocked ends it.
unfoldable pub check_keys : ℕ → List String → Limiter → Option ℕ × Limiter
check_keys now [] l = (none, l)
check_keys now (k ∷ ks) l =
    let ((is_blocked, retry), l') = blocked now k l in
    let rest = check_keys now ks l' in if is_blocked then (some (retry / second + 1), l') else rest

-- `GetUserByEmail`
abbrev pub get_user_by_email : String → List Account → Option Account
get_user_by_email email [] = none
get_user_by_email email (a ∷ users) =
    if str_eq a.email email then some a else get_user_by_email email users

abbrev is_yes : Option Bool → Bool
is_yes none = false
is_yes (some b) = b

-- The account that the password opens.
abbrev pub opened : LoginAnswers → String → Option Account → Option Account
opened ans password none = none
opened ans password (some a) =
    if not a.disabled && is_yes (ans.verifies a.password_hash password) then some a else none

abbrev pub max_session : List SessionRow → ℕ
max_session [] = 0
max_session (r ∷ rs) = max r.id (max_session rs)

-- The row of a session that begins now.
abbrev pub new_session : ℕ → ℕ → String → List SessionRow → SessionRow
new_session now i token rows = record {
  id = suc (max_session rows);
  user_id = i;
  token_hash = token;
  created_at = now / second;
  last_seen_at = now / second;
  expires_at = (now + session_ttl) / second;
}

abbrev pub has_token : String → List SessionRow → Bool
has_token token = any (λ r. str_eq r.token_hash token)

-- `CreateSession`, where the token is new.
abbrev pub create_session : ℕ → ℕ → String → FactorStore → FactorStore
create_session now i token s = record s {
  accounts = record s.accounts {
    sessions = s.accounts.sessions ++ new_session now i token s.accounts.sessions ∷ [];
  };
}

-- `TouchUserLogin`
abbrev pub touch_user_login : ℕ → ℕ → FactorStore → FactorStore
touch_user_login i now s = record s {
  accounts = record s.accounts {
    users =
        update_account i (λ a. record a { last_login_at = some (now / second) }) s.accounts.users;
  };
}

abbrev pub is_device : ℕ → String → Device → Bool
is_device i fingerprint d = d.user_id == i && str_eq d.fingerprint fingerprint

-- The devices after `TouchKnownDevice`.
abbrev pub touch_known_device : ℕ → String → String → ℕ → List Device → List Device
touch_known_device i fingerprint label now ds =
    if any (is_device i fingerprint) ds
    then map
        (λ d.
          if is_device i fingerprint d
          then record d { label = label; last_seen = now / second }
          else d)
        ds
    else ds
      ++ record {
        user_id = i;
        fingerprint = fingerprint;
        label = label;
        first_seen = now / second;
        last_seen = now / second;
      }
        ∷ []

-- The device is new, and the account had one before.
abbrev pub is_new_device : ℕ → String → List Device → Bool
is_new_device i fingerprint ds =
    not (any (is_device i fingerprint) ds) && any (λ d. d.user_id == i) ds

-- `noteDevice`
abbrev pub note_device : LoginAnswers → ℕ → SignIns → SignIns
note_device ans i s =
    if ans.notes
    then record {
      devices = touch_known_device i ans.fingerprint ans.label ans.now s.devices;
      reports =
          if is_new_device i ans.fingerprint s.devices
          then s.reports ++ (i, ans.label) ∷ []
          else s.reports;
    }
    else s

-- The store with a new session and, where it can be stored, the time of the login.
abbrev pub session_stored : LoginAnswers → ℕ → String → FactorStore → FactorStore
session_stored ans i token s =
    let s' = create_session ans.now i token s in
    if ans.stamps then touch_user_login i ans.now s' else s'

abbrev pub issue_with :
    LoginAnswers → ℕ → Option ℕ → LoginState → Option String → LoginReply × LoginState
issue_with ans i left st none = (internal, st)
issue_with ans i left st (some token) =
    if ans.stores && not (has_token token st.store.accounts.sessions)
    then (
      session_of i left,
      record st {
        store = session_stored ans i token st.store;
        sign_ins = note_device ans i st.sign_ins;
      },
    )
    else (internal, st)

-- `issueSession`
unfoldable pub issue_session : LoginAnswers → ℕ → Option ℕ → LoginState → LoginReply × LoginState
issue_session ans i left st = issue_with ans i left st ans.token

abbrev pub start_with : ℕ → ℕ → LoginState → Option String → LoginReply × LoginState
start_with now i st none = (internal, st)
start_with now i st (some token) = (
  challenged token,
  record st {
    challenges =
        put now token (record { user_id = i; fails = 0; webauthn = none }) challenge_ttl
          st.challenges;
  },
)

-- `startMFAChallenge`
unfoldable pub start_challenge : LoginAnswers → ℕ → LoginState → LoginReply × LoginState
unfolding put
start_challenge ans i st = start_with ans.now i st ans.token

-- What follows a right password.
unfoldable pub signed_in : LoginAnswers → Account → LoginState → LoginReply × LoginState
unfolding issue_session start_challenge
signed_in ans a st =
    if mfa_enabled (loaded a st.store)
    then start_challenge ans a.id st
    else issue_session ans a.id none st

abbrev pub login_opened :
    LoginAnswers → List String → LoginState → Option Account → LoginReply × LoginState
login_opened ans keys st none =
    (unauthorized, record st { limiter = (fail ans.now keys st.limiter).1 })
login_opened ans keys st (some a) =
    signed_in ans a (record st { limiter = succeed keys st.limiter })

-- `login` after the limiter let it through.
unfoldable pub login_unblocked :
    LoginAnswers → List String → String → String → LoginState → LoginReply × LoginState
unfolding signed_in fail succeed
login_unblocked ans keys email password st =
    if not ans.admitted
    then (busy, st)
    else if not ans.reads
    then (unavailable, st)
    else login_opened ans keys st
        (opened ans password (get_user_by_email email st.store.accounts.users))

abbrev pub login_checked :
    LoginAnswers
    → List String
    → String
    → String
    → LoginState
    → Option ℕ × Limiter
    → LoginReply × LoginState
login_checked ans keys email password st (some retry, l) =
    (throttled retry, record st { limiter = l })
login_checked ans keys email password st (none, l) =
    login_unblocked ans keys email password (record st { limiter = sweep ans.now l })

-- `login`
unfoldable pub login : LoginAnswers → String → String → LoginState → LoginReply × LoginState
unfolding check_keys login_unblocked sweep
login ans email password st =
    let keys = limit_keys "email:" email "ip:" ans.ip in
    if str_eq email "" || str_eq password ""
    then (bad_request, st)
    else login_checked ans keys email password st (check_keys ans.now keys st.limiter)
