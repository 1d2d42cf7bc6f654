-- ===== src/Login/Sound.antt =====
-- Who gets a session by a password alone (internal/api/handlers_auth.go).
use duskrun.Base.{◌≡◌, String, Bool, true, false, Option, none, some, if◌then◌else◌}
use duskrun.Access.{mfa_enabled}
use duskrun.Users.{Account}
use duskrun.Factors.Requests.{loaded}
use duskrun.Login.{
  LoginState, LoginReply, session_of, LoginAnswers, get_user_by_email, session_stored, note_device,
}

abbrev pub token_of : Option String → String
token_of none = ""
token_of (some token) = token

-- What a login without a second step shows: the account of the email is enabled, its password was
-- given, and it has no second factor; and what changes is its new session, the time of the login and
-- the note of the device.
pub record PasswordOnly (ans : LoginAnswers) (email password : String) (before after : LoginState)
    : Type 0 where
  pub account : Account
  pub found : get_user_by_email email before.store.accounts.users ≡ some account
  pub enabled : account.disabled ≡ false
  pub right : ans.verifies account.password_hash password ≡ some true
  pub single : mfa_enabled (loaded account before.store) ≡ false
  pub stored : after.store ≡ session_stored ans account.id (token_of ans.token) before.store
  pub noted : after.sign_ins ≡ note_device ans account.id before.sign_ins

-- Neither the store nor the notes of devices change.
abbrev pub Unchanged : LoginState → LoginState → Type 0
Unchanged before after = (after.store ≡ before.store) × (after.sign_ins ≡ before.sign_ins)

abbrev pub is_session : LoginReply → Bool
is_session (session_of i left) = true
is_session _ = false

-- The state after a reply: a session is stored, or nothing is.
abbrev Grants : LoginAnswers → Account → LoginState → LoginReply × LoginState → Type 0
Grants ans a st x =
    if is_session x.0
    then (mfa_enabled (loaded a st.store) ≡ false)
      × (x.1.store ≡ session_stored ans a.id (token_of ans.token) st.store)
      × (x.1.sign_ins ≡ note_device ans a.id st.sign_ins)
    else Unchanged st x.1

abbrev Outcome : LoginAnswers → String → String → LoginState → LoginReply × LoginState → Type 0
Outcome ans email password st x =
    if is_session x.0 then PasswordOnly ans email password st x.1 else Unchanged st x.1

-- The account that a password opens.
record Opened (ans : LoginAnswers) (password : String) (found : Option Account) (a : Account)
    : Type 0 where
  here : found ≡ some a
  enabled : a.disabled ≡ false
  right : ans.verifies a.password_hash password ≡ some true
