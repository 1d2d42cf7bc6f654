-- ===== src/Sessions/Opening.antt =====
-- A login lets its user in (internal/api/handlers_auth.go, then internal/api/auth.go).
use duskrun.Base.{
  ℕ, ◌+◌, ◌*◌, ◌/◌, ◌≡◌, refl, ◌∙◌, String, true, false, ◌||◌, Option, none, some, List, [], ◌∷◌,
  ◌++◌, ltb, leb, ◌==◌, not, Bool, sym, ap, All, str_eq, eq_iff, arith, Bool-cases, inl, inr,
}
use duskrun.Model.{second}
use duskrun.Access.{User, MfaPolicy, mfa_enabled, session_ttl, resolve_session, principal_with}
use duskrun.Access.Throttle.{Limiter}
use duskrun.Users.{Account, SessionRow}
use duskrun.Factors.{FactorStore}
use duskrun.Factors.Requests.{loaded}
use duskrun.Login.{
  LoginState, LoginReply, LoginAnswers, limit_keys, check_keys, get_user_by_email, opened,
  has_token, session_stored, new_session, issue_session, signed_in, login_opened, login_unblocked,
  login_checked, login,
}
use duskrun.Login as Login
use duskrun.Sessions.{find_token, session_by_token, with_owner, begin_session}
use duskrun.Sessions.Promise.{
  Grant, View, view, seen, grant_of, fresh, accepted, closed_others, SessionOp, begins, presents,
  leaves, changes_password, cleans, loses_access, apply, apply_all, promise, promise_all,
}
use duskrun.Sessions.Refinement.{apply_all-refines}
use duskrun.Sessions.Rows.{Unique, find_token-none}

-- A login that nothing stands in the way of: the limiter and the store let it through, the password
-- opens an account without a second factor, and the token is new.
pub record Unhindered (ans : LoginAnswers) (email password token : String) (st : LoginState)
    (a : Account) : Type 0 where
  pub given : (str_eq email "" || str_eq password "") ≡ false
  pub unblocked : (check_keys ans.now (limit_keys "email:" email "ip:" ans.ip) st.limiter).0 ≡ none
  pub admitted : ans.admitted ≡ true
  pub reads : ans.reads ≡ true
  pub opens : opened ans password (get_user_by_email email st.store.accounts.users) ≡ some a
  pub single : mfa_enabled (loaded a st.store) ≡ false
  pub issued : ans.token ≡ some token
  pub stores : ans.stores ≡ true
  pub free : has_token token st.store.accounts.sessions ≡ false

login_checked-opens :
    (ans : LoginAnswers) (email password token : String) (st : LoginState) (a : Account)
    (keys : List String) (x : Option ℕ × Limiter)
    → Unhindered ans email password token st a
    → x.0 ≡ none
    → let (reply, st') = login_checked ans keys email password st x in
      (reply ≡ Login.session_of a.id none) × (st'.store ≡ session_stored ans a.id token st.store)
unfolding login_unblocked signed_in issue_session
login_checked-opens ans email password token st a keys (some retry, l) f h =
    absurd (ground (arith, h))
login_checked-opens ans email password token st a keys (none, l) f h =
    rw (f.admitted, f.reads, f.opens, f.single, f.issued, f.stores, f.free) (refl, refl)

login-opens :
    (ans : LoginAnswers) (email password token : String) (st : LoginState) (a : Account)
    → Unhindered ans email password token st a
    → let (reply, st') = login ans email password st in
      (reply ≡ Login.session_of a.id none) × (st'.store ≡ session_stored ans a.id token st.store)
unfolding login
login-opens ans email password token st a f =
    let keys = limit_keys "email:" email "ip:" ans.ip in
    rw f.given (
      login_checked-opens ans email password token st a keys (check_keys ans.now keys st.limiter) f
        f.unblocked)

session_stored-sessions :
    (ans : LoginAnswers) (i : ℕ) (token : String) (s : FactorStore)
    → (session_stored ans i token s).accounts.sessions
      ≡ s.accounts.sessions ++ new_session ans.now i token s.accounts.sessions ∷ []
session_stored-sessions ans i token s = elim (Bool-cases ans.stamps) [
  | inl e ↦ rw e refl
  | inr e ↦ rw e refl
]

-- What leaves the session of a token alone, which belongs to the account `i` and expires at
-- `expires` seconds: any login, requests and logouts with other tokens, changes of a password that
-- fail or come from this session, cleanings before it expires, and the end of another account.
abbrev pub Spares : ℕ → String → ℕ → SessionOp → Type 0
Spares i token expires (begins now j other) = Unit
Spares i token expires (presents deletes touches now other) = str_eq other token ≡ false
Spares i token expires (leaves deletes other) = str_eq other token ≡ false
Spares i token expires (changes_password is_valid old hash other) =
    (str_eq other token || not (accepted is_valid old hash)) ≡ true
Spares i token expires (cleans now) = leb expires (now / second) ≡ false
Spares i token expires (loses_access j) = (i == j) ≡ false

closed_others-spared :
    (goes_through : Bool) (other token : String) (v : View) (g : Grant) (o : Option Grant)
    → v token ≡ some g
    → (str_eq other token || not goes_through) ≡ true
    → closed_others goes_through other v o token ≡ some g
closed_others-spared goes_through other token v g none h k = h
closed_others-spared goes_through other token v g (some x) h k =
    elim (Bool-cases (str_eq other token)) [
      | inl e ↦ rw (e, h) refl
      | inr e ↦ let off : goes_through ≡ false = ground (arith, e, k) in rw (e, off, h) refl
    ]

promise-spared :
    (owner : ℕ → Option User) (token : String) (g : Grant) (op : SessionOp) (v : View)
    → Spares g.owner token g.expires_at op
    → v token ≡ some g
    → promise owner op v token ≡ some g
unfolding promise
promise-spared owner token g (begins now j other) v p h = elim (Bool-cases (str_eq other token)) [
  | inl e ↦ rw (e, h) refl
  | inr e ↦ rw (e, h) refl
]
promise-spared owner token g (presents deletes touches now other) v p h = rw (p, h) refl
promise-spared owner token g (leaves deletes other) v p h = rw (p, h) refl
promise-spared owner token g (changes_password is_valid old hash other) v p h =
    closed_others-spared (accepted is_valid old hash) other token v g (v other) h p
promise-spared owner token g (cleans now) v p h = rw (h, p) refl
promise-spared owner token g (loses_access j) v p h = rw (h, p) refl

promise_all-spared :
    (owner : ℕ → Option User) (token : String) (g : Grant) (ops : List SessionOp) (v : View)
    → All (Spares g.owner token g.expires_at) ops
    → v token ≡ some g
    → promise_all owner ops v token ≡ some g
unfolding promise_all
promise_all-spared owner token g [] v p h = h
promise_all-spared owner token g (op ∷ ops) v p h =
    promise_all-spared owner token g ops (promise owner op v) p.1
      (promise-spared owner token g op v p.0 h)

-- The session that a login made, after operations that spare it.
opened-kept :
    (owner : ℕ → Option User) (now i : ℕ) (token : String) (ops : List SessionOp)
    (rows : List SessionRow)
    → Unique rows
    → has_token token rows ≡ false
    → All (Spares i token ((now + session_ttl) / second)) ops
    → view (apply_all owner ops (rows ++ new_session now i token rows ∷ [])) token
      ≡ some (fresh now i)
unfolding apply_all apply begin_session promise_all promise
opened-kept owner now i token ops rows u free p =
    let whole = begins now i token ∷ ops in
    let begun : begin_session now i token rows ≡ rows ++ new_session now i token rows ∷ [] =
      rw free refl in
    let refined = apply_all-refines owner whole rows u in
    let first : promise owner (begins now i token) (view rows) token ≡ some (fresh now i) =
      rw ((eq_iff token token).1 refl, find_token-none token rows free) refl in
    ap (λ (r : List SessionRow). view (apply_all owner ops r) token) (sym begun)
    ∙ ap (λ (v : View). v token) refined
    ∙ promise_all-spared owner token (fresh now i) ops
        (promise owner (begins now i token) (view rows)) p first

resolved_of_view :
    (owner : ℕ → Option User) (later : ℕ) (policy : Option MfaPolicy) (u : User) (g : Grant)
    (found : Option SessionRow)
    → seen found ≡ some g
    → owner g.owner ≡ some u
    → u.disabled ≡ false
    → ltb later (g.expires_at * second) ≡ true
    → resolve_session later policy (with_owner owner found)
      ≡ principal_with policy u (mfa_enabled u)
unfolding resolve_session
resolved_of_view owner later policy u g none h there enabled early = absurd (ground (arith, h))
resolved_of_view owner later policy u g (some r) h there enabled early =
    let same : grant_of r ≡ g = cc in
    let of : owner r.user_id ≡ some u = ap (λ (x : Grant). owner x.owner) same ∙ there in
    let fresh_yet : ltb later (r.expires_at * second) ≡ true =
      ap (λ (x : Grant). ltb later (x.expires_at * second)) same ∙ early in
    rw (of, fresh_yet, enabled) refl

-- A right password lets its user in: a login that nothing stands in the way of answers with a session
-- of the account, thirty days long in whole seconds. Then any operations on the table may come that
-- leave this session alone: logins, requests and logouts with other tokens, changes of a password that
-- fail or come from this session, cleanings before it expires, and ends of other accounts. A request
-- with its token that comes afterwards and before the session expires, and whose lookup works, is that
-- of the owner, as far as the policy on second factors can be read, provided the owner is there and is
-- not disabled. The ids and the tokens of the sessions before the login are unique.
pub login_lets_in :
    (ans : LoginAnswers) (email password token : String) (st : LoginState) (a : Account)
    (ops : List SessionOp) (later : ℕ) (policy : Option MfaPolicy) (owner : ℕ → Option User)
    (u : User)
    → Unhindered ans email password token st a
    → Unique st.store.accounts.sessions
    → All (Spares a.id token ((ans.now + session_ttl) / second)) ops
    → owner a.id ≡ some u
    → u.disabled ≡ false
    → ltb later ((ans.now + session_ttl) / second * second) ≡ true
    → let (reply, st') = login ans email password st in
      (reply ≡ Login.session_of a.id none)
      × (resolve_session later policy
            (session_by_token true owner (apply_all owner ops st'.store.accounts.sessions) token)
          ≡ principal_with policy u (mfa_enabled u))
unfolding session_by_token
login_lets_in ans email password token st a ops later policy owner u f unique p there enabled
      early =
    let done = login-opens ans email password token st a f in
    let rows = st.store.accounts.sessions in
    let stored =
      ap (λ (s : FactorStore). s.accounts.sessions) done.1
      ∙ session_stored-sessions ans a.id token st.store in
    let kept = opened-kept owner ans.now a.id token ops rows unique f.free p in
    (
      done.0,
      rw stored (
          resolved_of_view owner later policy u (fresh ans.now a.id)
            (find_token token
              (apply_all owner ops (rows ++ new_session ans.now a.id token rows ∷ [])))
            kept there enabled early),
    )
