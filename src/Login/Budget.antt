-- ===== src/Login/Budget.antt =====
-- How often the second factor can be guessed (loginMFA of internal/api/handlers_mfa.go).
use duskrun.Base.{
  ℕ, suc, ◌-◌, ◌≤◌, ◌≡◌, refl, ap, sym, ◌∙◌, max, String, true, Option, none, some, if◌then◌else◌,
  str_eq, ltb, arith, Bool-cases, inl, inr, eq_iff, if-keeps,
}
use duskrun.Access.Pending.{Entry, Entries, live, kept, updated, update, get, del}
use duskrun.Access.Throttle.{Limiter}
use duskrun.Users.{Account, get_user}
use duskrun.Login.{Challenge, LoginState, LoginReply, unauthorized, LoginAnswers, check_keys}
use duskrun.Login.SecondStep.{
  Admission, turned_away, let_in, mfa_keys, admit_account, admit_checked, admit_found, admit,
  without_session, count_fail, challenge_fail,
}

pub str_eq_self : (s : String) → str_eq s s ≡ true
str_eq_self s = (eq_iff s s).1 refl

-- The wrong answers that a challenge still allows.
abbrev pub left_of : Option (Entry Challenge) → ℕ
left_of none = 0
left_of (some e) = max 1 (challenge_fail - e.value.fails)

abbrev pub budget : String → LoginState → ℕ
budget key st = left_of (st.challenges key)

abbrev pub wrong : LoginReply → ℕ
wrong unauthorized = 1
wrong _ = 0

module _ (now : ℕ) (key : String) where
  pub left-update :
      (fn : Challenge → Option Challenge) (m : Entries Challenge)
      → (update now key fn m).1 key ≡ updated fn (live now (m key))
  unfolding update
  left-update fn m = rw (str_eq_self key) refl

  pub left-live : (e : Option (Entry Challenge)) → left_of (live now e) ≤ left_of e
  left-live none = omega arith
  left-live (some e) = ground arith

pub left-without_session :
    (e : Option (Entry Challenge)) → left_of (updated without_session e) ≡ left_of e
left-without_session none = refl
left-without_session (some e) = refl

pub left-count_fail :
    (e : Entry Challenge) → suc (left_of (updated count_fail (some e))) ≤ left_of (some e)
left-count_fail e = elim (Bool-cases (ltb (suc e.value.fails) challenge_fail)) [
  | inl h ↦ rw (updated, kept, h) (ground (arith, h))
  | inr h ↦ rw (updated, kept, h) (ground (arith, h))
]

-- The challenge is there and has not expired.
abbrev pub Alive : ℕ → String → LoginState → Type 0
Alive now key st = (e : Entry Challenge) × (live now (st.challenges key) ≡ some e)

-- Whom the first phase lets in has a live challenge; whom it turns away did not guess.
abbrev pub Admits : ℕ → String → LoginState → Admission × LoginState → Type 0
Admits now key before (turned_away reply, st) =
    (wrong reply ≡ 0) × (budget key st ≤ budget key before)
Admits now key before (let_in a, st) = Alive now key st × (budget key st ≤ budget key before)

module _ (digits : ℕ → String) (ans : LoginAnswers) (key : String) where
  admit_account-Admits :
      (before st : LoginState) (found : Option Account)
      → Alive ans.now key st
      → budget key st ≤ budget key before
      → Admits ans.now key before (admit_account key st found)
  unfolding del
  admit_account-Admits before st none alive h = rw (str_eq_self key) (refl, omega arith)
  admit_account-Admits before st (some a) alive h =
      if-keeps (Admits ans.now key before) a.disabled (rw (str_eq_self key) (refl, omega arith))
        (alive, h)

  admit_checked-Admits :
      (before st : LoginState) (i : ℕ) (x : Option ℕ × Limiter)
      → Alive ans.now key st
      → budget key st ≤ budget key before
      → Admits ans.now key before (admit_checked ans key i st x)
  admit_checked-Admits before st i (some retry, l) alive h = (refl, h)
  admit_checked-Admits before st i (none, l) alive h =
      admit_account-Admits before (record st { limiter = l })
        (if ans.reads then get_user i st.store.accounts.users else none) alive h

  live-get : (m : Entries Challenge) → (get ans.now key m).1 key ≡ live ans.now (m key)
  unfolding get
  live-get m = left-update ans.now key (λ v. some v) m ∙ go (live ans.now (m key))
    where
      go : (e : Option (Entry Challenge)) → updated (λ v. some v) e ≡ e
      go none = refl
      go (some e) = refl

  pub live-live_now :
      (e : Option (Entry Challenge)) → live ans.now (live ans.now e) ≡ live ans.now e
  live-live_now none = refl
  live-live_now (some e) = elim (Bool-cases (ltb ans.now e.expires)) [
    | inl h ↦ rw (h, h) refl
    | inr h ↦ rw h refl
  ]

  admit_found-Admits :
      (st : LoginState) (m : Entries Challenge) (o : Option (Entry Challenge))
      → live ans.now (st.challenges key) ≡ o
      → m key ≡ o
      → Admits ans.now key st (admit_found digits ans key (record st { challenges = m }) o)
  admit_found-Admits st m none p q = (refl, rw q (omega arith))
  admit_found-Admits st m (some e) p q =
      let still : live ans.now (m key) ≡ some e =
        ap (live ans.now) (q ∙ sym p) ∙ live-live_now (st.challenges key) ∙ p in
      let less : left_of (m key) ≤ left_of (st.challenges key) =
        rw (q ∙ sym p) (left-live ans.now key (st.challenges key)) in
      admit_checked-Admits st (record st { challenges = m }) e.value.user_id
        (check_keys ans.now (mfa_keys digits ans e.value.user_id) st.limiter) (e, still) less

  pub admit-Admits : (st : LoginState) → Admits ans.now key st (admit digits ans key st)
  unfolding admit get update
  admit-Admits st =
      admit_found-Admits st (get ans.now key st.challenges).1 (live ans.now (st.challenges key))
        refl (live-get st.challenges)
