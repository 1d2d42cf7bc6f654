-- ===== src/Login/Uniform.antt =====
-- What a failed login tells (internal/api/handlers_auth.go).
use duskrun.Base.{
  ℕ, ◌≡◌, refl, String, ◌||◌, Option, none, some, List, str_eq, Bool-cases, inl, inr,
}
use duskrun.Access.Throttle.{Limiter, sweep}
use duskrun.Factors.{FactorStore}
use duskrun.Login.{
  LoginState, LoginReply, LoginAnswers, limit_keys, check_keys, get_user_by_email, opened,
  login_unblocked, login_checked, login,
}

-- The reply and what a later login sees of this one.
abbrev Alike : LoginReply × LoginState → LoginReply × LoginState → Type 0
Alike x y = (x.0 ≡ y.0) × (x.1.limiter ≡ y.1.limiter)

-- The password opens no account of the store.
abbrev pub Rejected : LoginAnswers → String → String → FactorStore → Type 0
Rejected ans email password s =
    opened ans password (get_user_by_email email s.accounts.users) ≡ none

login_opened-Alike :
    (ans : LoginAnswers) (keys : List String) (email password : String) (st : LoginState)
    (other : FactorStore)
    → Rejected ans email password st.store
    → Rejected ans email password other
    → Alike
        (login_unblocked ans keys email password st)
        (login_unblocked ans keys email password (record st { store = other }))
unfolding login_unblocked
login_opened-Alike ans keys email password st other h k = elim (Bool-cases ans.admitted) [
  | inr a ↦ rw a (refl, refl)
  | inl a ↦ elim (Bool-cases ans.reads) [
    | inr r ↦ rw (a, r) (refl, refl)
    | inl r ↦ rw (a, r, h, k) (refl, refl)
  ]
]

login_checked-Alike :
    (ans : LoginAnswers) (keys : List String) (email password : String) (st : LoginState)
    (other : FactorStore) (x : Option ℕ × Limiter)
    → Rejected ans email password st.store
    → Rejected ans email password other
    → Alike
        (login_checked ans keys email password st x)
        (login_checked ans keys email password (record st { store = other }) x)
login_checked-Alike ans keys email password st other (some retry, l) h k = (refl, refl)
login_checked-Alike ans keys email password st other (none, l) h k =
    login_opened-Alike ans keys email password (record st { limiter = sweep ans.now l }) other h k

-- A failed login does not tell whether there is an account: where the password opens none, be it that
-- no account has the email, that it is disabled or that the password is wrong, the reply and the
-- limiter afterwards are the same, for any two stores and the same limiter before.
pub login_uniform :
    (ans : LoginAnswers) (email password : String) (st : LoginState) (other : FactorStore)
    → Rejected ans email password st.store
    → Rejected ans email password other
    → Alike (login ans email password st) (login ans email password (record st { store = other }))
unfolding login
login_uniform ans email password st other h k =
    let keys = limit_keys "email:" email "ip:" ans.ip in
    elim (Bool-cases (str_eq email "" || str_eq password "")) [
      | inl e ↦ rw e (refl, refl)
      | inr e ↦ rw e (
          login_checked-Alike ans keys email password st other (check_keys ans.now keys st.limiter)
            h k)
    ]
