-- ===== src/Login/Attempts.antt =====
-- Attempts at the second step of one login (loginMFA of internal/api/handlers_mfa.go).
use duskrun.Base.{ℕ, ◌+◌, ◌≤◌, ◌≡◌, ap, String, none, some, List, [], ◌∷◌, arith}
use duskrun.Access.Pending.{Entry}
use duskrun.Login.{Challenge, LoginState, LoginAnswers}
use duskrun.Login.SecondStep.{Method, FactorAnswers, challenge_fail, login_mfa}
use duskrun.Login.Budget.{left_of, budget, wrong}
use duskrun.Login.Guesses.{login_mfa-Spends}

-- A request with its answers.
pub record Attempt : Type 0 where
  pub answers : LoginAnswers
  pub factors : FactorAnswers
  pub method : Method

-- How many of the requests with one token are wrong answers, one request after the other.
abbrev pub guesses : (ℕ → String) → String → List Attempt → LoginState → ℕ × LoginState
guesses digits key [] st = (0, st)
guesses digits key (a ∷ attempts) st =
    let (reply, st') = login_mfa digits a.answers a.factors key a.method st in
    let (n, st'') = guesses digits key attempts st' in (wrong reply + n, st'')

guesses-budget :
    (digits : ℕ → String) (key : String) (attempts : List Attempt) (st : LoginState)
    → (guesses digits key attempts st).0 ≤ budget key st
guesses-budget digits key [] st = omega arith
guesses-budget digits key (a ∷ attempts) st = omega (
  arith,
  login_mfa-Spends digits a.answers a.factors key a.method st,
  guesses-budget digits key attempts (login_mfa digits a.answers a.factors key a.method st).1,
)

-- A challenge allows five wrong answers: of any requests with one token that are handled one after the
-- other, whatever their methods, times and answers, at most five are answered as a wrong code if the
-- challenge has no failures yet, and none if there is no challenge.
pub guesses_bounded :
    (digits : ℕ → String) (key : String) (attempts : List Attempt) (st : LoginState)
    → ((e : Entry Challenge)
        → st.challenges key ≡ some e
        → e.value.fails ≡ 0
        → (guesses digits key attempts st).0 ≤ challenge_fail)
      × (st.challenges key ≡ none → (guesses digits key attempts st).0 ≡ 0)
guesses_bounded digits key attempts st =
    let within = guesses-budget digits key attempts st in
    ((λ e h n. omega (arith, within, ap left_of h, n)), (λ h. omega (arith, within, ap left_of h)))
