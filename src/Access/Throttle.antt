-- ===== src/Access/Throttle.antt =====
-- `loginLimiter` of internal/api/auth.go. The keys are texts, the map is a function, and times count
-- nanoseconds.
use duskrun.Base.{
  ℕ, suc, ◌+◌, ◌*◌, ◌-◌, ◌≤◌, ◌<◌, max, ◌≡◌, refl, ◌∙◌, String, Bool, true, false, Option, none,
  some, List, [], ◌∷◌, ◌==◌, ltb, leb, str_eq, if◌then◌else◌, length, arith,
}
use Prim.Native.Nat.{min}
use duskrun.Base.{eq_iff}
use duskrun.Model.{minute}

pub record Fails : Type 0 where
  pub n : ℕ
  pub last : ℕ

abbrev pub Limiter : Type 0
Limiter = String → Option Fails

-- The window and maxFail of `newLoginLimiter`.
abbrev pub window : ℕ
window = 15 * minute

abbrev pub max_fail : ℕ
max_fail = 10

abbrev pub set_fails : String → Option Fails → Limiter → Limiter
set_fails key f l k = if str_eq k key then f else l k

-- The counter that still counts.
abbrev pub current : ℕ → Option Fails → Option Fails
current now none = none
current now (some f) = if leb window (now - f.last) then none else some f

abbrev locked_for : ℕ → Option Fails → Bool × ℕ
locked_for now none = (false, 0)
locked_for now (some f) = if ltb f.n max_fail then (false, 0) else (true, window - (now - f.last))

-- Whether the key is locked out and for how long; an old counter is dropped.
unfoldable pub blocked : ℕ → String → Limiter → (Bool × ℕ) × Limiter
blocked now key l = let f = current now (l key) in (locked_for now f, set_fails key f l)

abbrev pub count : Option Fails → ℕ
count none = 0
count (some f) = f.n

abbrev pub failed_once : ℕ → Option Fails → Fails
failed_once now f = record { n = suc (count (current now f)); last = now }

-- The loop of `fail`: the worst count and the keys that this attempt locked out.
unfoldable pub fail_keys : ℕ → List String → Limiter → (ℕ × List String) × Limiter
fail_keys now [] l = ((0, []), l)
fail_keys now (k ∷ ks) l =
    let f = failed_once now (l k) in
    let ((worst, locked), l') = fail_keys now ks (set_fails k (some f) l) in
    ((max f.n worst, if f.n == max_fail then k ∷ locked else locked), l')

-- The delay, in nanoseconds.
unfoldable pub fail : ℕ → List String → Limiter → (ℕ × List String) × Limiter
unfolding fail_keys
fail now keys l =
    let ((worst, locked), l') = fail_keys now keys l in
    ((min (worst * 100000000) 2000000000, locked), l')

unfoldable pub succeed : List String → Limiter → Limiter
succeed [] l = l
succeed (k ∷ ks) l = succeed ks (set_fails k none l)

unfoldable pub sweep : ℕ → Limiter → Limiter
sweep now l k = current now (l k)

-- Failures of one key at the given times, and how often one of them locked the key out.
abbrev pub attempts : String → List ℕ → Limiter → ℕ × Limiter
attempts key [] l = (0, l)
attempts key (t ∷ ts) l =
    let ((delay, locked), l1) = fail t (key ∷ []) l in
    let (n, l2) = attempts key ts l1 in (length locked + n, l2)

-- Each time is not before the one before it, and less than the window after it.
abbrev pub InARow : ℕ → List ℕ → Type 0
InARow last [] = Unit
InARow last (t ∷ ts) = (last ≤ t) × (t < last + window) × InARow t ts

abbrev last_of : ℕ → List ℕ → ℕ
last_of last [] = last
last_of last (t ∷ ts) = last_of t ts

str_eq_self : (s : String) → str_eq s s ≡ true
str_eq_self s = (eq_iff s s).1 refl

fail-one :
    (now : ℕ) (key : String) (l : Limiter)
    → (fail now (key ∷ []) l).1 ≡ set_fails key (some (failed_once now (l key))) l
unfolding fail fail_keys
fail-one now key l = refl

current_in_row :
    (last t n : ℕ)
    → last ≤ t
    → t < last + window
    → current t (some (record { n = n; last = last })) ≡ some (record { n = n; last = last })
current_in_row last t n h k =
    let fresh : leb window (t - last) ≡ false = ground (arith, h, k) in rw fresh refl

attempts-count :
    (key : String) (last n : ℕ) (ts : List ℕ) (l : Limiter)
    → l key ≡ some (record { n = n; last = last })
    → InARow last ts
    → let (locks, l') = attempts key ts l in
      (l' key ≡ some (record { n = n + length ts; last = last_of last ts }))
      × (locks ≡ (if ltb n max_fail then (if leb max_fail (n + length ts) then 1 else 0) else 0))
unfolding fail fail_keys
attempts-count key last n [] l e r = (e ∙ ground arith, ground arith)
attempts-count key last n (t ∷ ts) l e r =
    let l1 = set_fails key (some (record { n = suc n; last = t })) l in
    let rest = attempts-count key t (suc n) ts l1 (rw (str_eq_self key) refl) r.2 in
    rw (e, current_in_row last t n r.0 r.1) (rest.0 ∙ ground arith, ground (arith, rest.1))

-- Failures in a row lock a key out exactly at the tenth: after some failures of a key that had none,
-- each less than the window after the one before, the key is blocked exactly if they are ten or more,
-- and exactly one of them reported the lockout.
pub attempts_lock :
    (key : String) (first later : ℕ) (ts : List ℕ) (l : Limiter)
    → l key ≡ none
    → InARow first ts
    → last_of first ts ≤ later
    → later < last_of first ts + window
    → let (locks, l') = attempts key (first ∷ ts) l in
      ((blocked later key l').0.0 ≡ leb max_fail (length (first ∷ ts)))
      × (locks ≡ (if leb max_fail (length (first ∷ ts)) then 1 else 0))
unfolding fail fail_keys blocked
attempts_lock key first later ts l e r from until =
    let l1 = set_fails key (some (record { n = 1; last = first })) l in
    let rest = attempts-count key first 1 ts l1 (rw (str_eq_self key) refl) r in
    let fresh = current_in_row (last_of first ts) later (1 + length ts) from until in
    (rw (e, rest.0, fresh) (ground arith), rw e (ground (arith, rest.1)))
