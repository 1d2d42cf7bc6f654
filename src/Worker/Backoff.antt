-- ===== src/Worker/Backoff.antt =====
-- The wait before a retry (internal/core/backoff.go).
use duskrun.Base.{ℕ, zero, suc, ◌*◌, ◌≤◌, ◌≡◌, ap, ℤ, pos_part, ltb, leb, if◌then◌else◌, arith}
use Prim.Native.Nat.{◌^◌, min}
use native.Mathlib.Nat.{pow-suc}
use duskrun.Model.{second, minute}

-- backoffBase and backoffCap
abbrev pub backoff_base : ℕ
backoff_base = 30 * second

abbrev pub backoff_cap : ℕ
backoff_cap = 8 * minute

-- The loop of `backoffWindow` over the attempts that are left, and what follows it. The products are
-- far below 2 ^ 53, where a float64 is exact.
unfoldable pub backoff_loop : ℕ → ℕ → ℕ
backoff_loop zero w = if ltb backoff_cap w then backoff_cap else w
backoff_loop (suc n) w =
    let w' = w * 2 in
    let rest = backoff_loop n w' in if leb backoff_cap w' then backoff_cap else rest

-- `backoffWindow`
unfoldable pub backoff_window : ℤ → ℕ
unfolding backoff_loop
backoff_window attempt = backoff_loop (pos_part attempt) backoff_base

le_mul_pow : (n w : ℕ) → w ≤ w * 2 ^ n
le_mul_pow zero w = omega arith
le_mul_pow (suc n) w =
    let doubled : w * 2 ^ suc n ≡ w * (2 ^ n * 2) = ap (w *◌) (pow-suc 2 n) in
    omega (arith, doubled, le_mul_pow n w)

backoff_loop-eq-min : (n w : ℕ) → w ≤ backoff_cap → backoff_loop n w ≡ min backoff_cap (w * 2 ^ n)
unfolding backoff_loop
backoff_loop-eq-min zero w h = ground arith
backoff_loop-eq-min (suc n) w h =
    let doubled : w * 2 ^ suc n ≡ w * (2 ^ n * 2) = ap (w *◌) (pow-suc 2 n) in
    let grows : w ≤ w * 2 ^ n = le_mul_pow n w in
    ground (arith, doubled, grows, backoff_loop-eq-min n (w * 2))

-- The window is the base, doubled for each attempt, and never more than the cap.
pub backoff_window-eq-min :
    (attempt : ℤ) → backoff_window attempt ≡ min backoff_cap (backoff_base * 2 ^ pos_part attempt)
unfolding backoff_window
backoff_window-eq-min attempt = backoff_loop-eq-min (pos_part attempt) backoff_base (omega arith)
