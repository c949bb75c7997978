-- ===== src/Consul/Backoff.antt =====
-- consul.go: `backoffDuration`, the delay before a failed poll or registration is tried again.
use lib_service_discovery.Common.{
  ℕ, zero, suc, ◌*◌, ◌^◌, ◌≤◌, ◌<◌, ◌≡◌, refl, ◌∙◌, sym, ap, arith, ltb, leb, if◌then◌else◌,
}
use Prim.Native.Nat.{min}
use native.Mathlib.Nat.{le_of_eq}
use native.Mathlib.Decide.{dec_lt}
use lib_service_discovery.Common.Int.{ℤ, pos, negsuc}

-- 100 milliseconds and 30 seconds, in nanoseconds.
abbrev pub watch_backoff_base : ℕ
watch_backoff_base = 100_000_000

abbrev pub watch_backoff_max : ℕ
watch_backoff_max = 30_000_000_000

-- The delay of an attempt that is not negative. The shift stays far below 2 ^ 63.
backoff_at : ℕ → ℕ
backoff_at attempt =
    if leb 9 attempt
    then watch_backoff_max
    else if ltb watch_backoff_max (watch_backoff_base * 2 ^ attempt)
    then watch_backoff_max
    else watch_backoff_base * 2 ^ attempt

unfoldable pub backoff_duration : ℤ → ℕ
unfolding backoff_at
backoff_duration (negsuc n) = backoff_at 0
backoff_duration (pos n) = backoff_at n

-- Doubling from the base, cut off at the maximum.
pub doubled : ℕ → ℕ
doubled zero = watch_backoff_base
doubled (suc n) = min watch_backoff_max (2 * doubled n)

doubled_capped : (n : ℕ) → doubled n ≤ watch_backoff_max
unfolding doubled
doubled_capped zero = omega arith
doubled_capped (suc n) = omega arith

doubled-max : (n : ℕ) → 9 ≤ n → doubled n ≡ watch_backoff_max
unfolding doubled
doubled-max zero h = absurd (omega arith)
doubled-max (suc n) h = elim (dec_lt n 9) [
  | yes low ↦ rw (eq_eight n low h)
  | no high ↦ omega (arith, doubled-max n (omega arith))
]
  where
    eq_eight : (n : ℕ) → n < 9 → 9 ≤ suc n → n ≡ 8
    eq_eight n low h = omega arith

below_nine : (n : ℕ) → n < 9 → backoff_duration (pos n) ≡ doubled n
unfolding backoff_duration doubled
below_nine zero h = refl
below_nine (suc zero) h = refl
below_nine (suc (suc zero)) h = refl
below_nine (suc (suc (suc zero))) h = refl
below_nine (suc (suc (suc (suc zero)))) h = refl
below_nine (suc (suc (suc (suc (suc zero))))) h = refl
below_nine (suc (suc (suc (suc (suc (suc zero)))))) h = refl
below_nine (suc (suc (suc (suc (suc (suc (suc zero))))))) h = refl
below_nine (suc (suc (suc (suc (suc (suc (suc (suc zero)))))))) h = refl
below_nine (suc (suc (suc (suc (suc (suc (suc (suc (suc n))))))))) h = absurd (omega arith)

from_nine : (n : ℕ) → 9 ≤ n → backoff_duration (pos n) ≡ watch_backoff_max
unfolding backoff_duration
from_nine n h = ground arith

-- The delay of the n-th attempt is the base, doubled n times and cut off at the maximum each time.
pub backoff_duration-doubled : (n : ℕ) → backoff_duration (pos n) ≡ doubled n
backoff_duration-doubled n = elim (dec_lt n 9) [
  | yes low ↦ below_nine n low
  | no high ↦ from_nine n (omega arith) ∙ sym (doubled-max n (omega arith))
]

doubled-step : (n : ℕ) → doubled n ≤ doubled (suc n)
unfolding doubled
doubled-step n = omega (arith, doubled_capped n)

doubled_mono : (m n : ℕ) → m ≤ n → doubled m ≤ doubled n
doubled_mono m zero h = rw (eq_zero m h) (omega arith)
  where
    eq_zero : (m : ℕ) → m ≤ 0 → m ≡ 0
    eq_zero m h = omega arith
doubled_mono m (suc n) h = elim (dec_lt n m) [
  | yes last ↦ le_of_eq (ap doubled (eq_suc last))
  | no earlier ↦ omega (arith, doubled-step n, doubled_mono m n (omega arith))
]
  where
    eq_suc : n < m → m ≡ suc n
    eq_suc last = omega arith

doubled_base : (n : ℕ) → watch_backoff_base ≤ doubled n
unfolding doubled
doubled_base zero = omega arith
doubled_base (suc n) = omega (arith, doubled_base n)

-- A delay is between the base and the maximum, and no later attempt has a shorter one.
pub backoff_duration_bounds :
    (m n : ℕ)
    → m ≤ n
    → (watch_backoff_base ≤ backoff_duration (pos m))
      × (backoff_duration (pos m) ≤ backoff_duration (pos n))
      × (backoff_duration (pos n) ≤ watch_backoff_max)
backoff_duration_bounds m n h = omega (
  arith,
  backoff_duration-doubled m,
  backoff_duration-doubled n,
  doubled_base m,
  doubled_mono m n h,
  doubled_capped n,
)
