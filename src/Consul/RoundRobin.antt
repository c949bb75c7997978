-- ===== src/Consul/RoundRobin.antt =====
-- consul.go: the round-robin cursor, `nextIndex`. The cursor is an unsigned 64-bit counter, and its
-- value is converted to a signed `int` before the remainder is taken.
use lib_service_discovery.Common.{
  ℕ, suc, ◌+◌, ◌-◌, ◌%◌, ◌≤◌, ◌<◌, ◌≡◌, ◌≢◌, arith, ltb, leb, if◌then◌else◌,
}
use native.Mathlib.Nat.{mod-lt}
use lib_service_discovery.Common.Int.{ℤ, pos, negsuc}

-- 2 ^ 64 and 2 ^ 63
abbrev pub word_limit : ℕ
word_limit = 18446744073709551616

abbrev pub int_limit : ℕ
int_limit = 9223372036854775808

-- `int(w)` of a `uint64`
to_signed : ℕ → ℤ
to_signed w = if ltb w int_limit then pos w else negsuc (word_limit - 1 - w)

-- Go's `%`: the result has the sign of the dividend.
rem : ℤ → ℕ → ℤ
rem (pos m) n = pos (m % n)
rem (negsuc m) n = if leb (suc m % n) 0 then pos 0 else negsuc (suc m % n - 1)

-- The cursor's value before the call, `w - 1` of the word `w = rr + 1`.
previous : ℕ → ℕ
previous rr = ((rr + 1) % word_limit + word_limit - 1) % word_limit

-- The index, and the cursor after the call: `int(r.rr.Add(1)-1) % n`.
unfoldable pub next_index : ℕ → ℕ → ℤ × ℕ
unfolding to_signed rem previous
next_index n rr =
    if leb n 1 then (pos 0, rr) else (rem (to_signed (previous rr)) n, (rr + 1) % word_limit)

previous_lem : (rr : ℕ) → rr < word_limit → previous rr ≡ rr
unfolding previous
previous_lem rr h = omega arith

-- Below 2 ^ 63 calls the index is the cursor modulo the number of instances, so it is in range, and
-- the cursor moves on by one.
pub next_index_cyclic :
    (n rr : ℕ) → 2 ≤ n → rr < int_limit → (next_index n rr ≡ (pos (rr % n), rr + 1)) × (rr % n < n)
unfolding next_index
next_index_cyclic n rr h k =
    (ground (arith, previous_lem rr (omega arith)), mod-lt rr (omega arith))

-- From the 2 ^ 63-th call on an index is negative, or zero: no instance but the first is reached, and
-- the access panics where the cursor is no multiple of the number of instances.
pub next_index_overflow :
    (n rr : ℕ)
    → 2 ≤ n
    → int_limit ≤ rr
    → rr < word_limit
    → (word_limit - rr) % n ≢ 0
    → (next_index n rr).0 ≡ negsuc ((word_limit - rr) % n - 1)
unfolding next_index
next_index_overflow n rr h k l m = ground (arith, previous_lem rr l)
