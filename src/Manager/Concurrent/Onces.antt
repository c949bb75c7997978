-- ===== src/Manager/Concurrent/Onces.antt =====
-- What the places of goroutines say of a `sync.Once`, and what setting it changes.
use mathlib.Core.Bool.{true≢false}
use lib_service_discovery.Common.{
  ℕ, ◌≡◌, ◌≢◌, sym, ap, ◌∙◌, inl, inr, Bool, true, false, arith, nat_eq, Bool-cases,
}
use lib_service_discovery.Manager.Concurrent.{
  OnceState, unused, held, finished, Call, outside, missed, found, seeding, starting, opening,
  returned, degraded, put,
}
use lib_service_discovery.Manager.Concurrent.Steps.{Holds, is_seeding, eq_of_nat_eq}

pub nat_eq_self : (n : ℕ) → nat_eq n n ≡ true
nat_eq_self n = ground arith

pub put_self : (q : ℕ) (u : OnceState) (f : ℕ → OnceState) → put q u f q ≡ u
put_self q u f = ground arith

unfoldable pub is_unused : OnceState → Bool
is_unused unused = true
is_unused (held i) = false
is_unused finished = false

unfoldable pub is_held_by : ℕ → OnceState → Bool
is_held_by i unused = false
is_held_by i (held j) = nat_eq i j
is_held_by i finished = false

-- Where a test tells two onces apart, replacing one leaves the other.
once_other :
    (test : OnceState → Bool) (once : ℕ → OnceState) (p q : ℕ) (u v : OnceState)
    → test (once p) ≡ true
    → test v ≡ false
    → once q ≡ v
    → put p u once q ≡ v
once_other test once p q u v here there h = elim (Bool-cases (nat_eq p q)) [
  | inr other ↦ rw other h
  | inl same ↦ cc (sym here ∙ ap (λ n. test (once n)) (eq_of_nat_eq p q same) ∙ ap test h ∙ there)
]

-- Replacing a once that a test tells from what the others hold.
pub Holds-put :
    (test : OnceState → Bool) (once : ℕ → OnceState) (p j : ℕ) (u : OnceState) (c : Call)
    → test (once p) ≡ true
    → test (held j) ≡ false
    → test finished ≡ false
    → Holds once j c
    → Holds (put p u once) j c
Holds-put test once p j u outside here a b h = tt
Holds-put test once p j u (missed name) here a b h = tt
Holds-put test once p j u (found name q) here a b h = tt
Holds-put test once p j u (seeding name q) here a b h = once_other test once p q u (held j) here a h
Holds-put test once p j u (starting name q) here a b h =
    once_other test once p q u (held j) here a h
Holds-put test once p j u (opening name q t ctx) here a b h =
    once_other test once p q u (held j) here a h
Holds-put test once p j u (returned name q) here a b h =
    once_other test once p q u finished here b h
Holds-put test once p j u (degraded name) here a b h = tt

is_seeding-Holds :
    (once : ℕ → OnceState) (p j : ℕ) (c : Call)
    → is_seeding p c ≡ true
    → Holds once j c
    → once p ≡ held j
is_seeding-Holds once p j outside h k = cc
is_seeding-Holds once p j (missed name) h k = cc
is_seeding-Holds once p j (found name q) h k = cc
is_seeding-Holds once p j (seeding name q) h k = ap once (eq_of_nat_eq p q h) ∙ k
is_seeding-Holds once p j (starting name q) h k = cc
is_seeding-Holds once p j (opening name q t ctx) h k = cc
is_seeding-Holds once p j (returned name q) h k = cc
is_seeding-Holds once p j (degraded name) h k = cc

-- A goroutine that is not the holder is not before the pointer's seed.
pub not_seeding :
    (once : ℕ → OnceState) (p i j : ℕ) (c : Call)
    → once p ≡ held i
    → nat_eq i j ≡ false
    → Holds once j c
    → is_seeding p c ≡ false
unfolding is_held_by
not_seeding once p i j c here other h = elim (Bool-cases (is_seeding p c)) [
  | inr quiet_place ↦ quiet_place
  | inl at ↦
      cc (sym (ap (is_held_by i) (sym here ∙ is_seeding-Holds once p j c at h)) ∙ nat_eq_self i)
]

-- The once of a pointer, after another or the same was set.
pub put-used :
    (once : ℕ → OnceState) (p q : ℕ) (u : OnceState)
    → u ≢ unused
    → once q ≢ unused
    → put p u once q ≢ unused
put-used once p q u h k = elim (Bool-cases (nat_eq p q)) [
  | inl same ↦ rw same h
  | inr other ↦ rw other k
]

pub held-used : (i : ℕ) → held i ≢ unused
unfolding is_unused
held-used i e = true≢false (sym (ap is_unused e))

pub finished-used : finished ≢ unused
unfolding is_unused
finished-used e = true≢false (sym (ap is_unused e))
