-- ===== src/Manager/Concurrent/Steps.antt =====
-- The critical sections of managed_resolver.go in any order, and what they keep.
use lib_service_discovery.Common.{
  ℕ, String, ◌≡◌, ◌≢◌, refl, subst, inl, inr, Bool, true, false, some, List, [], ◌∷◌, arith, nat_eq,
  if◌then◌else◌, All, contains, Bool-cases,
}
use lib_service_discovery.Common.Dict.{Dict, lookup}
use lib_service_discovery.Context.{Ctx}
use lib_service_discovery.Manager.{base_token}
use lib_service_discovery.Manager.Concurrent.{
  OnceState, unused, held, finished, Call, outside, missed, found, seeding, starting, opening,
  returned, degraded, Shared, quiet, put, look_up, create, enter_once, seed, derive, open_watch,
  close_shared,
}

-- One goroutine runs one critical section, or `Close` runs its own.
pub data Step (s : Shared) : Shared → Type 0 where
  looks_up : (i : ℕ) (name : String) → s.calls i ≡ outside → Step s (look_up i name s)
  creates : (i : ℕ) (name : String) → s.calls i ≡ missed name → Step s (create i name s)
  enters :
      (i : ℕ) (name : String) (p : ℕ) → s.calls i ≡ found name p → Step s (enter_once i name p s)
  seeds : (i : ℕ) (name : String) (p : ℕ) → s.calls i ≡ seeding name p → Step s (seed i name p s)
  derives :
      (i : ℕ) (name : String) (p : ℕ) → s.calls i ≡ starting name p → Step s (derive i name p s)
  opens :
      (i : ℕ) (name : String) (p t : ℕ) (ctx : Ctx) (succeeds : Bool)
      → s.calls i ≡ opening name p t ctx
      → Step s (open_watch i name p t ctx succeeds s)
  closes : Step s (close_shared s)

pub data Reach : Shared → Type 0 where
  start : Reach quiet
  next_step : {s t : Shared} → Reach s → Step s t → Reach t

-- The pointer that a goroutine works with, by name, if any.
abbrev pub At : Dict ℕ → Call → Type 0
At born outside = Unit
At born (missed name) = Unit
At born (found name p) = lookup name born ≡ some p
At born (seeding name p) = lookup name born ≡ some p
At born (starting name p) = lookup name born ≡ some p
At born (opening name p t ctx) = lookup name born ≡ some p
At born (returned name p) = lookup name born ≡ some p
At born (degraded name) = Unit

-- What a goroutine's place says of the once.
abbrev pub Holds : (ℕ → OnceState) → ℕ → Call → Type 0
Holds once i outside = Unit
Holds once i (missed name) = Unit
Holds once i (found name p) = Unit
Holds once i (seeding name p) = once p ≡ held i
Holds once i (starting name p) = once p ≡ held i
Holds once i (opening name p t ctx) = once p ≡ held i
Holds once i (returned name p) = once p ≡ finished
Holds once i (degraded name) = Unit

-- Whether a goroutine is just before the seed of a pointer.
abbrev pub is_seeding : ℕ → Call → Bool
is_seeding p (seeding name q) = nat_eq p q
is_seeding p outside = false
is_seeding p (missed name) = false
is_seeding p (found name q) = false
is_seeding p (starting name q) = false
is_seeding p (opening name q t ctx) = false
is_seeding p (returned name q) = false
is_seeding p (degraded name) = false

-- A pointer was seeded.
abbrev pub was_seeded : ℕ → List (String × ℕ) → Bool
was_seeded p [] = false
was_seeded p ((name, q) ∷ ps) = if nat_eq p q then true else was_seeded p ps

-- No pointer was seeded twice.
abbrev pub Once : List (String × ℕ) → Type 0
Once [] = Unit
Once ((name, p) ∷ ps) = (was_seeded p ps ≡ false) × Once ps

pub record Inv (s : Shared) : Type 0 where
  pub mapped : s.closed ≡ false → (name : String) → lookup name s.resolvers ≡ lookup name s.born
  pub drained : s.closed ≡ true → s.resolvers ≡ []
  pub ended : s.closed ≡ true → contains s.cancelled base_token ≡ true
  pub placed : (i : ℕ) → At s.born (s.calls i)
  pub holds : (i : ℕ) → Holds s.once i (s.calls i)
  pub born_seeds : All (λ (q : String × ℕ). lookup q.0 s.born ≡ some q.1) s.seeds
  pub late :
      (p : ℕ)
      → was_seeded p s.seeds ≡ true
      → (s.once p ≢ unused) × ((i : ℕ) → is_seeding p (s.calls i) ≡ false)
  pub once_each : Once s.seeds

pub Inv-quiet : Inv quiet
Inv-quiet = record {
  mapped = λ h name. refl;
  drained = λ h. cc;
  ended = λ h. cc;
  placed = λ i. tt;
  holds = λ i. tt;
  born_seeds = tt;
  late = λ p h. absurd (ground (arith, h));
  once_each = tt;
}

pub eq_of_nat_eq : (i j : ℕ) → nat_eq i j ≡ true → i ≡ j
eq_of_nat_eq i j h = ground arith

-- A predicate of the goroutines holds after one has moved.
pub put-All {ℓ} :
    (P : ℕ → Call → Type ℓ) (i : ℕ) (c : Call) (calls : ℕ → Call)
    → P i c
    → ((j : ℕ) → nat_eq i j ≡ false → P j (calls j))
    → (j : ℕ) → P j (put i c calls j)
put-All P i c calls h k j = elim (Bool-cases (nat_eq i j)) [
  | inl same ↦ rw same (subst (λ n. P n c) (eq_of_nat_eq i j same) h)
  | inr other ↦ rw other (k j other)
]

module _ (s : Shared) (inv : Inv s) where
  -- Only the goroutine's place changes.
  pub move-Inv :
      (i : ℕ) (c : Call)
      → At s.born c
      → Holds s.once i c
      → ((p : ℕ) → is_seeding p c ≡ false)
      → Inv (record s { calls = put i c s.calls })
  move-Inv i c at holding quiet_place = record {
    mapped = inv.mapped;
    drained = inv.drained;
    ended = inv.ended;
    placed = put-All (λ j d. At s.born d) i c s.calls at (λ j other. inv.placed j);
    holds = put-All (Holds s.once) i c s.calls holding (λ j other. inv.holds j);
    born_seeds = inv.born_seeds;
    late = λ p h. (
      (inv.late p h).0,
      put-All (λ j d. is_seeding p d ≡ false) i c s.calls (quiet_place p)
          (λ j other. (inv.late p h).1 j),
    );
    once_each = inv.once_each;
  }
