-- ===== src/Consul/Heartbeat/Steps.antt =====
-- The critical sections of consul.go's heartbeats in any order, from any number of goroutines.
use lib_service_discovery.Common.{
  ℕ, String, ◌≡◌, ◌⊎◌, inl, inr, true, List, [], ◌∷◌, nat_eq, subst, contains, All, Bool-cases,
}
use lib_service_discovery.Consul.Heartbeat.{
  Beats, no_beats, begin_beat, store_beat, drop_beat, close_beats, remove_start,
}

-- A service's token stands in a list.
abbrev pub Has : String × ℕ → List (String × ℕ) → Type 0
Has r [] = ⊥
Has r (s ∷ xs) = (s ≡ r) ⊎ Has r xs

-- One goroutine runs one critical section, or a heartbeat's goroutine finds its context cancelled
-- and ends.
pub data Step (b : Beats) : Beats → Type 0 where
  begins : (id : String) → Step b (begin_beat id b)
  stores : (id : String) (t : ℕ) → Has (id, t) b.starting → Step b (store_beat id t b)
  deregisters : (id : String) → Step b (drop_beat id b)
  closes : Step b (close_beats b)
  ends :
      (t : ℕ)
      → contains b.cancelled t ≡ true
      → Step b (record b { running = remove_start t b.running })

pub data Reach : Beats → Type 0 where
  start : Reach no_beats
  next : {b c : Beats} → Reach b → Step b c → Reach c

pub All-map {ℓ κ μ} :
    {A : Type ℓ} (P : A → Type κ) (Q : A → Type μ) (xs : List A)
    → ((a : A) → P a → Q a)
    → All P xs
    → All Q xs
All-map P Q [] f h = tt
All-map P Q (x ∷ xs) f (p, h) = (f x p, All-map P Q xs f h)

pub All-remove_start :
    (P : String × ℕ → Type 0) (t : ℕ) (xs : List (String × ℕ))
    → All P xs
    → All P (remove_start t xs)
unfolding remove_start
All-remove_start P t [] h = tt
All-remove_start P t ((id, u) ∷ xs) (p, h) = elim (Bool-cases (nat_eq u t)) [
  | inl same ↦ rw same h
  | inr other ↦ rw other (p, All-remove_start P t xs h)
]

pub All-Has :
    (P : String × ℕ → Type 0) (r : String × ℕ) (xs : List (String × ℕ)) → All P xs → Has r xs → P r
All-Has P r [] h m = absurd m
All-Has P r (s ∷ xs) (p, h) (inl e) = subst P e p
All-Has P r (s ∷ xs) (p, h) (inr m) = All-Has P r xs h m
