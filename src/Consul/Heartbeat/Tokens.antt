-- ===== src/Consul/Heartbeat/Tokens.antt =====
-- The tokens of consul.go's heartbeats: where they stand, and how the critical sections move them.
use lib_service_discovery.Common.{
  ℕ, String, ◌≡◌, refl, ap, ◌⊎◌, inl, inr, Bool, true, false, some, List, [], ◌∷◌, arith, nat_eq,
  contains, Bool-cases, if◌then◌else◌,
}
use lib_service_discovery.Common.Dict.{Dict, lookup, insert, erase}
use lib_service_discovery.Consul.Heartbeat.{cancel_of, cancel_all, remove_start}
use lib_service_discovery.Consul.Heartbeat.Steps.{Has}

-- A token stands in a list.
abbrev pub occurs : ℕ → List (String × ℕ) → Bool
occurs t [] = false
occurs t ((id, u) ∷ xs) = if nat_eq u t then true else occurs t xs

-- No token stands in a list twice.
abbrev pub Distinct : List (String × ℕ) → Type 0
Distinct [] = Unit
Distinct ((id, t) ∷ xs) = (occurs t xs ≡ false) × Distinct xs

pub Has-occurs :
    (id : String) (t : ℕ) (xs : List (String × ℕ)) → Has (id, t) xs → occurs t xs ≡ true
Has-occurs id t [] h = absurd h
Has-occurs id t ((j, u) ∷ xs) (inl e) =
    let k : (u ≡ t) = ap (λ (r : String × ℕ). r.1) e in ground (arith, k)
Has-occurs id t ((j, u) ∷ xs) (inr h) = ground (arith, Has-occurs id t xs h)

pub occurs-remove_start :
    (t u : ℕ) (xs : List (String × ℕ)) → occurs u (remove_start t xs) ≡ true → occurs u xs ≡ true
unfolding remove_start
occurs-remove_start t u [] h = h
occurs-remove_start t u ((j, v) ∷ xs) h = ground (arith, occurs-remove_start t u xs)

pub occurs-removed :
    (t : ℕ) (xs : List (String × ℕ)) → Distinct xs → occurs t (remove_start t xs) ≡ false
unfolding remove_start
occurs-removed t [] d = refl
occurs-removed t ((j, v) ∷ xs) (new, d) = ground (arith, occurs-removed t xs d)

pub Distinct-remove_start :
    (t : ℕ) (xs : List (String × ℕ)) → Distinct xs → Distinct (remove_start t xs)
unfolding remove_start
Distinct-remove_start t [] d = tt
Distinct-remove_start t ((j, v) ∷ xs) (new, d) = elim (Bool-cases (nat_eq v t)) [
  | inl same ↦ rw same d
  | inr other ↦ rw other (not_after v new, Distinct-remove_start t xs d)
]
  where
    not_after : (v : ℕ) → occurs v xs ≡ false → occurs v (remove_start t xs) ≡ false
    not_after v new = ground (arith, occurs-remove_start t v xs)

pub Has-remove_start :
    (t : ℕ) (id : String) (u : ℕ) (xs : List (String × ℕ))
    → nat_eq u t ≡ false
    → Has (id, u) xs
    → Has (id, u) (remove_start t xs)
unfolding remove_start
Has-remove_start t id u [] apart h = h
Has-remove_start t id u ((j, v) ∷ xs) apart h = elim (Bool-cases (nat_eq v t)) [
  | inr other ↦ rw other (go (Has-remove_start t id u xs apart) h)
  | inl same ↦ rw same (gone same h)
]
  where
    go :
        (Has (id, u) xs → Has (id, u) (remove_start t xs))
        → Has (id, u) ((j, v) ∷ xs)
        → Has (id, u) ((j, v) ∷ remove_start t xs)
    go below (inl e) = inl e
    go below (inr k) = inr (below k)

    gone : nat_eq v t ≡ true → Has (id, u) ((j, v) ∷ xs) → Has (id, u) xs
    gone same (inr k) = k
    gone same (inl e) =
        let w : (v ≡ u) = ap (λ (r : String × ℕ). r.1) e in absurd (ground (arith, w))

pub occurs-lookup : (id : String) (t : ℕ) (m : Dict ℕ) → lookup id m ≡ some t → occurs t m ≡ true
unfolding lookup
occurs-lookup id t [] h = cc
occurs-lookup id t ((j, u) ∷ m) h = ground (arith, occurs-lookup id t m)

pub occurs-insert :
    (id : String) (t u : ℕ) (m : Dict ℕ)
    → occurs u (insert id t m) ≡ true
    → (t ≡ u) ⊎ (occurs u m ≡ true)
unfolding insert
occurs-insert id t u [] h = ground arith
occurs-insert id t u ((j, v) ∷ m) h = ground (arith, occurs-insert id t u m)

pub occurs-erase :
    (id : String) (u : ℕ) (m : Dict ℕ) → occurs u (erase id m) ≡ true → occurs u m ≡ true
unfolding erase
occurs-erase id u [] h = h
occurs-erase id u ((j, v) ∷ m) h = ground (arith, occurs-erase id u m)

-- What cancelling adds.
pub cancel_of-contains :
    (id : String) (m : Dict ℕ) (cancelled : List ℕ) (u : ℕ)
    → contains (cancel_of id m cancelled) u ≡ true
    → (lookup id m ≡ some u) ⊎ (contains cancelled u ≡ true)
unfolding cancel_of
cancel_of-contains id m cancelled u h = ground arith

pub cancel_all-contains :
    (m : Dict ℕ) (cancelled : List ℕ) (u : ℕ)
    → contains (cancel_all m cancelled) u ≡ true
    → (occurs u m ≡ true) ⊎ (contains cancelled u ≡ true)
unfolding cancel_all
cancel_all-contains [] cancelled u h = inr h
cancel_all-contains ((j, v) ∷ m) cancelled u h = ground (arith, cancel_all-contains m cancelled u)
