-- ===== src/Manager/Concurrent/OneSeed.antt =====
-- What first resolves and `Close` guarantee in every order.
use lib_service_discovery.Common.{
  ℕ, String, ◌≡◌, refl, sym, ◌∙◌, subst, inl, inr, Bool, true, false, some, List, [], ◌∷◌, arith,
  nat_eq, All, Bool-cases, ◌==◌, eq_iff, if◌then◌else◌, if_true, if_false,
}
use lib_service_discovery.Common.Dict.{Dict, lookup}
use lib_service_discovery.Manager.Concurrent.{Shared, returned, finished}
use lib_service_discovery.Manager.Concurrent.Steps.{Reach, Inv, Once, was_seeded, At, Holds}
use lib_service_discovery.Manager.Concurrent.Kept.{Reach-Inv}

-- Whether a name was seeded.
pub seeded_name : String → List (String × ℕ) → Bool
seeded_name name [] = false
seeded_name name ((other, p) ∷ ps) = if name == other then true else seeded_name name ps

-- No name was seeded twice.
abbrev pub OncePerName : List (String × ℕ) → Type 0
OncePerName [] = Unit
OncePerName ((name, p) ∷ ps) = (seeded_name name ps ≡ false) × OncePerName ps

-- Two pointers of one name are the same.
clash :
    (born : Dict ℕ) (name other : String) (p q : ℕ)
    → lookup name born ≡ some p
    → lookup other born ≡ some q
    → name ≡ other
    → nat_eq p q ≡ false
    → ⊥
clash born name other p q here there same apart = let e : (p ≡ q) = cc in ground (arith, e)

-- A name that was seeded again would be the same pointer.
seeded_name-was_seeded :
    (born : Dict ℕ) (name : String) (p : ℕ) (ps : List (String × ℕ))
    → lookup name born ≡ some p
    → All (λ (q : String × ℕ). lookup q.0 born ≡ some q.1) ps
    → was_seeded p ps ≡ false
    → seeded_name name ps ≡ false
unfolding seeded_name
seeded_name-was_seeded born name p [] here hs new = refl
seeded_name-was_seeded born name p ((other, q) ∷ ps) here (h, hs) new =
    elim (Bool-cases (nat_eq p q)) [
      | inl same ↦ cc (sym (if_true (nat_eq p q) _ same) ∙ new)
      | inr apart ↦ elim (Bool-cases (name == other)) [
        | inl again ↦ absurd (clash born name other p q here h ((eq_iff name other).0 again) apart)
        | inr distinct ↦ rw distinct (
            seeded_name-was_seeded born name p ps here hs
              (sym (if_false (nat_eq p q) _ apart) ∙ new))
      ]
    ]

Once-OncePerName :
    (born : Dict ℕ) (ps : List (String × ℕ))
    → All (λ (q : String × ℕ). lookup q.0 born ≡ some q.1) ps
    → Once ps
    → OncePerName ps
Once-OncePerName born [] hs once = tt
Once-OncePerName born ((name, p) ∷ ps) (h, hs) (new, once) =
    (seeded_name-was_seeded born name p ps h hs new, Once-OncePerName born ps hs once)

-- In every order of concurrent first resolves and of `Close`, the registry is asked to seed each name
-- at most once.
pub one_seed : {s : Shared} → Reach s → OncePerName s.seeds
one_seed {s} r =
    let inv : Inv s = Reach-Inv r in Once-OncePerName s.born s.seeds inv.born_seeds inv.once_each

-- Two calls that return a resolver of the same name from the map return the same one, and its seed and
-- the start of its watch are over. A call that finds the manager closed returns a resolver that is in
-- no map, and is not among them.
pub same_resolver :
    {s : Shared}
    → Reach s
    → (i j : ℕ) (name : String) (p q : ℕ) → s.calls i ≡ returned name p
    → s.calls j ≡ returned name q
    → (p ≡ q) × (s.once p ≡ finished)
same_resolver {s} r i j name p q at also =
    let inv : Inv s = Reach-Inv r in
    let here : (lookup name s.born ≡ some p) = subst (At s.born) at (inv.placed i) in
    let there : (lookup name s.born ≡ some q) = subst (At s.born) also (inv.placed j) in
    (cc, subst (Holds s.once i) at (inv.holds i))
