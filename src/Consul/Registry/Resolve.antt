-- ===== src/Consul/Registry/Resolve.antt =====
-- Which instance `consulRegistry.Resolve` returns.
use lib_service_discovery.Common.{
  ℕ, zero, suc, ◌%◌, ◌-◌, ◌≤◌, ◌<◌, String, ◌<>◌, ◌≡◌, refl, true, some, List, [], ◌∷◌, arith,
}
use native.Mathlib.Nat.{mod-lt}
use lib_service_discovery.Common.Int.{pos}
use lib_service_discovery.Context.{Ctx}
use lib_service_discovery.Errors.{ok, err, sentinel, wrap, foreign, no_healthy_instances}
use lib_service_discovery.Consul.Agent.{Entry}
use lib_service_discovery.Consul.Api.{Api, Answer, failed, answered}
use lib_service_discovery.Consul.Meta.{service_from_entry}
use lib_service_discovery.Consul.RoundRobin.{
  next_index, next_index_cyclic, int_limit, word_limit, next_index_overflow,
}
use lib_service_discovery.Consul.Registry.{
  returned, panicked, entry_at, count, resolved_at, Registry, resolve,
}

entry_at-lt : (es : List Entry) (i : ℕ) → i < count es → (e : Entry) × (entry_at es i ≡ some e)
unfolding entry_at count
entry_at-lt [] i h = absurd (omega arith)
entry_at-lt (e ∷ es) zero h = (e, refl)
entry_at-lt (e ∷ es) (suc i) h = entry_at-lt es i (omega arith)

-- The first component of the cursor's answer, for one instance as for many.
index_in_range : (n rr : ℕ) → rr < int_limit → (next_index (suc n) rr).0 ≡ pos (rr % suc n)
index_in_range zero rr h = unfold next_index in ground arith
index_in_range (suc n) rr h = ground (arith, next_index_cyclic (suc (suc n)) rr (omega arith) h)

two_of_rest : (n m : ℕ) → 0 < m % suc n → 2 ≤ suc n
two_of_rest zero m h = absurd (omega arith)
two_of_rest (suc n) m h = omega arith

module _ (api : Api) (ctx : Ctx) (name tag : String) (r : Registry api) where
  abbrev answer : Answer
  answer = (api.health ctx name tag true r.allow_stale r.agent).0

  -- A query that fails is returned as the error, wrapped with the name; an empty catalog is
  -- `ErrNoHealthyInstances`, wrapped with the name. Neither moves the cursor.
  pub resolve_fails :
      ((text : String)
        → answer ≡ failed text
        → ((resolve api ctx name tag r).0
            ≡ returned (err (wrap ("consul: resolve " <> name) (foreign text))))
          × ((resolve api ctx name tag r).1.rr ≡ r.rr))
      × ((index : ℕ)
          → answer ≡ answered [] index
          → ((resolve api ctx name tag r).0
              ≡ returned (err (wrap name (sentinel no_healthy_instances))))
            × ((resolve api ctx name tag r).1.rr ≡ r.rr))
  unfolding resolve
  resolve_fails = (λ text h. (ground arith, ground arith), λ index h. (ground arith, ground arith))

  resolve_cons :
      (e : Entry) (es : List Entry) (index : ℕ)
      → answer ≡ answered (e ∷ es) index
      → ((resolve api ctx name tag r).0 ≡ resolved_at (e ∷ es) (next_index (count (e ∷ es)) r.rr).0)
        × ((resolve api ctx name tag r).1.rr ≡ (next_index (count (e ∷ es)) r.rr).1)
  unfolding resolve
  resolve_cons e es index h = (ground arith, ground arith)

  -- Below 2 ^ 63 resolves, a catalog that is not empty yields the instance at the cursor's place
  -- modulo their number, and the access does not panic.
  pub resolve_picks :
      (e : Entry) (es : List Entry) (index : ℕ)
      → answer ≡ answered (e ∷ es) index
      → r.rr < int_limit
      → (x : Entry) × (entry_at (e ∷ es) (r.rr % count (e ∷ es)) ≡ some x)
        × ((resolve api ctx name tag r).0 ≡ returned (ok (service_from_entry x)))
  unfolding count
  resolve_picks e es index h k =
      let (x, found) = entry_at-lt (e ∷ es) (r.rr % suc (count es)) (mod-lt r.rr (omega arith)) in
      (
        x,
        found,
        rw (
          (resolve_cons e es index h).0,
          index_in_range (count es) r.rr k,
          found_at (e ∷ es) (r.rr % suc (count es)) x found,
        ),
      )
    where
      found_at :
          (es : List Entry) (i : ℕ) (x : Entry)
          → entry_at es i ≡ some x
          → resolved_at es (pos i) ≡ returned (ok (service_from_entry x))
      found_at es i x found = unfold resolved_at in rw (found, resolved_at)

  -- From 2 ^ 63 resolves on the index is negative: the access panics wherever the distance of the
  -- cursor to 2 ^ 64 is no multiple of the number of instances.
  pub resolve_panics :
      (e : Entry) (es : List Entry) (index : ℕ)
      → answer ≡ answered (e ∷ es) index
      → int_limit ≤ r.rr
      → r.rr < word_limit
      → 0 < (word_limit - r.rr) % count (e ∷ es)
      → (resolve api ctx name tag r).0 ≡ panicked
  unfolding resolved_at count
  resolve_panics e es index h low high off = rw (
    (resolve_cons e es index h).0,
    next_index_overflow (suc (count es)) r.rr (two_of_rest (count es) _ off) low high
        (λ none_left. omega arith),
  )
