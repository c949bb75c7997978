-- ===== src/Manager/Retry.antt =====
-- The loop of `RegisterAsync`.
use lib_service_discovery.Common.{
  ℕ, suc, ◌≡◌, true, false, List, [], ◌∷◌, ◌++◌, arith, All, is_some,
}
use lib_service_discovery.Context.{Ctx}
use lib_service_discovery.Types.{Service}
use lib_service_discovery.Platform.{Platform}
use lib_service_discovery.Backend.{Backend}
use lib_service_discovery.Consul.Backoff.{doubled, backoff_duration-doubled}
use lib_service_discovery.Manager.Registration.{
  register, register_async, Attempt, registered, stopped,
}

module _ (p : Platform) (B : Backend) (ctx : Ctx) (svc : Service) where
  -- An attempt of an open manager that the registry refused, and whose delay ran to its end.
  abbrev pub Fails : Attempt p B → Type 0
  Fails a =
      (a.base_ended ≡ false)
      × (is_some (register p B ctx svc a.manager).0 ≡ true)
      × (a.slept ≡ true)

  -- The doubling delays of the given attempts, from a number on.
  pub delays : ℕ → List (Attempt p B) → List ℕ
  delays n [] = []
  delays n (a ∷ tries) = doubled n ∷ delays (suc n) tries

  -- However long the registry refuses an open manager, `RegisterAsync` tries again, as long as its
  -- delays run to their end, with doubling delays, and registers at the first attempt that is accepted.
  pub register_async_recovers :
      (n : ℕ) (tries : List (Attempt p B)) (a : Attempt p B) (rest : List (Attempt p B))
      → All Fails tries
      → a.base_ended ≡ false
      → is_some (register p B ctx svc a.manager).0 ≡ false
      → register_async p B ctx svc n (tries ++ (a ∷ rest)) ≡ (registered, delays n tries)
  unfolding register_async delays
  register_async_recovers n [] a rest h live accepted = ground arith
  register_async_recovers n (b ∷ tries) a rest ((open_, refused, slept), h) live accepted = ground (
    arith,
    register_async_recovers (suc n) tries a rest h live accepted,
    backoff_duration-doubled n,
  )

  -- An attempt that finds the manager closed ends the loop without having registered, whatever would
  -- follow, after attempts that the registry refused.
  pub register_async_stops :
      (n : ℕ) (tries : List (Attempt p B)) (a : Attempt p B) (rest : List (Attempt p B))
      → All Fails tries
      → a.base_ended ≡ true
      → register_async p B ctx svc n (tries ++ (a ∷ rest)) ≡ (stopped, delays n tries)
  unfolding register_async delays
  register_async_stops n [] a rest h ended = ground arith
  register_async_stops n (b ∷ tries) a rest ((open_, refused, slept), h) ended =
      ground (arith, register_async_stops (suc n) tries a rest h ended, backoff_duration-doubled n)
