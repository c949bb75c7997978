-- ===== src/Dynamic/Follow.antt =====
-- A dynamic resolver of resolver.go over the Consul backend, against a provider's `Register`.
use lib_service_discovery.Common.{
  ℕ, zero, suc, ◌<◌, String, ◌≡◌, refl, ap, ◌∙◌, true, List, [], ◌∷◌, All,
}
use lib_service_discovery.Context.{Ctx}
use lib_service_discovery.Errors.{Result, ok}
use lib_service_discovery.Types.{Endpoint, Service, endpoint_for}
use lib_service_discovery.Platform.{Platform, IsGo}
use lib_service_discovery.Backend.{Backend}
use lib_service_discovery.Consul.Agent.{Entry, IsStored}
use lib_service_discovery.Consul.Api.{Api, answered}
use lib_service_discovery.Consul.Meta.RoundTrip.{published}
use lib_service_discovery.Consul.Registration.{registration_for}
use lib_service_discovery.Consul.RoundRobin.{int_limit}
use lib_service_discovery.Manager.{Manager}
use lib_service_discovery.Manager.Publish.{IsPublished}
use lib_service_discovery.Manager.EndToEnd.{
  IsReadable, Consul, resolve-published, configured, published-configured,
}
use lib_service_discovery.Dynamic.{DynamicResolver, address_of, scheme_of, store_snapshot}
use lib_service_discovery.Dynamic.Seed.{snapshot_of}
use lib_service_discovery.Dynamic.Track.{
  Wake, event_received, update, update_view, run_resolver_updates,
}
use lib_service_discovery.Dynamic.Latest.{current, update_all-SameTarget}
use lib_service_discovery.Dynamic.Loop.{heard, answers, run_resolver_updates-answers}
use lib_service_discovery.Consul.AsBackend.{Guarded}

-- A run of events that wake the loop.
abbrev pub events : ℕ → List Wake
events zero = []
events (suc n) = event_received ∷ events n

module _ (B : Backend) (ctx : Ctx) (name tag : String) where
  -- Another event behind a run of events.
  run-event :
      (n : ℕ) (dr : DynamicResolver) (m : Manager B)
      → run_resolver_updates B ctx name tag (events (suc n)) dr m ≡ (
          let (dr₁, m₁) = run_resolver_updates B ctx name tag (events n) dr m in
          let (answer, s) = B.resolve ctx name tag m₁.backend in
          (update answer dr₁, record m₁ { backend = s }))
  unfolding run_resolver_updates
  run-event zero dr m = refl
  run-event (suc n) dr m =
      let (answer, s) = B.resolve ctx name tag m.backend in
      run-event n (update answer dr) (record m { backend = s })

  -- No update changes the view.
  run-view :
      (ws : List Wake) (dr : DynamicResolver) (m : Manager B)
      → (run_resolver_updates B ctx name tag ws dr m).0.view ≡ dr.view
  run-view ws dr m =
      let (rs, s) = answers B ctx name tag (heard ws) m.backend in
      ap (λ (x : DynamicResolver × Manager B). x.0.view)
        (run_resolver_updates-answers B ctx name tag ws dr m)
      ∙ (update_all-SameTarget rs dr).same_view

-- A published service that is found decides what is read.
update-published :
    (dr : DynamicResolver) (svc : Service) (target : Endpoint)
    → endpoint_for svc dr.view ≡ ok target
    → current (update (ok svc) dr) ≡ snapshot_of target
unfolding update update_view current store_snapshot address_of scheme_of
update-published dr svc target found = ap (λ r. current (update_view r dr)) found

module _ (api : Api) (recovered : Result Service) (p : Platform) (go : IsGo p) where
  -- A dynamic resolver follows a provider: when its loop has heard of a change, and Consul answers the
  -- query that follows with one or more replicas of a service that a provider's `Register` sent, the
  -- resolver reads as the address and the scheme of the endpoint that the provider's configuration
  -- has for the resolver's view, whatever it heard of before.
  pub run_resolver_updates-published :
      (provider : Manager (Consul api recovered)) (svc s : Service)
      → IsPublished p go (Consul api recovered) provider svc s
      → IsReadable s
      → (ctx : Ctx) (name tag : String) (n : ℕ) (dr : DynamicResolver)
        (consumer : Manager (Consul api recovered)) (g : Guarded api) (e : Entry) (es : List Entry)
        (index : ℕ) (target : Endpoint)
      → (run_resolver_updates (Consul api recovered) ctx name tag (events n) dr consumer).1.backend
        ≡ g
      → g.registry.rr < int_limit
      → (api.health ctx name tag true g.registry.allow_stale g.registry.agent).0
        ≡ answered (e ∷ es) index
      → All (IsStored (registration_for s)) (e ∷ es)
      → endpoint_for (configured provider svc) dr.view ≡ ok target
      → current
          (run_resolver_updates (Consul api recovered) ctx name tag (events (suc n)) dr consumer).0
        ≡ snapshot_of target
  run_resolver_updates-published provider svc s sent readable ctx name tag n dr consumer g e es
        index target at low shown stored reached =
      let B : Backend = Consul api recovered in
      let (dr₁, m₁) = run_resolver_updates B ctx name tag (events n) dr consumer in
      let there =
        published-configured provider svc s dr.view sent.external sent.internal
          readable.has_endpoint in
      let seen : ((B.resolve ctx name tag m₁.backend).0 ≡ ok (published s)) =
        ap (λ b. (B.resolve ctx name tag b).0) at
        ∙ (resolve-published api recovered ctx name tag g s e es index readable low shown
            stored).0 in
      ap (λ (x : DynamicResolver × Manager B). current x.0) (run-event B ctx name tag n dr consumer)
      ∙ ap (λ a. current (update a dr₁)) seen
      ∙ update-published dr₁ (published s) target (
          ap (endpoint_for (published s)) (run-view B ctx name tag (events n) dr consumer)
          ∙ there
          ∙ reached)
