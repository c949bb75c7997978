-- ===== src/Manager/EndToEnd.antt =====
-- A provider and a consumer that meet in Consul: manager.go's `Register` against `ResolveEndpoint`,
-- with consul.go's backend under both.
use lib_service_discovery.Common.{
  ℕ, ◌%◌, ◌<◌, String, ◌≡◌, sym, ap, subst, ◌∙◌, true, false, ◌||◌, none, some, List, [], ◌∷◌,
  arith, is_some, All, if_true,
}
use lib_service_discovery.Common.Dict.{lookup}
use lib_service_discovery.Context.{Ctx, with_timeout}
use lib_service_discovery.Errors.{Result, ok}
use lib_service_discovery.Types.{
  Endpoint, EndpointView, Service, endpoint_addr, endpoint_for, normalize_endpoints,
}
use lib_service_discovery.Platform.{Platform, IsGo}
use lib_service_discovery.Backend.{Backend}
use lib_service_discovery.Consul.Agent.{Entry, IsStored}
use lib_service_discovery.Consul.Api.{Api, answered}
use lib_service_discovery.Consul.Registration.{registration_for}
use lib_service_discovery.Consul.Meta.{service_from_entry}
use lib_service_discovery.Consul.Meta.RoundTrip.{
  HasEndpoint, IsStorable, published, service_from_entry-registration_for,
}
use lib_service_discovery.Consul.RoundRobin.{int_limit}
use lib_service_discovery.Consul.Registry.{Registry, entry_at, count, resolve}
use lib_service_discovery.Consul.Registry.Resolve.{resolve_picks}
use lib_service_discovery.Consul.AsBackend.{consul_backend, Guarded, answer_of}
use lib_service_discovery.Manager.{Manager, workload_tag}
use lib_service_discovery.Manager.Registration.{advertised_external, advertised_internal}
use lib_service_discovery.Manager.Resolve.{resolve_endpoint}
use lib_service_discovery.Manager.Publish.{IsPublished}
use lib_service_discovery.Dynamic.Seed.{direct_view, direct_text, resolve_endpoint_direct}
use lib_service_discovery.Dynamic.Mirror.{resolve_endpoint_direct-resolve_endpoint}

entry_at-All :
    (P : Entry → Type 0) (es : List Entry) (i : ℕ) (x : Entry)
    → All P es
    → entry_at es i ≡ some x
    → P x
unfolding entry_at
entry_at-All P [] i x hs found = absurd cc
entry_at-All P (e ∷ es) ℕ.zero x (h, hs) found = subst P (cc) h
entry_at-All P (e ∷ es) (ℕ.suc i) x (h, hs) found = entry_at-All P es i x hs found

-- A service with an endpoint keeps its endpoints.
normalize_endpoints-kept :
    (s : Service)
    → HasEndpoint s
    → ((normalize_endpoints s).external ≡ s.external)
      × ((normalize_endpoints s).internal ≡ s.internal)
unfolding normalize_endpoints
normalize_endpoints-kept s h = (ground arith, ground arith)

endpoint_for-same :
    (a b : Service) (view : EndpointView)
    → a.external ≡ b.external
    → a.internal ≡ b.internal
    → endpoint_for a view ≡ endpoint_for b view
unfolding endpoint_for
endpoint_for-same a b view h k = ground arith

-- A service's endpoints are the configured ones.
abbrev pub configured : {B : Backend} → Manager B → Service → Service
configured m svc = record svc {
  external = advertised_external m.config svc.port svc.scheme;
  internal = advertised_internal m.config svc.port;
}

-- What a reader sees of a published service has the configured endpoints.
pub published-configured :
    {B : Backend} (m : Manager B) (svc s : Service) (view : EndpointView)
    → s.external ≡ advertised_external m.config svc.port svc.scheme
    → s.internal ≡ advertised_internal m.config svc.port
    → HasEndpoint s
    → endpoint_for (published s) view ≡ endpoint_for (configured m svc) view
published-configured m svc s view x i h =
    let (kx, ki) = normalize_endpoints-kept s h in
    endpoint_for-same (published s) (configured m svc) view (kx ∙ x) (ki ∙ i)

-- What a service of Consul's catalog must be, so that a reader gets the endpoints back.
pub record IsReadable (s : Service) : Type 0 where
  pub has_endpoint : HasEndpoint s
  pub external : IsStorable s.external
  pub internal : IsStorable s.internal

service_from_entry-readable :
    (s : Service) (x : Entry)
    → IsReadable s
    → IsStored (registration_for s) x
    → service_from_entry x ≡ published s
service_from_entry-readable s x r stored =
    let (kx, ki) = normalize_endpoints-kept s r.has_endpoint in
    service_from_entry-registration_for s x
      (ap (λ o. is_some o || is_some (normalize_endpoints s).internal) kx
        ∙ ap (λ o. is_some s.external || is_some o) ki
        ∙ r.has_endpoint)
      (subst IsStorable (sym kx) r.external) (subst IsStorable (sym ki) r.internal) stored

module _ (api : Api) (recovered : Result Service) where
  abbrev pub Consul : Backend
  Consul = consul_backend api recovered

  -- The registry's answer to a query that Consul answers with replicas of one service.
  pub resolve-published :
      (ctx : Ctx) (name tag : String) (g : Guarded api) (s : Service) (e : Entry) (es : List Entry)
      (index : ℕ)
      → IsReadable s
      → g.registry.rr < int_limit
      → (api.health ctx name tag true g.registry.allow_stale g.registry.agent).0
        ≡ answered (e ∷ es) index
      → All (IsStored (registration_for s)) (e ∷ es)
      → ((Consul.resolve ctx name tag g).0 ≡ ok (published s))
        × ((Consul.resolve ctx name tag g).1.unwound ≡ g.unwound)
  unfolding answer_of
  resolve-published ctx name tag g s e es index readable low shown stored =
      let r : Registry api = g.registry in
      let (x, found, picked) = resolve_picks api ctx name tag r e es index shown low in
      let after : Registry api = (resolve api ctx name tag r).1 in
      let end = ap (λ a. answer_of api recovered a after g.unwound) picked in
      (
        ap (λ (y : Result Service × Guarded api). y.0) end
            ∙ ap ok (
                service_from_entry-readable s x readable (
                  entry_at-All (IsStored (registration_for s)) (e ∷ es) (r.rr % count (e ∷ es)) x
                    stored found)),
        ap (λ (y : Result Service × Guarded api). y.1.unwound) end,
      )

  module _ (p : Platform) (go : IsGo p) where
    -- What a provider publishes is what a consumer resolves: take a service that a provider's
    -- `Register` sends to Consul, and a consumer's query that Consul answers with one or more
    -- replicas of it. Then the consumer's first `ResolveEndpoint` of the name, for whatever view the
    -- provider's configuration has an endpoint for, returns the address and port of that endpoint.
    pub resolve_endpoint-published :
        (provider : Manager Consul) (svc s : Service)
        → IsPublished p go Consul provider svc s
        → IsReadable s
        → (ctx : Ctx) (name : String) (view : EndpointView) (fallback : String)
          (consumer : Manager Consul) (e : Entry) (es : List Entry) (index : ℕ) (target : Endpoint)
        → consumer.config.enabled ≡ true
        → consumer.closed ≡ false
        → lookup name consumer.resolvers ≡ none
        → consumer.backend.registry.rr < int_limit
        → (api.health
            (with_timeout consumer.seed_timeout ctx)
            name
            (workload_tag Consul consumer)
            true
            consumer.backend.registry.allow_stale
            consumer.backend.registry.agent).0
          ≡ answered (e ∷ es) index
        → All (IsStored (registration_for s)) (e ∷ es)
        → endpoint_for (configured provider svc) view ≡ ok target
        → (resolve_endpoint Consul ctx name view fallback false consumer).0
          ≡ ok (endpoint_addr target)
    unfolding resolve_endpoint_direct direct_text direct_view
    resolve_endpoint-published provider svc s sent readable ctx name view fallback consumer e es
          index target on live missing low shown stored reached =
        let query : Ctx = with_timeout consumer.seed_timeout ctx in
        let seed =
          resolve-published query name (workload_tag Consul consumer) consumer.backend s e es index
            readable low shown stored in
        let there =
          published-configured provider svc s view sent.external sent.internal
            readable.has_endpoint in
        sym (
          resolve_endpoint_direct-resolve_endpoint Consul ctx name view fallback consumer missing
            live)
        ∙ ap (λ (x : Result String × Manager Consul). x.0) (if_true consumer.config.enabled _ on)
        ∙ ap (direct_text view fallback) seed.0
        ∙ ap (direct_view fallback) (there ∙ reached)
