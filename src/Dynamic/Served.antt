-- ===== src/Dynamic/Served.antt =====
-- What a dynamic resolver of resolver.go serves behind a fallback.
use lib_service_discovery.Common.{
  ◌⊎◌, inl, inr, ℕ, String, ◌≡◌, ap, subst, ◌∙◌, false, Option, none, some, List, is_empty, if-All,
}
use lib_service_discovery.Context.{Ctx, with_timeout}
use lib_service_discovery.Errors.{Error, Result, ok, err}
use lib_service_discovery.Types.{EndpointView, Service}
use lib_service_discovery.Backend.{Backend}
use lib_service_discovery.Manager.{Manager, DynamicWatch}
use lib_service_discovery.Manager.Resolve.{fallback_or}
use lib_service_discovery.Dynamic.{
  Snapshot, DynamicResolver, ResolverOption, address_of, store_snapshot,
}
use lib_service_discovery.Dynamic.Seed.{resolve_endpoint_direct, seed_service_endpoint}
use lib_service_discovery.Dynamic.Track.{
  update_all, for_address, for_service, address_snapshot, tracking, start_resolver_watch, pinned,
  watch_resolve, watch_resolve_service,
}
use lib_service_discovery.Dynamic.Address.{
  HasAddress, update_all-HasAddress, Addressed, direct_text-Addressed, snapshot_or-Addressed,
  seed_snapshot-Addressed, seed_address-HasAddress, seed_pair-HasAddress, for_address-fallback,
  for_service-fallback,
}

-- A resolver that is returned has an address.
Returned {ℓ} : {M : Type ℓ} → Result DynamicResolver × M → Type 0
Returned x = elim x.0 [ ok dr ↦ HasAddress dr | err e ↦ Unit ]

module _ (B : Backend) where
  tracking-Returned :
      (w : DynamicWatch B) (e : Option Error) (t : ℕ) (dr : DynamicResolver) (m : Manager B)
      → HasAddress dr
      → Returned (tracking B w e t dr m)
  unfolding tracking Returned address_of
  tracking-Returned w (some e) t dr m h = tt
  tracking-Returned w none t dr m h = record { backed = h.backed; served = h.served }

  start_resolver_watch-Returned :
      (ctx : Ctx) (dr : DynamicResolver) (name : String) (m : Manager B)
      → HasAddress dr
      → Returned (start_resolver_watch B ctx dr name m)
  unfolding start_resolver_watch Returned
  start_resolver_watch-Returned ctx dr name m h =
      if-All Returned m.config.enabled _ _ (tracking-Returned _ _ m.fresh dr _ h) h

  pinned-Returned :
      (ctx : Ctx) (r : Result Snapshot) (dr : DynamicResolver) (name : String) (m : Manager B)
      → is_empty dr.fallback ≡ false
      → Addressed r
      → Returned (pinned B ctx r dr name m)
  unfolding pinned store_snapshot address_of
  pinned-Returned ctx (err e) dr name m k w = unfold Returned in tt
  pinned-Returned ctx (ok s) dr name m k w =
      start_resolver_watch-Returned ctx (store_snapshot s dr) name m
        (record { backed = k; served = w })

  -- The seeds' answers, on both branches of the manager.
  direct-Addressed :
      (ctx : Ctx) (name : String) (view : EndpointView) (fallback : String) (m : Manager B)
      → is_empty fallback ≡ false
      → Addressed (address_snapshot (resolve_endpoint_direct B ctx name view fallback m).0)
  unfolding resolve_endpoint_direct fallback_or address_snapshot
  direct-Addressed ctx name view fallback m h =
      if-All (λ (x : Result String × Manager B). Addressed (address_snapshot x.0)) m.config.enabled
        _ _ (direct_text-Addressed view fallback _ h)
        (if-All (λ r. Addressed (address_snapshot r)) (is_empty fallback) _ _ tt h)

  service-Addressed :
      (ctx : Ctx) (name : String) (dr : DynamicResolver) (fallback : Service) (m : Manager B)
      → is_empty dr.fallback ≡ false
      → Addressed (seed_service_endpoint B ctx name dr fallback m).0
  unfolding seed_service_endpoint
  service-Addressed ctx name dr fallback m h =
      if-All (λ (x : Result Snapshot × Manager B). Addressed x.0) m.config.enabled _ _
        (seed_snapshot-Addressed dr fallback _ h) (snapshot_or-Addressed _ dr fallback h)

  watch_resolve-Returned :
      (ctx : Ctx) (name fallback : String) (os : List (Option ResolverOption)) (m : Manager B)
      → is_empty fallback ≡ false
      → Returned (watch_resolve B ctx name fallback os m)
  unfolding watch_resolve
  watch_resolve-Returned ctx name fallback os m h =
      let dr : DynamicResolver = for_address fallback os m.prefer_view in
      let k : (is_empty dr.fallback ≡ false) =
        ap is_empty (for_address-fallback fallback os m.prefer_view) ∙ h in
      if-All Returned m.config.enabled _ _
        (start_resolver_watch-Returned ctx _ name _ (
          seed_address-HasAddress fallback _ dr h k
            (direct-Addressed (with_timeout m.seed_timeout ctx) name dr.view fallback m h)))
        (pinned-Returned ctx _ dr name _ k (direct-Addressed ctx name dr.view fallback m h))

  watch_resolve_service-Returned :
      (ctx : Ctx) (name : String) (fallback : Service) (os : List (Option ResolverOption))
      (m : Manager B)
      → is_empty fallback.address ≡ false
      → Returned (watch_resolve_service B ctx name fallback os m)
  unfolding watch_resolve_service
  watch_resolve_service-Returned ctx name fallback os m h =
      let dr : DynamicResolver = for_service fallback os m.prefer_view in
      let k = for_service-fallback fallback os m.prefer_view h in
      if-All Returned m.config.enabled _ _
        (start_resolver_watch-Returned ctx _ name _ (
          seed_pair-HasAddress _ dr k
            (service-Addressed (with_timeout m.seed_timeout ctx) name dr fallback m k)))
        (pinned-Returned ctx _ dr name _ k (service-Addressed ctx name dr fallback m k))

  Returned-served :
      (x : Result DynamicResolver × Manager B) (dr : DynamicResolver) (rs : List (Result Service))
      → Returned x
      → x.0 ≡ ok dr
      → is_empty (address_of (update_all rs dr)) ≡ false
  unfolding Returned
  Returned-served x dr rs h made =
      let a : HasAddress dr = subst (λ r. Returned {M = Manager B} (r, x.1)) made h in
      (update_all-HasAddress rs dr a).served

  -- Behind a fallback that is not empty, a resolver of `WatchResolve` or `WatchResolveService` has an
  -- address at every time: after its seed and after any updates, whatever the registry answers.
  pub address_of-nonempty :
      (ctx : Ctx) (name fallback : String) (service_fallback : Service)
      (os : List (Option ResolverOption)) (m : Manager B) (dr : DynamicResolver)
      (rs : List (Result Service))
      → is_empty fallback ≡ false
      → is_empty service_fallback.address ≡ false
      → ((watch_resolve B ctx name fallback os m).0 ≡ ok dr)
        ⊎ ((watch_resolve_service B ctx name service_fallback os m).0 ≡ ok dr)
      → is_empty (address_of (update_all rs dr)) ≡ false
  address_of-nonempty ctx name fallback service_fallback os m dr rs h k (inl made) =
      Returned-served _ dr rs (watch_resolve-Returned ctx name fallback os m h) made
  address_of-nonempty ctx name fallback service_fallback os m dr rs h k (inr made) =
      Returned-served _ dr rs (watch_resolve_service-Returned ctx name service_fallback os m k) made
