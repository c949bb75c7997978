-- ===== src/Dynamic/Track.antt =====
-- resolver.go: `WatchResolve`, `WatchResolveService` and the loop of updates, each call run from its
-- start to its return. The log lines are left out.
use lib_service_discovery.Common.{
  ℕ, suc, String, Option, none, some, List, [], ◌∷◌, is_empty, if◌then◌else◌,
}
use lib_service_discovery.Context.{Ctx, with_timeout, with_cancel}
use lib_service_discovery.Errors.{Error, Result, ok, err}
use lib_service_discovery.Types.{Endpoint, Service, service_addr, endpoint_for}
use lib_service_discovery.Backend.{Backend}
use lib_service_discovery.Manager.{Manager, DynamicWatch, workload_tag}
use lib_service_discovery.Dynamic.{
  Snapshot, DynamicResolver, empty_dynamic, ResolverOption, apply_resolver_options, or_preferred,
  store_snapshot,
}
use lib_service_discovery.Dynamic.Seed.{
  resolve_endpoint_direct, seed_service_endpoint, fallback_snapshot, snapshot_of,
}

-- What an event's resolve does, in one round of `runResolverUpdates`.
unfoldable pub update_view : Result Endpoint → DynamicResolver → DynamicResolver
update_view (ok e) dr = store_snapshot (snapshot_of e) dr
update_view (err e) dr = dr

unfoldable pub update : Result Service → DynamicResolver → DynamicResolver
update (ok svc) dr = update_view (endpoint_for svc dr.view) dr
update (err e) dr = if is_empty dr.fallback then dr else store_snapshot (fallback_snapshot dr) dr

unfoldable pub update_all : List (Result Service) → DynamicResolver → DynamicResolver
update_all [] dr = dr
update_all (r ∷ rs) dr = update_all rs (update r dr)

-- The resolver of `WatchResolve` before its seed.
unfoldable pub for_address : String → List (Option ResolverOption) → String → DynamicResolver
for_address fallback os preferred =
    or_preferred preferred
      (apply_resolver_options os (record empty_dynamic { fallback = fallback }))

-- The resolver of `WatchResolveService` before its seed: a fallback without an address is none.
unfoldable pub for_service : Service → List (Option ResolverOption) → String → DynamicResolver
for_service fallback os preferred = or_preferred preferred (
    apply_resolver_options os (
      if is_empty fallback.address then empty_dynamic else record empty_dynamic {
        fallback = service_addr fallback;
        fallback_scheme = fallback.scheme;
      }))

-- The seed of an enabled manager, which never fails.
unfoldable pub seed_address : String → Result String → DynamicResolver → DynamicResolver
seed_address fallback (ok a) dr = store_snapshot (record { address = a; scheme = "" }) dr
seed_address fallback (err e) dr = store_snapshot (record { address = fallback; scheme = "" }) dr

unfoldable pub seed_pair : Result Snapshot → DynamicResolver → DynamicResolver
seed_pair (ok s) dr = store_snapshot s dr
seed_pair (err e) dr = store_snapshot (fallback_snapshot dr) dr

-- An address that is stored without a scheme.
unfoldable pub address_snapshot : Result String → Result Snapshot
address_snapshot (err e) = err e
address_snapshot (ok a) = ok (record { address = a; scheme = "" })

-- What wakes the loop: the context is done, the channel is closed, or there is an event.
pub data Wake : Type 0 where
  context_done channel_closed event_received : Wake

module _ (B : Backend) where
  -- The part of `startResolverWatch` behind the answer of `Watch`, with the goroutine to be started.
  unfoldable pub tracking :
      DynamicWatch B
      → Option Error
      → ℕ
      → DynamicResolver
      → Manager B
      → Result DynamicResolver × Manager B
  tracking w (some e) t dr m = (err e, record m { cancelled = t ∷ m.cancelled })
  tracking w none t dr m =
      (ok (record dr { cancel = some t }), record m { dynamic_watches = w ∷ m.dynamic_watches })

  unfoldable pub start_resolver_watch :
      Ctx → DynamicResolver → String → Manager B → Result DynamicResolver × Manager B
  start_resolver_watch ctx dr name m =
      if m.config.enabled
      then (let wctx = with_cancel m.fresh ctx in
          let (stream, e, s) = B.watch wctx name m.backend in
          tracking (record { ctx = wctx; name = name; tag = workload_tag B m; stream = stream }) e
            m.fresh dr (record m { backend = s; fresh = suc m.fresh }))
      else (ok dr, m)

  -- The end of a disabled `WatchResolve` and `WatchResolveService`.
  unfoldable pub pinned :
      Ctx
      → Result Snapshot
      → DynamicResolver
      → String
      → Manager B
      → Result DynamicResolver × Manager B
  pinned ctx (err e) dr name m = (err e, m)
  pinned ctx (ok s) dr name m = start_resolver_watch ctx (store_snapshot s dr) name m

  -- `WatchResolve`
  unfoldable pub watch_resolve :
      Ctx
      → String
      → String
      → List (Option ResolverOption)
      → Manager B
      → Result DynamicResolver × Manager B
  watch_resolve ctx name fallback os m =
      let dr = for_address fallback os m.prefer_view in
      if m.config.enabled
      then (let (r, m₁) =
            resolve_endpoint_direct B (with_timeout m.seed_timeout ctx) name dr.view fallback m in
          start_resolver_watch ctx (seed_address fallback r dr) name m₁)
      else (let (r, m₁) = resolve_endpoint_direct B ctx name dr.view fallback m in
          pinned ctx (address_snapshot r) dr name m₁)

  -- `WatchResolveService`
  unfoldable pub watch_resolve_service :
      Ctx
      → String
      → Service
      → List (Option ResolverOption)
      → Manager B
      → Result DynamicResolver × Manager B
  watch_resolve_service ctx name fallback os m =
      let dr = for_service fallback os m.prefer_view in
      if m.config.enabled
      then (let (r, m₁) =
            seed_service_endpoint B (with_timeout m.seed_timeout ctx) name dr fallback m in
          start_resolver_watch ctx (seed_pair r dr) name m₁)
      else (let (r, m₁) = seed_service_endpoint B ctx name dr fallback m in pinned ctx r dr name m₁)

  -- `runResolverUpdates`, over what wakes it.
  unfoldable pub run_resolver_updates :
      Ctx → String → String → List Wake → DynamicResolver → Manager B → DynamicResolver × Manager B
  run_resolver_updates ctx name tag [] dr m = (dr, m)
  run_resolver_updates ctx name tag (context_done ∷ ws) dr m = (dr, m)
  run_resolver_updates ctx name tag (channel_closed ∷ ws) dr m = (dr, m)
  run_resolver_updates ctx name tag (event_received ∷ ws) dr m =
      let (answer, s) = B.resolve ctx name tag m.backend in
      run_resolver_updates ctx name tag ws (update answer dr) (record m { backend = s })
