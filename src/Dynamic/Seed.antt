-- ===== src/Dynamic/Seed.antt =====
-- resolver.go: the seeds of a dynamic resolver, straight from the registry. The log lines are left
-- out.
use lib_service_discovery.Common.{String, is_empty, if◌then◌else◌}
use lib_service_discovery.Context.{Ctx}
use lib_service_discovery.Errors.{Error, Result, ok, err}
use lib_service_discovery.Types.{Endpoint, EndpointView, Service, endpoint_addr, endpoint_for}
use lib_service_discovery.Backend.{Backend}
use lib_service_discovery.Manager.{Manager, workload_tag}
use lib_service_discovery.Manager.Resolve.{fallback_or, disabled_err}
use lib_service_discovery.Dynamic.{Snapshot, DynamicResolver}

-- A service that was found, through the view.
unfoldable pub direct_view : String → Result Endpoint → Result String
direct_view fallback (ok e) = ok (endpoint_addr e)
direct_view fallback (err e) = fallback_or e fallback

unfoldable pub direct_text : EndpointView → String → Result Service → Result String
unfolding direct_view
direct_text view fallback (ok svc) = direct_view fallback (endpoint_for svc view)
direct_text view fallback (err e) = fallback_or e fallback

-- The fallback's own address and scheme.
unfoldable pub fallback_snapshot : DynamicResolver → Snapshot
fallback_snapshot dr = record { address = dr.fallback; scheme = dr.fallback_scheme }

-- An endpoint's address and scheme.
unfoldable pub snapshot_of : Endpoint → Snapshot
snapshot_of e = record { address = endpoint_addr e; scheme = e.scheme }

-- The fallback, which no view maps, or the error of the resolve.
unfoldable pub snapshot_or : Error → DynamicResolver → Service → Result Snapshot
snapshot_or e dr fallback = if is_empty fallback.address then err e else ok (fallback_snapshot dr)

unfoldable pub seed_view : DynamicResolver → Service → Result Endpoint → Result Snapshot
seed_view dr fallback (ok e) = ok (snapshot_of e)
seed_view dr fallback (err e) = snapshot_or e dr fallback

unfoldable pub seed_snapshot : DynamicResolver → Service → Result Service → Result Snapshot
seed_snapshot dr fallback (ok svc) = seed_view dr fallback (endpoint_for svc dr.view)
seed_snapshot dr fallback (err e) = snapshot_or e dr fallback

module _ (B : Backend) where
  -- `resolveEndpointDirect`
  unfoldable pub resolve_endpoint_direct :
      Ctx → String → EndpointView → String → Manager B → Result String × Manager B
  resolve_endpoint_direct ctx name view fallback m =
      if m.config.enabled
      then (let (answer, s) = B.resolve ctx name (workload_tag B m) m.backend in
          (direct_text view fallback answer, record m { backend = s }))
      else (fallback_or (disabled_err name) fallback, m)

  -- `seedServiceEndpoint`
  unfoldable pub seed_service_endpoint :
      Ctx → String → DynamicResolver → Service → Manager B → Result Snapshot × Manager B
  seed_service_endpoint ctx name dr fallback m =
      if m.config.enabled
      then (let (answer, s) = B.resolve ctx name (workload_tag B m) m.backend in
          (seed_snapshot dr fallback answer, record m { backend = s }))
      else (snapshot_or (disabled_err name) dr fallback, m)
