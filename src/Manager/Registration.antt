-- ===== src/Manager/Registration.antt =====
-- manager.go: `Register`, `RegisterAsync` and what they call. The log lines are left out.

use lib_service_discovery.Common.{
  ℕ, suc, String, ◌<>◌, Bool, ◌||◌, Option, none, some, List, [], ◌∷◌, ◌++◌, is_empty, is_some,
  if◌then◌else◌,
}
use text.Mathlib.Text.{starts_with}
use lib_service_discovery.Common.Int.{ℤ, pos, is_zero, is_pos}
use lib_service_discovery.Context.{Ctx}
use lib_service_discovery.Errors.{Error, Result, ok, err, sentinel, no_endpoint}
use lib_service_discovery.Types.{
  Endpoint, HealthCheck, Service, host_port, normalize_endpoints, endpoint_for, internal_view,
}
use lib_service_discovery.Platform.{Platform}
use lib_service_discovery.Config.{Config, ttl_with_defaults}
use lib_service_discovery.Backend.{Backend}
use lib_service_discovery.Consul.Backoff.{backoff_duration}
use lib_service_discovery.Manager.{Manager}

-- `healthCheckURL`
unfoldable pub health_check_url : String → String → ℤ → String → String
health_check_url scheme addr port path =
    let s = if is_empty scheme then "http" else scheme in
    let p = if is_empty path then "/health" else path in
    let q = if starts_with p "/" then p else "/" <> p in s <> "://" <> host_port addr port <> q

-- The advertised port when set, else the caller's.
unfoldable pub external_port : Config → ℤ → ℤ
external_port c caller = if is_pos c.advertise_port then c.advertise_port else caller

unfoldable pub advertised_external : Config → ℤ → String → Option Endpoint
unfolding external_port
advertised_external c port scheme =
    if is_empty c.advertise_addr
    then none
    else some (record {
      address = c.advertise_addr;
      port = external_port c port;
      scheme = if is_empty scheme then c.advertise_scheme else scheme;
    })

unfoldable pub advertised_internal : Config → ℤ → Option Endpoint
unfolding external_port
advertised_internal c port =
    if is_empty c.advertise_internal_addr
    then none
    else some (record {
      address = c.advertise_internal_addr;
      port =
          if is_zero c.advertise_internal_port
          then (if is_empty c.advertise_addr then port else external_port c port)
          else c.advertise_internal_port;
      scheme = if is_empty c.advertise_internal_scheme then "http" else c.advertise_internal_scheme;
    })

-- The service of `Register`, with its endpoints taken from the configuration alone.
unfoldable pub advertised : Config → Service → Service
advertised c svc = normalize_endpoints (record svc {
  address = "";
  port = pos 0;
  scheme = "";
  external = advertised_external c svc.port svc.scheme;
  internal = advertised_internal c svc.port;
})

-- The HTTP check's URL, where the service has an endpoint.
unfoldable pub probe_of : Result Endpoint → HealthCheck → HealthCheck
probe_of (err e) hc = hc
probe_of (ok e) hc = record hc { http = health_check_url e.scheme e.address e.port hc.path }

-- The TTL check, with its TTL as `ttlWithDefaults` has it.
unfoldable pub floored : Result String → HealthCheck → Service → Result Service
floored (err e) hc svc = err e
floored (ok ttl) hc svc = ok (record svc { health_check = some (record hc { ttl = ttl }) })

module _ (p : Platform) where
  -- The two modes of a health check.
  unfoldable pub check_mode : HealthCheck → Service → Result Service
  check_mode hc svc =
      if is_empty hc.ttl
      then ok (record svc { health_check = some (probe_of (endpoint_for svc internal_view) hc) })
      else floored (ttl_with_defaults p hc.ttl) hc svc

  -- `applyHealthCheck`
  unfoldable pub apply_health_check : Service → Result Service
  apply_health_check svc = elim svc.health_check [ none ↦ ok svc | some hc ↦ check_mode hc svc ]

  module _ (B : Backend) where
    unfoldable pub tagged : Manager B → Service → Service
    tagged m svc =
        if is_empty m.workload
        then svc
        else record svc { tags = svc.tags ++ (("workload=" <> m.workload) ∷ []) }

    -- The backend's answer, for a service that passed the health check's normalization.
    unfoldable pub register_checked : Ctx → Result Service → Manager B → Option Error × Manager B
    register_checked ctx (err e) m = (some e, m)
    register_checked ctx (ok svc) m =
        let (e, s) = B.register ctx svc m.backend in (e, record m { backend = s })

    unfoldable pub register : Ctx → Service → Manager B → Option Error × Manager B
    register ctx svc m =
        if m.config.enabled
        then (let s = advertised m.config svc in
            if is_some s.external || is_some s.internal
            then register_checked ctx (apply_health_check (tagged m s)) m
            else (some (sentinel no_endpoint), m))
        else (none, m)

    -- What one pass of `RegisterAsync` meets: whether the manager is closed before it, the manager as
    -- the other goroutines left it, and whether the sleep behind a failure ran to its end.
    pub record Attempt : Type 0 where
      pub base_ended : Bool
      pub manager : Manager B
      pub slept : Bool

    pub data AsyncEnd : Type 0 where
      registered stopped retrying not_started : AsyncEnd

    -- The loop of `RegisterAsync`: how it ended, and the delays that it asked for. `retrying` is a
    -- loop that the attempts given do not end.
    unfoldable pub register_async : Ctx → Service → ℕ → List Attempt → AsyncEnd × List ℕ
    register_async ctx svc n [] = (retrying, [])
    register_async ctx svc n (a ∷ rest) =
        let (more, delays) = register_async ctx svc (suc n) rest in
        let (e, m) = register ctx svc a.manager in
        let delay = backoff_duration (pos n) in
        if a.base_ended
        then (stopped, [])
        else if is_some e
        then (if a.slept then (more, delay ∷ delays) else (stopped, delay ∷ []))
        else (registered, [])

    -- `RegisterAsync`: the loop is started where discovery is enabled.
    unfoldable pub start_register_async :
        Ctx → Service → Manager B → List Attempt → AsyncEnd × List ℕ
    start_register_async ctx svc m tries =
        if m.config.enabled then register_async ctx svc 0 tries else (not_started, [])
