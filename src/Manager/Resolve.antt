-- ===== src/Manager/Resolve.antt =====
-- manager.go: the one-shot resolvers, which read the managed cache. The log lines are left out.
pub mod Answers
use lib_service_discovery.Common.{
  String, ◌<>◌, Bool, true, false, Option, none, some, is_empty, if◌then◌else◌,
}
use lib_service_discovery.Context.{Ctx}
use lib_service_discovery.Errors.{
  Error, Result, ok, err, sentinel, wrap, discovery_disabled_no_fallback, endpoint_view_unavailable,
}
use lib_service_discovery.Types.{
  Endpoint, EndpointView, Service, endpoint_addr, endpoint_for, service_addr,
}
use lib_service_discovery.Backend.{Backend}
use lib_service_discovery.Resolver.{Resolver, empty_err, service}
use lib_service_discovery.Manager.{Manager}
use lib_service_discovery.Manager.Managed.{managed_resolver_for}

-- The fallback where there is one, and else an error.
unfoldable pub fallback_or : Error → String → Result String
fallback_or e fallback = if is_empty fallback then err e else ok fallback

-- The same for a fallback service, which is none without an address.
unfoldable pub service_or : Error → Service → Result Service
service_or e fallback = if is_empty fallback.address then err e else ok fallback

-- The answer with discovery disabled.
unfoldable pub disabled_err : String → Error
disabled_err name = wrap name (sentinel discovery_disabled_no_fallback)

-- `resolveEmptyFallback`
unfoldable pub resolve_empty_fallback : String → Resolver → Result String
resolve_empty_fallback fallback mr = fallback_or (empty_err mr) fallback

unfoldable pub no_scheme : String → EndpointView → Error
no_scheme name view =
    wrap (name <> " has no scheme for view " <> view) (sentinel endpoint_view_unavailable)

-- The last part of `resolveEndpoint`, for an endpoint that was found.
unfoldable pub endpoint_text : String → EndpointView → String → Bool → Endpoint → Result String
endpoint_text name view fallback as_url e =
    if as_url
    then (if is_empty e.scheme
        then fallback_or (no_scheme name view) fallback
        else ok (e.scheme <> "://" <> endpoint_addr e))
    else ok (endpoint_addr e)

-- `resolveEndpoint` on a cached service.
unfoldable pub view_text : String → EndpointView → String → Bool → Result Endpoint → Result String
view_text name view fallback as_url (err e) = fallback_or e fallback
view_text name view fallback as_url (ok e) = endpoint_text name view fallback as_url e

-- The three answers from a resolver.
unfoldable pub address_from : String → Resolver → Result String
address_from fallback mr = elim (service mr) [
  | some svc ↦ ok (service_addr svc)
  | none ↦ resolve_empty_fallback fallback mr
]

unfoldable pub service_from : Service → Resolver → Result Service
service_from fallback mr = elim (service mr) [
  | some svc ↦ ok svc
  | none ↦ service_or (empty_err mr) fallback
]

unfoldable pub endpoint_from : String → EndpointView → String → Bool → Resolver → Result String
endpoint_from name view fallback as_url mr = elim (service mr) [
  | some svc ↦ view_text name view fallback as_url (endpoint_for svc view)
  | none ↦ resolve_empty_fallback fallback mr
]

module _ (B : Backend) where
  -- `Resolve`
  unfoldable pub resolve : Ctx → String → String → Manager B → Result String × Manager B
  resolve ctx name fallback m =
      if m.config.enabled
      then (let (mr, m₁) = managed_resolver_for B ctx name m in (address_from fallback mr, m₁))
      else (fallback_or (disabled_err name) fallback, m)

  -- `ResolveService`
  unfoldable pub resolve_service : Ctx → String → Service → Manager B → Result Service × Manager B
  resolve_service ctx name fallback m =
      if m.config.enabled
      then (let (mr, m₁) = managed_resolver_for B ctx name m in (service_from fallback mr, m₁))
      else (service_or (disabled_err name) fallback, m)

  -- `resolveEndpoint`, which is `ResolveEndpoint` where `as_url` is false.
  unfoldable pub resolve_endpoint :
      Ctx → String → EndpointView → String → Bool → Manager B → Result String × Manager B
  resolve_endpoint ctx name view fallback as_url m =
      if m.config.enabled
      then (let (mr, m₁) = managed_resolver_for B ctx name m in
          (endpoint_from name view fallback as_url mr, m₁))
      else (fallback_or (disabled_err name) fallback, m)

  unfoldable pub resolve_url :
      Ctx → String → EndpointView → String → Manager B → Result String × Manager B
  resolve_url ctx name view fallback m = resolve_endpoint ctx name view fallback true m

  unfoldable pub resolve_preferred_endpoint :
      Ctx → String → String → Manager B → Result String × Manager B
  resolve_preferred_endpoint ctx name fallback m =
      resolve_endpoint ctx name m.prefer_view fallback false m

  unfoldable pub resolve_preferred_url :
      Ctx → String → String → Manager B → Result String × Manager B
  resolve_preferred_url ctx name fallback m = resolve_url ctx name m.prefer_view fallback m
