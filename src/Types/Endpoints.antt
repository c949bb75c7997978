-- ===== src/Types/Endpoints.antt =====
-- What the reconciliation of types.go establishes, and which endpoint a view yields.
use lib_service_discovery.Common.{◌≡◌, ◌≢◌, ◌↔◌, ◌⊎◌, false, none, some, arith, eq_iff}
use lib_service_discovery.Common.Int.{pos}
use lib_service_discovery.Errors.{ok, err, sentinel, endpoint_view_unavailable}
use lib_service_discovery.Types.{
  Endpoint, Service, EndpointView, internal_view, service_addr, endpoint_addr, root_endpoint,
  mirror_flat, normalize_endpoints, endpoint_for, has_flat,
}

-- The flat fields are those of the root endpoint, and zero where there is none.
abbrev pub IsMirrored : Service → Type 0
IsMirrored s = elim (root_endpoint s) [
  | none ↦ (s.address ≡ "") × (s.port ≡ pos 0) × (s.scheme ≡ "")
  | some root ↦ (s.address ≡ root.address) × (s.port ≡ root.port) × (s.scheme ≡ root.scheme)
]

-- Normalising a second time changes nothing.
pub normalize_endpoints_idem :
    (s : Service) → normalize_endpoints (normalize_endpoints s) ≡ normalize_endpoints s
unfolding normalize_endpoints
normalize_endpoints_idem s = ground arith

pub normalize_endpoints-IsMirrored : (s : Service) → IsMirrored (normalize_endpoints s)
unfolding normalize_endpoints
normalize_endpoints-IsMirrored s = ground arith

-- Two services with the same endpoint pointers.
abbrev pub SamePointers : Service → Service → Type 0
SamePointers s t = (s.external ≡ t.external) × (s.internal ≡ t.internal)

-- Two services with the same external pointer yield the same endpoint for every view but the
-- internal one, whatever their internal pointers and flat fields are.
pub endpoint_for-external_only :
    (s t : Service) (view : EndpointView)
    → s.external ≡ t.external
    → view ≢ internal_view
    → endpoint_for s view ≡ endpoint_for t view
unfolding endpoint_for
endpoint_for-external_only s t view same other = ground (arith, eq_iff view internal_view)

-- An endpoint that a view yields is one of the service's two pointers. It is the internal one only
-- under the internal view, and then it is the internal one whenever that is set.
pub endpoint_for-provenance :
    (s : Service) (view : EndpointView) (e : Endpoint)
    → endpoint_for s view ≡ ok e
    → ((s.external ≡ some e) × ((view ≢ internal_view) ⊎ (s.internal ≡ none)))
      ⊎ ((s.internal ≡ some e) × (view ≡ internal_view))
unfolding endpoint_for
endpoint_for-provenance s view e h = ground (arith, eq_iff view internal_view)

-- The internal view fails only with `ErrEndpointViewUnavailable`, and exactly where the service has
-- no root endpoint.
pub endpoint_for-internal_fails :
    (s : Service)
    → (endpoint_for s internal_view ≡ err (sentinel endpoint_view_unavailable))
      ↔ (root_endpoint s ≡ none)
unfolding endpoint_for root_endpoint
endpoint_for-internal_fails s = ground arith

-- After normalisation a service has no root endpoint exactly where it had neither an endpoint pointer
-- nor a flat field that is not zero.
pub normalize_endpoints-reachable :
    (s : Service)
    → (root_endpoint (normalize_endpoints s) ≡ none)
      ↔ ((s.external ≡ none) × (s.internal ≡ none) × (has_flat s ≡ false))
unfolding normalize_endpoints
normalize_endpoints-reachable s = ground arith

-- The mirror is read as an address: `Service.Addr` of a mirrored service is `Endpoint.Addr` of its
-- root endpoint.
pub service_addr-mirror_flat :
    (s : Service) {e : Endpoint}
    → root_endpoint s ≡ some e
    → service_addr (mirror_flat s) ≡ endpoint_addr e
unfolding mirror_flat service_addr endpoint_addr
service_addr-mirror_flat s h = ground arith

-- Mirroring, which is all that a read does, leaves the endpoint pointers alone.
pub mirror_flat-SamePointers : (s : Service) → SamePointers (mirror_flat s) s
unfolding mirror_flat
mirror_flat-SamePointers s = ground arith
