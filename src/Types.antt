-- ===== src/Types.antt =====
-- types.go: endpoints, services, and the reconciliation of a service's endpoint pointers with its
-- flat fields. A nil pointer is `none`. A method on a pointer returns the new value.
pub mod Endpoints
use lib_service_discovery.Common.{
  String, ◌<>◌, Bool, true, false, not, ◌||◌, Option, none, some, List, ◌==◌, is_empty, is_some,
  if◌then◌else◌,
}
use lib_service_discovery.Common.Dict.{Dict}
use lib_service_discovery.Common.Int.{ℤ, pos, is_zero}
use lib_service_discovery.Decimal.{itoa}
use lib_service_discovery.Errors.{Result, ok, err, sentinel, endpoint_view_unavailable}

pub record Endpoint : Type 0 where
  pub address : String
  pub port : ℤ
  pub scheme : String

-- `fmt.Sprintf("%s:%d", address, port)`
unfoldable pub host_port : String → ℤ → String
host_port address port = address <> ":" <> itoa port

-- `Endpoint.Addr`
unfoldable pub endpoint_addr : Endpoint → String
endpoint_addr e = host_port e.address e.port

-- `EndpointView` is a string type: any text is a view.
abbrev pub EndpointView : Type 0
EndpointView = String

abbrev pub external_view : EndpointView
external_view = "external"

abbrev pub internal_view : EndpointView
internal_view = "internal"

pub record HealthCheck : Type 0 where
  pub http : String
  pub interval : String
  pub timeout : String
  pub path : String
  pub ttl : String

pub record Service : Type 0 where
  pub id : String
  pub name : String
  pub address : String
  pub port : ℤ
  pub scheme : String
  pub external : Option Endpoint
  pub internal : Option Endpoint
  pub tags : List String
  pub meta : Dict String
  pub health_check : Option HealthCheck

-- `Service{}`
abbrev pub zero_service : Service
zero_service = record {
  id = "";
  name = "";
  address = "";
  port = pos 0;
  scheme = "";
  external = none;
  internal = none;
  tags = List.[];
  meta = List.[];
  health_check = none;
}

pub data EventType : Type 0 where
  event_registered event_deregistered : EventType

pub record Event : Type 0 where
  pub type : EventType
  pub service : Service

-- `Service.Addr`
unfoldable pub service_addr : Service → String
service_addr s = host_port s.address s.port

-- Some flat field is not zero.
abbrev pub has_flat : Service → Bool
has_flat s = not (is_empty s.address) || not (is_zero s.port) || not (is_empty s.scheme)

unfoldable pub external_endpoint : Service → Option Endpoint
external_endpoint s =
    if is_some s.external
    then s.external
    else if has_flat s
    then some (record { address = s.address; port = s.port; scheme = s.scheme })
    else none

unfoldable pub root_endpoint : Service → Option Endpoint
root_endpoint s = if is_some s.external then s.external else s.internal

unfoldable pub mirror_flat : Service → Service
unfolding root_endpoint
mirror_flat s = elim (root_endpoint s) [
  | none ↦ record s { address = ""; port = pos 0; scheme = "" }
  | some root ↦ record s { address = root.address; port = root.port; scheme = root.scheme }
]

-- The promotion of a service that has the flat fields alone.
unfoldable pub promote : Service → Service
unfolding external_endpoint
promote s =
    if is_some s.external || is_some s.internal
    then s
    else record s { external = external_endpoint s }

unfoldable pub normalize_endpoints : Service → Service
unfolding promote mirror_flat
normalize_endpoints s = mirror_flat (promote s)

unfoldable pub endpoint_for : Service → EndpointView → Result Endpoint
endpoint_for s view =
    if view == internal_view
    then elim s.internal [
      | some e ↦ ok e
      | none ↦ elim s.external [ some e ↦ ok e | none ↦ err (sentinel endpoint_view_unavailable) ]
    ]
    else elim s.external [ some e ↦ ok e | none ↦ err (sentinel endpoint_view_unavailable) ]
