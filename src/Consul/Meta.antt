-- ===== src/Consul/Meta.antt =====
-- consul.go: what a registration writes into the catalog's metadata, and how an entry of the
-- catalog is read back.
pub mod Lookup
pub mod RoundTrip
pub mod Keys
pub mod AsMap
use lib_service_discovery.Common.{
  String, ◌<>◌, Bool, true, false, not, ◌||◌, Option, none, some, List, [], ◌∷◌, ◌==◌, is_empty,
  is_some, if◌then◌else◌,
}
use mathlib.Core.Option
use lib_service_discovery.Common.Dict.{Dict, lookup, insert, erase}
use lib_service_discovery.Common.Int.{ℤ, pos}
use lib_service_discovery.Decimal.{itoa, atoi}
use lib_service_discovery.Consul.Agent.{Entry, CheckStatus, critical}
use lib_service_discovery.Types.{
  Endpoint, Service, normalize_endpoints, mirror_flat, EventType, event_registered,
  event_deregistered,
}

unfoldable pub reserved_meta_keys : List String
reserved_meta_keys =
    "scheme" ∷ "external_address" ∷ "external_port" ∷ "external_scheme" ∷ "internal_address"
    ∷ "internal_port" ∷ "internal_scheme" ∷ []

-- `for _, k := range keys { delete(meta, k) }`
erase_all : List String → Dict String → Dict String
erase_all [] meta = meta
erase_all (k ∷ ks) meta = erase_all ks (erase k meta)

write_external : Option Endpoint → Dict String → Dict String
write_external none meta = meta
write_external (some e) meta =
    let meta₁ = insert "external_port" (itoa e.port) (insert "external_address" e.address meta) in
    if is_empty e.scheme
    then meta₁
    else insert "scheme" e.scheme (insert "external_scheme" e.scheme meta₁)

write_internal : Option Endpoint → Dict String → Dict String
write_internal none meta = meta
write_internal (some e) meta =
    let meta₁ = insert "internal_port" (itoa e.port) (insert "internal_address" e.address meta) in
    if is_empty e.scheme then meta₁ else insert "internal_scheme" e.scheme meta₁

-- The metadata of a service that is normalised already.
unfoldable pub derive_meta : Service → Dict String
unfolding erase_all write_external write_internal reserved_meta_keys
derive_meta s =
    if is_some s.external || is_some s.internal
    then write_internal s.internal (write_external s.external (erase_all reserved_meta_keys s.meta))
    else s.meta

unfoldable pub service_meta : Service → Dict String
unfolding derive_meta
service_meta s = derive_meta (normalize_endpoints s)

unfoldable pub atoi_safe : String → ℤ
atoi_safe s = Option.get_or (atoi s) (pos 0)

-- `meta[k]`, the zero value where the key is missing
unfoldable pub meta_value : String → Dict String → String
meta_value k meta = Option.get_or (lookup k meta) ""

-- An endpoint from the values of its three keys.
unfoldable pub endpoint_of : String → String → String → Endpoint
endpoint_of address port scheme = record {
  address = address;
  port = atoi_safe port;
  scheme = scheme;
}

-- The switch over the external endpoint's three cases.
unfoldable pub read_external : Entry → Option Endpoint
read_external e =
    if not (is_empty (meta_value "external_address" e.meta))
    then some (
        endpoint_of (meta_value "external_address" e.meta) (meta_value "external_port" e.meta)
          (meta_value "external_scheme" e.meta))
    else if is_empty (meta_value "internal_address" e.meta)
    then some (record { address = e.address; port = e.port; scheme = meta_value "scheme" e.meta })
    else none

unfoldable pub read_internal : Entry → Option Endpoint
read_internal e =
    if is_empty (meta_value "internal_address" e.meta)
    then none
    else some (
        endpoint_of (meta_value "internal_address" e.meta) (meta_value "internal_port" e.meta)
          (meta_value "internal_scheme" e.meta))

-- The service of an entry before the flat fields are mirrored.
unfoldable pub unmirrored : Entry → Option Endpoint → Option Endpoint → Service
unmirrored e external internal = record {
  id = e.id;
  name = e.service;
  address = "";
  port = pos 0;
  scheme = "";
  external = external;
  internal = internal;
  tags = e.tags;
  meta = e.meta;
  health_check = none;
}

unfoldable pub service_from_entry : Entry → Service
service_from_entry e = mirror_flat (unmirrored e (read_external e) (read_internal e))

is_critical : CheckStatus → Bool
is_critical critical = true
is_critical _ = false

unfoldable pub any_critical : List CheckStatus → Bool
unfolding is_critical
any_critical [] = false
any_critical (c ∷ cs) = if is_critical c then true else any_critical cs

unfoldable pub event_type_for : Entry → EventType
unfolding any_critical
event_type_for e = if any_critical e.checks then event_deregistered else event_registered
