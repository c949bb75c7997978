-- ===== src/Consul/Meta/RoundTrip.antt =====
-- What a registration writes into the catalog is read back as the same service.
use lib_service_discovery.Common.{
  String, ◌≡◌, refl, ◌∙◌, ap, true, false, not, ◌||◌, Option, none, some, arith, is_empty, is_some,
  if◌then◌else◌,
}
use mathlib.Core.Option
use lib_service_discovery.Common.Dict.{Dict}
use lib_service_discovery.Common.Int.{ℤ, pos}
use lib_service_discovery.Decimal.{itoa, IsInt}
use lib_service_discovery.Decimal.RoundTrip.{atoi-itoa}
use lib_service_discovery.Types.{Endpoint, Service, normalize_endpoints, mirror_flat}
use lib_service_discovery.Consul.Meta.{
  reserved_meta_keys, derive_meta, service_meta, meta_value, atoi_safe, endpoint_of, read_external,
  read_internal, unmirrored, service_from_entry,
}
use lib_service_discovery.Consul.Agent.{Entry, IsStored}
use lib_service_discovery.Consul.Registration.{registration_for}
use lib_service_discovery.Types.Endpoints.{
  IsMirrored, normalize_endpoints_idem, normalize_endpoints-IsMirrored,
}
use lib_service_discovery.Consul.Meta.Lookup.{
  has_key, external_key, internal_key, caller_key, lookup-derive_meta,
}

is_empty→eq : (s : String) → is_empty s ≡ true → s ≡ ""
is_empty→eq String.[] h = refl
is_empty→eq (String.◌∷◌ c s) h = cc

atoi_safe-itoa : (i : ℤ) → IsInt i → atoi_safe (itoa i) ≡ i
unfolding atoi_safe
atoi_safe-itoa i h = rw (atoi-itoa i h)

-- An endpoint that survives the catalog: its address is not empty and its port is an `int`.
abbrev pub IsStorable : Option Endpoint → Type 0
IsStorable none = Unit
IsStorable (some e) = (is_empty e.address ≡ false) × IsInt e.port

-- The value of a reserved key.
value : Option Endpoint → Option Endpoint → String → String
unfolding external_key internal_key
value ext int k = Option.get_or (internal_key int k (external_key ext k none)) ""

meta_value-derive_meta :
    (s : Service) (k : String)
    → (is_some s.external || is_some s.internal) ≡ true
    → has_key k reserved_meta_keys ≡ true
    → meta_value k (derive_meta s) ≡ value s.external s.internal k
unfolding meta_value value caller_key
meta_value-derive_meta s k h r = rw (lookup-derive_meta s k h, r)

-- The keys of an endpoint that is there hold it, and those of one that is not are empty.
value-internal :
    (ext : Option Endpoint) (e : Endpoint)
    → IsInt e.port
    → endpoint_of
        (value ext (some e) "internal_address")
        (value ext (some e) "internal_port")
        (value ext (some e) "internal_scheme")
      ≡ e
unfolding value endpoint_of
value-internal none e h = ground (arith, atoi_safe-itoa e.port, is_empty→eq e.scheme)
value-internal (some x) e h = ground (arith, atoi_safe-itoa e.port, is_empty→eq e.scheme)

value-external :
    (e : Endpoint) (int : Option Endpoint)
    → IsInt e.port
    → endpoint_of
        (value (some e) int "external_address")
        (value (some e) int "external_port")
        (value (some e) int "external_scheme")
      ≡ e
unfolding value endpoint_of
value-external e none h = ground (arith, atoi_safe-itoa e.port, is_empty→eq e.scheme)
value-external e (some x) h = ground (arith, atoi_safe-itoa e.port, is_empty→eq e.scheme)

value-internal_address :
    (ext : Option Endpoint) (e : Endpoint) → value ext (some e) "internal_address" ≡ e.address
unfolding value
value-internal_address none e = ground arith
value-internal_address (some x) e = ground arith

value-external_address :
    (e : Endpoint) (int : Option Endpoint) → value (some e) int "external_address" ≡ e.address
unfolding value
value-external_address e none = ground arith
value-external_address e (some x) = ground arith

value-no_internal : (ext : Option Endpoint) → value ext none "internal_address" ≡ ""
unfolding value
value-no_internal none = refl
value-no_internal (some x) = ground arith

value-no_external : (int : Option Endpoint) → value none int "external_address" ≡ ""
unfolding value
value-no_external none = refl
value-no_external (some x) = ground arith

abbrev pub HasEndpoint : Service → Type 0
HasEndpoint s = (is_some s.external || is_some s.internal) ≡ true

-- The values that a read finds under the keys of the addresses.
read_internal-value :
    (ext int : Option Endpoint)
    → IsStorable int
    → (if is_empty (value ext int "internal_address")
        then none
        else some (
            endpoint_of
              (value ext int "internal_address")
              (value ext int "internal_port")
              (value ext int "internal_scheme")))
      ≡ int
read_internal-value ext none h = rw value-no_internal
read_internal-value ext (some e) (a, p) =
    rw (value-internal ext e p, value-internal_address ext e, a)

pub read_internal-derive_meta :
    (s : Service) (e : Entry)
    → HasEndpoint s
    → e.meta ≡ derive_meta s
    → IsStorable s.internal
    → read_internal e ≡ s.internal
unfolding read_internal reserved_meta_keys has_key
read_internal-derive_meta s e h m st =
    rw
      (
        m,
        meta_value-derive_meta s "internal_address" h refl,
        meta_value-derive_meta s "internal_port" h refl,
        meta_value-derive_meta s "internal_scheme" h refl,
      )
      (read_internal-value s.external s.internal st)

read_external-value :
    (ext int : Option Endpoint) (legacy : Endpoint)
    → (is_some ext || is_some int) ≡ true
    → IsStorable ext
    → IsStorable int
    → (if not (is_empty (value ext int "external_address"))
        then some (
            endpoint_of
              (value ext int "external_address")
              (value ext int "external_port")
              (value ext int "external_scheme"))
        else if is_empty (value ext int "internal_address")
        then some legacy
        else none)
      ≡ ext
read_external-value (some e) int legacy h (a, p) st =
    rw (value-external e int p, value-external_address e int, a)
read_external-value none (some e) legacy h st (a, p) =
    rw (value-no_external (some e), value-internal_address none e, a)
read_external-value none none legacy h st st' = cc

pub read_external-derive_meta :
    (s : Service) (e : Entry)
    → HasEndpoint s
    → e.meta ≡ derive_meta s
    → IsStorable s.external
    → IsStorable s.internal
    → read_external e ≡ s.external
unfolding read_external reserved_meta_keys has_key
read_external-derive_meta s e h m st st' =
    rw
      (
        m,
        meta_value-derive_meta s "external_address" h refl,
        meta_value-derive_meta s "external_port" h refl,
        meta_value-derive_meta s "external_scheme" h refl,
        meta_value-derive_meta s "internal_address" h refl,
      )
      (read_external-value s.external s.internal _ h st st')

service_meta-normalize : (s : Service) → service_meta (normalize_endpoints s) ≡ service_meta s
unfolding service_meta
service_meta-normalize s = ap derive_meta (normalize_endpoints_idem s)

stored_meta :
    (svc : Service) (e : Entry)
    → IsStored (registration_for svc) e
    → e.meta ≡ derive_meta (normalize_endpoints svc)
unfolding registration_for service_meta
stored_meta svc e stored = stored.same_meta ∙ service_meta-normalize svc

-- What a reader sees of a registration: the endpoints, the flat mirror and the metadata that was
-- written, and no health check.
abbrev pub published : Service → Service
published svc = record (normalize_endpoints svc) { meta = service_meta svc; health_check = none }

mirror_flat-republish :
    (s : Service) (meta : Dict String)
    → IsMirrored s
    → mirror_flat
        (record s { address = ""; port = pos 0; scheme = ""; meta = meta; health_check = none })
      ≡ record s { meta = meta; health_check = none }
unfolding mirror_flat
mirror_flat-republish s meta h = ground arith

unmirrored-registration_for :
    (svc : Service) (e : Entry)
    → IsStored (registration_for svc) e
    → (ext int : Option Endpoint) → ext ≡ (normalize_endpoints svc).external
    → int ≡ (normalize_endpoints svc).internal
    → unmirrored e ext int ≡ record (normalize_endpoints svc) {
      address = "";
      port = pos 0;
      scheme = "";
      meta = service_meta svc;
      health_check = none;
    }
unfolding unmirrored registration_for
unmirrored-registration_for svc e stored ext int p q = cc (
  stored.same_id,
  stored.same_name,
  stored.same_tags,
  stored.same_meta,
  service_meta-normalize svc,
)

-- A service that is registered with an endpoint, whose endpoints have addresses that are not empty
-- and ports that an `int` holds, is read back from any catalog entry that holds the registration:
-- both endpoint pointers, the flat mirror, the ID, the name and the tags are those of the normalised
-- service, whatever reserved keys the caller's own metadata had.
pub service_from_entry-registration_for :
    (svc : Service) (e : Entry)
    → HasEndpoint (normalize_endpoints svc)
    → IsStorable (normalize_endpoints svc).external
    → IsStorable (normalize_endpoints svc).internal
    → IsStored (registration_for svc) e
    → service_from_entry e ≡ published svc
unfolding service_from_entry
service_from_entry-registration_for svc e h st st' stored =
    let n : Service = normalize_endpoints svc in
    let m : e.meta ≡ derive_meta n = stored_meta svc e stored in
    rw
      (unmirrored-registration_for svc e stored _ _ (read_external-derive_meta n e h m st st')
        (read_internal-derive_meta n e h m st'))
      (mirror_flat-republish n (service_meta svc) (normalize_endpoints-IsMirrored svc))
