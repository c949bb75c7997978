-- ===== src/Consul/Meta/AsMap.antt =====
-- The metadata as Go and the catalog have it: a map, which knows no order of its keys.
use mathlib.Core.Quot
use mathlib.Core.Quot.{Quot, Quot-set}
use mathlib.Core.Path.{ap₂}
use text.Mathlib.TextEquality.{IsScalar-prop}
use lib_service_discovery.Common.{
  String, ◌≡◌, ap, false, ◌||◌, Option, inl, inr, is_some, Bool-cases, arith, ◌==◌, eq_iff,
}
use lib_service_discovery.Common.Dict.{Dict, lookup, insert, lookup-insert}
use lib_service_discovery.Types.{Endpoint, Service, normalize_endpoints}
use lib_service_discovery.Consul.Agent.{Entry}
use lib_service_discovery.Consul.Meta.{
  derive_meta, service_meta, meta_value, read_external, read_internal,
}
use lib_service_discovery.Consul.Meta.Lookup.{caller_key, lookup-derive_meta}
use lib_service_discovery.Consul.Meta.Keys.{with_meta, normalize_endpoints-with_meta}
use lib_service_discovery.Consul.Meta.RoundTrip.{
  HasEndpoint, IsStorable, read_external-derive_meta, read_internal-derive_meta,
}

-- Two representations of the same map.
abbrev pub SameMap : Dict String → Dict String → Type 0
SameMap m n = (k : String) → lookup k m ≡ lookup k n

abbrev pub GoMap : Type 0
GoMap = Quot SameMap

insert-SameMap :
    (k v : String) (m n : Dict String) → SameMap m n → SameMap (insert k v m) (insert k v n)
insert-SameMap k v m n h j = rw (lookup-insert k j v m, lookup-insert k j v n, h j)

-- `m[k] = v`
pub put : String → String → GoMap → GoMap
put k v =
    Quot.lift Quot-set (λ m. Quot.mk (insert k v m))
      (λ m n h. Quot.sound (insert-SameMap k v m n h))

derive_meta-SameMap :
    (s : Service) (m n : Dict String)
    → SameMap m n
    → SameMap (derive_meta (with_meta s m)) (derive_meta (with_meta s n))
unfolding caller_key
derive_meta-SameMap s m n h k = elim (Bool-cases (is_some s.external || is_some s.internal)) [
  | inl some_endpoint ↦ rw (
    lookup-derive_meta (with_meta s m) k some_endpoint,
    lookup-derive_meta (with_meta s n) k some_endpoint,
    h k,
  )
  | inr no_endpoint ↦ unfold derive_meta in rw no_endpoint (h k)
]

service_meta-SameMap :
    (s : Service) (m n : Dict String)
    → SameMap m n
    → SameMap (service_meta (with_meta s m)) (service_meta (with_meta s n))
unfolding service_meta
service_meta-SameMap s m n h k =
    rw (normalize_endpoints-with_meta s m, normalize_endpoints-with_meta s n)
      (derive_meta-SameMap (normalize_endpoints s) m n h k)

-- What a registration of a service writes, of the caller's metadata.
pub written : Service → GoMap → GoMap
written s =
    Quot.lift Quot-set (λ m. Quot.mk (service_meta (with_meta s m)))
      (λ m n h. Quot.sound (service_meta-SameMap s m n h))

abbrev Endpoints : Type 0
Endpoints = Option Endpoint × Option Endpoint

Endpoints-set : IsSet Endpoints
Endpoints-set = hlevel IsScalar-prop

with_catalog : Entry → Dict String → Entry
with_catalog e m = record e { meta = m }

endpoints_in : Entry → Dict String → Endpoints
unfolding with_catalog
endpoints_in e m = (read_external (with_catalog e m), read_internal (with_catalog e m))

endpoints_in-SameMap :
    (e : Entry) (m n : Dict String) → SameMap m n → endpoints_in e m ≡ endpoints_in e n
unfolding endpoints_in read_external read_internal meta_value with_catalog
endpoints_in-SameMap e m n h = rw (
  h "external_address",
  h "external_port",
  h "external_scheme",
  h "internal_address",
  h "internal_port",
  h "internal_scheme",
  h "scheme",
)

-- What a reader makes of the metadata of an entry.
pub endpoints_read : Entry → GoMap → Endpoints
endpoints_read e = Quot.lift Endpoints-set (endpoints_in e) (endpoints_in-SameMap e)

-- The order in which a caller writes two keys is not part of its metadata.
pub put_comm :
    (k j v w : String) → (k == j) ≡ false → (m : GoMap) → put k v (put j w m) ≡ put j w (put k v m)
unfolding put
put_comm k j v w other = Quot.ind (λ b. Quot-set _ _) both
  where
    both : (d : Dict String) → put k v (put j w (Quot.mk d)) ≡ put j w (put k v (Quot.mk d))
    both d = Quot.sound (λ i. ground (
      arith,
      other,
      eq_iff k j,
      eq_iff k i,
      eq_iff j i,
      lookup-insert k i v (insert j w d),
      lookup-insert j i w d,
      lookup-insert j i w (insert k v d),
      lookup-insert k i v d,
    ))

-- Take a service with an endpoint, whose endpoints have addresses that are not empty and ports that
-- are 64-bit integers. Whatever map its caller's metadata is, and in whatever order the catalog keeps
-- the map that is written, a reader finds the endpoints of the normalised service in it.
pub endpoints_read-written :
    (svc : Service) (e : Entry)
    → HasEndpoint (normalize_endpoints svc)
    → IsStorable (normalize_endpoints svc).external
    → IsStorable (normalize_endpoints svc).internal
    → (meta : GoMap)
    → endpoints_read e (written svc meta)
      ≡ ((normalize_endpoints svc).external, (normalize_endpoints svc).internal)
unfolding endpoints_read written endpoints_in with_catalog service_meta
endpoints_read-written svc e some_endpoint ext int = Quot.ind (λ m. Endpoints-set _ _) found
  where
    found :
        (m : Dict String)
        → endpoints_in e (service_meta (with_meta svc m))
          ≡ ((normalize_endpoints svc).external, (normalize_endpoints svc).internal)
    found m =
        let n : Service = with_meta (normalize_endpoints svc) m in
        let x : Entry = with_catalog e (service_meta (with_meta svc m)) in
        let same = ap derive_meta (normalize_endpoints-with_meta svc m) in
        ap₂ (λ a b. (a, b)) (read_external-derive_meta n x some_endpoint same ext int)
          (read_internal-derive_meta n x some_endpoint same int)
