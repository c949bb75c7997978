-- ===== src/Consul/Meta/Keys.antt =====
-- The reserved keys of the metadata belong to the library, all others to the caller.
use lib_service_discovery.Common.{
  String, ◌≡◌, refl, ◌∙◌, ap, ◌↔◌, ◌⊎◌, inl, inr, true, false, ◌||◌, Option, none, some, List, [],
  ◌∷◌, arith, is_some, Bool-cases,
}
use lib_service_discovery.Common.Dict.{Dict, lookup}
use lib_service_discovery.Types.{
  Endpoint, Service, normalize_endpoints, event_registered, event_deregistered,
}
use lib_service_discovery.Consul.Agent.{Entry, CheckStatus, critical}
use lib_service_discovery.Consul.Meta.{
  reserved_meta_keys, derive_meta, service_meta, any_critical, event_type_for,
}
use lib_service_discovery.Consul.Meta.Lookup.{
  has_key, external_key, internal_key, caller_key, lookup-derive_meta,
}

external_key-unreserved :
    (o : Option Endpoint) (k : String) (old : Option String)
    → has_key k reserved_meta_keys ≡ false
    → external_key o k old ≡ old
unfolding external_key has_key reserved_meta_keys
external_key-unreserved none k old h = refl
external_key-unreserved (some e) k old h = ground arith

internal_key-unreserved :
    (o : Option Endpoint) (k : String) (old : Option String)
    → has_key k reserved_meta_keys ≡ false
    → internal_key o k old ≡ old
unfolding internal_key has_key reserved_meta_keys
internal_key-unreserved none k old h = refl
internal_key-unreserved (some e) k old h = ground arith

normalize_endpoints-meta : (s : Service) → (normalize_endpoints s).meta ≡ s.meta
unfolding normalize_endpoints
normalize_endpoints-meta s = ground arith

lookup-derive_meta_unreserved :
    (s : Service) (k : String)
    → has_key k reserved_meta_keys ≡ false
    → lookup k (derive_meta s) ≡ lookup k s.meta
unfolding caller_key
lookup-derive_meta_unreserved s k h = elim (Bool-cases (is_some s.external || is_some s.internal)) [
  | inl some_endpoint ↦
      lookup-derive_meta s k some_endpoint
      ∙ rw (h, internal_key-unreserved s.internal k _ h, external_key-unreserved s.external k _ h)
  | inr no_endpoint ↦ unfold derive_meta in rw no_endpoint
]

-- A key that is not reserved has in the registered metadata what the caller gave it.
pub service_meta-unreserved :
    (s : Service) (k : String)
    → has_key k reserved_meta_keys ≡ false
    → lookup k (service_meta s) ≡ lookup k s.meta
unfolding service_meta
service_meta-unreserved s k h =
    lookup-derive_meta_unreserved (normalize_endpoints s) k h
    ∙ ap (lookup k) (normalize_endpoints-meta s)

-- The service with other metadata.
abbrev pub with_meta : Service → Dict String → Service
with_meta s meta = record s { meta = meta }

pub normalize_endpoints-with_meta :
    (s : Service) (meta : Dict String)
    → normalize_endpoints (with_meta s meta) ≡ with_meta (normalize_endpoints s) meta
unfolding normalize_endpoints
normalize_endpoints-with_meta s meta = ground arith

-- Of a service that is registered with an endpoint, a reserved key has a value that does not depend
-- on the caller's metadata: a copied key of the library never survives.
pub service_meta-reserved :
    (s : Service) (meta : Dict String) (k : String)
    → (is_some (normalize_endpoints s).external || is_some (normalize_endpoints s).internal) ≡ true
    → has_key k reserved_meta_keys ≡ true
    → lookup k (service_meta (with_meta s meta)) ≡ lookup k (service_meta s)
unfolding service_meta caller_key
service_meta-reserved s meta k h r =
    let n : Service = normalize_endpoints s in
    rw (
      normalize_endpoints-with_meta s meta,
      lookup-derive_meta (with_meta n meta) k h,
      lookup-derive_meta n k h,
      r,
    )

-- Some check of the list is critical.
abbrev pub HasCritical : List CheckStatus → Type 0
HasCritical [] = ⊥
HasCritical (c ∷ cs) = (c ≡ critical) ⊎ HasCritical cs

any_critical_iff : (cs : List CheckStatus) → (any_critical cs ≡ true) ↔ HasCritical cs
unfolding any_critical
any_critical_iff [] = ground arith
any_critical_iff (c ∷ cs) = ground (arith, any_critical_iff cs)

-- An entry is announced as deregistered exactly where one of its checks is critical, and as
-- registered otherwise.
pub event_type_for_iff :
    (e : Entry)
    → ((event_type_for e ≡ event_deregistered) ↔ HasCritical e.checks)
      × ((event_type_for e ≡ event_registered) ↔ (¬ HasCritical e.checks))
unfolding event_type_for
event_type_for_iff e = ground (arith, any_critical_iff e.checks)
