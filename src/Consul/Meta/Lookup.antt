-- ===== src/Consul/Meta/Lookup.antt =====
-- The metadata of a registration, key by key.
use lib_service_discovery.Common.{
  String, ◌≡◌, refl, Bool, true, false, ◌||◌, Option, none, some, List, [], ◌∷◌, arith, ◌==◌,
  is_empty, is_some, if◌then◌else◌, Bool-cases, inl, inr,
}
use lib_service_discovery.Common.Dict.{Dict, lookup, erase, lookup-insert, lookup-erase}
use lib_service_discovery.Decimal.{itoa}
use lib_service_discovery.Types.{Endpoint, Service}
use lib_service_discovery.Consul.Meta.{
  reserved_meta_keys, erase_all, write_external, write_internal, derive_meta,
}

-- Whether a key stands in a list.
unfoldable pub has_key : String → List String → Bool
has_key k [] = false
has_key k (j ∷ js) = if j == k then true else has_key k js

lookup-erase_all :
    (k : String) (ks : List String) (meta : Dict String)
    → lookup k (erase_all ks meta) ≡ (if has_key k ks then none else lookup k meta)
unfolding erase_all has_key
lookup-erase_all k [] meta = refl
lookup-erase_all k (j ∷ js) meta =
    ground (arith, lookup-erase_all k js (erase j meta), lookup-erase j k meta)

-- What the endpoints say of a key, and `old` where they are silent.
unfoldable pub external_key : Option Endpoint → String → Option String → Option String
external_key none k old = old
external_key (some e) k old =
    let rest =
      if "external_port" == k
      then some (itoa e.port)
      else if "external_address" == k
      then some e.address
      else old in
    if is_empty e.scheme
    then rest
    else if "scheme" == k
    then some e.scheme
    else if "external_scheme" == k
    then some e.scheme
    else rest

unfoldable pub internal_key : Option Endpoint → String → Option String → Option String
internal_key none k old = old
internal_key (some e) k old =
    let rest =
      if "internal_port" == k
      then some (itoa e.port)
      else if "internal_address" == k
      then some e.address
      else old in
    if is_empty e.scheme then rest else if "internal_scheme" == k then some e.scheme else rest

lookup-write_external :
    (k : String) (o : Option Endpoint) (meta : Dict String)
    → lookup k (write_external o meta) ≡ external_key o k (lookup k meta)
unfolding write_external external_key
lookup-write_external k none meta = refl
lookup-write_external k (some e) meta = elim (Bool-cases (is_empty e.scheme)) [
  | inl empty ↦ rw empty (simp lookup-insert)
  | inr present ↦ rw present (simp lookup-insert)
]

lookup-write_internal :
    (k : String) (o : Option Endpoint) (meta : Dict String)
    → lookup k (write_internal o meta) ≡ internal_key o k (lookup k meta)
unfolding write_internal internal_key
lookup-write_internal k none meta = refl
lookup-write_internal k (some e) meta = elim (Bool-cases (is_empty e.scheme)) [
  | inl empty ↦ rw empty (simp lookup-insert)
  | inr present ↦ rw present (simp lookup-insert)
]

-- What the caller's metadata says of a key that is not reserved.
unfoldable pub caller_key : Service → String → Option String
caller_key s k = if has_key k reserved_meta_keys then none else lookup k s.meta

-- Of a service with an endpoint, each key of the metadata.
pub lookup-derive_meta :
    (s : Service) (k : String)
    → (is_some s.external || is_some s.internal) ≡ true
    → lookup k (derive_meta s)
      ≡ internal_key s.internal k (external_key s.external k (caller_key s k))
unfolding derive_meta caller_key
lookup-derive_meta s k h = rw (h, lookup-write_internal, lookup-write_external, lookup-erase_all)
