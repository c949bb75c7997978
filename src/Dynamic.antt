-- ===== src/Dynamic.antt =====
-- resolver.go: `DynamicResolver`, its snapshot and its options. A nil resolver is `none`.
pub mod Seed
pub mod Track
pub mod Latest
pub mod Loop
pub mod Follow
pub mod Address
pub mod Served
pub mod Opened
pub mod Scheme
pub mod Mirror
use lib_service_discovery.Common.{
  ℕ, String, Bool, true, false, Option, none, some, List, [], ◌∷◌, is_empty, if◌then◌else◌,
}
use lib_service_discovery.Types.{EndpointView}

-- `resolverSnapshot`: a pair that is stored and loaded as one value.
pub record Snapshot : Type 0 where
  pub address : String
  pub scheme : String

pub record DynamicResolver : Type 0 where
  pub fallback : String
  pub fallback_scheme : String
  pub view : EndpointView
  pub snapshot : Option Snapshot
  -- the token of the background watch's context
  pub cancel : Option ℕ

-- `&DynamicResolver{}`
abbrev pub empty_dynamic : DynamicResolver
empty_dynamic = record {
  fallback = "";
  fallback_scheme = "";
  view = "";
  snapshot = none;
  cancel = none;
}

-- `ResolverOption`: `none` is a nil option.
pub data ResolverOption : Type 0 where
  with_view : EndpointView → ResolverOption

unfoldable pub apply_resolver_options :
    List (Option ResolverOption) → DynamicResolver → DynamicResolver
apply_resolver_options [] dr = dr
apply_resolver_options (none ∷ os) dr = apply_resolver_options os dr
apply_resolver_options (some (with_view v) ∷ os) dr =
    apply_resolver_options os (record dr { view = v })

-- The view that is tracked: the explicit one, else the configured default.
unfoldable pub or_preferred : EndpointView → DynamicResolver → DynamicResolver
or_preferred preferred dr = if is_empty dr.view then record dr { view = preferred } else dr

-- `Address` and `Scheme`, of a resolver that is not nil.
unfoldable pub address_of : DynamicResolver → String
address_of dr = elim dr.snapshot [ none ↦ dr.fallback | some s ↦ s.address ]

unfoldable pub scheme_of : DynamicResolver → String
scheme_of dr = elim dr.snapshot [ none ↦ dr.fallback_scheme | some s ↦ s.scheme ]

-- The two on a pointer.
unfoldable pub read_address : Option DynamicResolver → String
read_address none = ""
read_address (some dr) = address_of dr

unfoldable pub read_scheme : Option DynamicResolver → String
read_scheme none = ""
read_scheme (some dr) = scheme_of dr

-- `store`
unfoldable pub store_snapshot : Snapshot → DynamicResolver → DynamicResolver
store_snapshot s dr = record dr { snapshot = some s }

-- `Stop`: the tokens that are cancelled behind it.
unfoldable pub stop : Option DynamicResolver → List ℕ → List ℕ
stop none cancelled = cancelled
stop (some dr) cancelled = elim dr.cancel [ none ↦ cancelled | some t ↦ t ∷ cancelled ]
