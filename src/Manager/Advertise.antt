-- ===== src/Manager/Advertise.antt =====
-- What `Manager.Register` publishes.
use lib_service_discovery.Common.{
  String, ◌≡◌, refl, sym, ap, ◌∙◌, inl, inr, true, false, ◌&&◌, ◌||◌, Option, some, arith,
  if◌then◌else◌, Bool-cases, is_empty, is_some,
}
use lib_service_discovery.Common.Int.{ℤ}
use lib_service_discovery.Types.{
  Endpoint, Service, normalize_endpoints, promote, mirror_flat, root_endpoint, external_endpoint,
}
use lib_service_discovery.Config.{Config}
use lib_service_discovery.Manager.Registration.{
  advertised_external, advertised_internal, advertised,
}

-- Normalization keeps endpoint pointers, where the flat fields are cleared.
pub advertised-endpoints :
    (c : Config) (svc : Service)
    → ((advertised c svc).external ≡ advertised_external c svc.port svc.scheme)
      × ((advertised c svc).internal ≡ advertised_internal c svc.port)
unfolding advertised normalize_endpoints promote external_endpoint mirror_flat root_endpoint
advertised-endpoints c svc = ground arith

pub advertised-rest :
    (c : Config) (svc : Service)
    → ((advertised c svc).health_check ≡ svc.health_check) × ((advertised c svc).tags ≡ svc.tags)
unfolding advertised normalize_endpoints promote external_endpoint mirror_flat root_endpoint
advertised-rest c svc = ground arith

advertised_external-address :
    (c : Config) (port : ℤ) (scheme : String) (e : Endpoint)
    → advertised_external c port scheme ≡ some e
    → e.address ≡ c.advertise_addr
unfolding advertised_external
advertised_external-address c port scheme e h = elim (Bool-cases (is_empty c.advertise_addr)) [
  | inl missing ↦ cc
  | inr given ↦ cc
]

advertised_internal-address :
    (c : Config) (port : ℤ) (e : Endpoint)
    → advertised_internal c port ≡ some e
    → e.address ≡ c.advertise_internal_addr
unfolding advertised_internal
advertised_internal-address c port e h = elim (Bool-cases (is_empty c.advertise_internal_addr)) [
  | inl missing ↦ cc
  | inr given ↦ cc
]

advertised_external-is_some :
    (c : Config) (port : ℤ) (scheme : String)
    → is_some (advertised_external c port scheme)
      ≡ (if is_empty c.advertise_addr then false else true)
unfolding advertised_external
advertised_external-is_some c port scheme = ground arith

advertised_internal-is_some :
    (c : Config) (port : ℤ)
    → is_some (advertised_internal c port)
      ≡ (if is_empty c.advertise_internal_addr then false else true)
unfolding advertised_internal
advertised_internal-is_some c port = ground arith

-- The caller's address and its endpoint pointers have no part in what is published: the external
-- endpoint has the configured address, or is absent without one, and so has the internal one.
pub advertised_config_only :
    (c : Config) (svc : Service) (address : String) (external internal : Option Endpoint)
    → (advertised c (record svc { address = address; external = external; internal = internal })
        ≡ advertised c svc)
      × ((e : Endpoint) → (advertised c svc).external ≡ some e → e.address ≡ c.advertise_addr)
      × ((e : Endpoint)
          → (advertised c svc).internal ≡ some e
          → e.address ≡ c.advertise_internal_addr)
      × (is_some (advertised c svc).external ≡ (if is_empty c.advertise_addr then false else true))
      × (is_some (advertised c svc).internal
          ≡ (if is_empty c.advertise_internal_addr then false else true))
unfolding advertised
advertised_config_only c svc address external internal =
    let (e, i) = advertised-endpoints c svc in
    (
      refl,
      λ x h. advertised_external-address c svc.port svc.scheme x (sym e ∙ h),
      λ x h. advertised_internal-address c svc.port x (sym i ∙ h),
      ap is_some e ∙ advertised_external-is_some c svc.port svc.scheme,
      ap is_some i ∙ advertised_internal-is_some c svc.port,
    )

pub no_addresses :
    (c : Config) (svc : Service)
    → (is_some (advertised c svc).external || is_some (advertised c svc).internal) ≡ false
    → (is_empty c.advertise_addr ≡ true) × (is_empty c.advertise_internal_addr ≡ true)
no_addresses c svc h =
    let x : (is_some (advertised c svc).external
        ≡ (if is_empty c.advertise_addr then false else true)) =
      ap is_some (advertised-endpoints c svc).0
      ∙ advertised_external-is_some c svc.port svc.scheme in
    let i : (is_some (advertised c svc).internal
        ≡ (if is_empty c.advertise_internal_addr then false else true)) =
      ap is_some (advertised-endpoints c svc).1 ∙ advertised_internal-is_some c svc.port in
    ground arith

pub has_address :
    (c : Config) (svc : Service)
    → (is_some (advertised c svc).external || is_some (advertised c svc).internal) ≡ true
    → (is_empty c.advertise_addr && is_empty c.advertise_internal_addr) ≡ false
has_address c svc h =
    let x : (is_some (advertised c svc).external
        ≡ (if is_empty c.advertise_addr then false else true)) =
      ap is_some (advertised-endpoints c svc).0
      ∙ advertised_external-is_some c svc.port svc.scheme in
    let i : (is_some (advertised c svc).internal
        ≡ (if is_empty c.advertise_internal_addr then false else true)) =
      ap is_some (advertised-endpoints c svc).1 ∙ advertised_internal-is_some c svc.port in
    ground arith
