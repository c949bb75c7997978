-- ===== src/Dynamic/Address.antt =====
-- Which steps of a dynamic resolver of resolver.go keep its address from being empty.
use lib_service_discovery.Common.{
  String, ◌<>◌, ◌≡◌, refl, ap, ◌∙◌, false, Option, none, some, List, [], ◌∷◌, is_empty, if_false,
  if-All, arith,
}
use text.Mathlib.TextLemmas.{nil-append, cons-append}
use lib_service_discovery.Decimal.{itoa}
use lib_service_discovery.Common.Int.{ℤ}
use lib_service_discovery.Errors.{Error, Result, ok, err}
use lib_service_discovery.Types.{
  Endpoint, EndpointView, Service, endpoint_for, host_port, endpoint_addr, service_addr,
}
use lib_service_discovery.Manager.Resolve.{fallback_or}
use lib_service_discovery.Dynamic.{
  Snapshot, DynamicResolver, empty_dynamic, ResolverOption, with_view, apply_resolver_options,
  or_preferred, address_of, store_snapshot,
}
use lib_service_discovery.Dynamic.Seed.{
  direct_view, direct_text, fallback_snapshot, snapshot_of, snapshot_or, seed_view, seed_snapshot,
}
use lib_service_discovery.Dynamic.Track.{
  update_view, update, update_all, for_address, for_service, seed_address, seed_pair,
  address_snapshot,
}

append-nonempty : (s t : String) → is_empty t ≡ false → is_empty (s <> t) ≡ false
append-nonempty String.[] t h = rw nil-append h
append-nonempty (String.◌∷◌ c s) t h = rw (cons-append c s t) refl

host_port-nonempty : (address : String) (port : ℤ) → is_empty (host_port address port) ≡ false
unfolding host_port
host_port-nonempty address port =
    append-nonempty address (":" <> itoa port) (rw (cons-append ":" "" (itoa port)) refl)

-- A resolver with a fallback whose address is not empty.
pub record HasAddress (dr : DynamicResolver) : Type 0 where
  pub backed : is_empty dr.fallback ≡ false
  pub served : is_empty (address_of dr) ≡ false

update-HasAddress :
    (r : Result Service) (dr : DynamicResolver) → HasAddress dr → HasAddress (update r dr)
unfolding update update_view store_snapshot address_of snapshot_of fallback_snapshot endpoint_addr
update-HasAddress (err e) dr h = simp (h.backed) (record { backed = h.backed; served = h.backed })
update-HasAddress (ok svc) dr h = go (endpoint_for svc dr.view)
  where
    go : (r : Result Endpoint) → HasAddress (update_view r dr)
    go (ok e) = record { backed = h.backed; served = host_port-nonempty e.address e.port }
    go (err e) = h

pub update_all-HasAddress :
    (rs : List (Result Service)) (dr : DynamicResolver)
    → HasAddress dr
    → HasAddress (update_all rs dr)
unfolding update_all
update_all-HasAddress [] dr h = h
update_all-HasAddress (r ∷ rs) dr h =
    update_all-HasAddress rs (update r dr) (update-HasAddress r dr h)

-- The options and the view leave the rest of a resolver alone.
options-kept :
    (os : List (Option ResolverOption)) (preferred : String) (dr : DynamicResolver)
    → let made = or_preferred preferred (apply_resolver_options os dr) in
      (made.fallback ≡ dr.fallback) × (made.snapshot ≡ dr.snapshot)
unfolding apply_resolver_options or_preferred
options-kept [] preferred dr = ground arith
options-kept (none ∷ os) preferred dr = options-kept os preferred dr
options-kept (some (with_view v) ∷ os) preferred dr =
    options-kept os preferred (record dr { view = v })

-- An answer that is a pair with an address, or an error.
abbrev pub Addressed : Result Snapshot → Type 0
Addressed (ok s) = is_empty s.address ≡ false
Addressed (err e) = Unit

pub direct_text-Addressed :
    (view : EndpointView) (fallback : String) (r : Result Service)
    → is_empty fallback ≡ false
    → Addressed (address_snapshot (direct_text view fallback r))
unfolding direct_text direct_view address_snapshot fallback_or endpoint_addr
direct_text-Addressed view fallback (err e) h = rw h h
direct_text-Addressed view fallback (ok svc) h = go (endpoint_for svc view)
  where
    go : (r : Result Endpoint) → Addressed (address_snapshot (direct_view fallback r))
    go (ok e) = host_port-nonempty e.address e.port
    go (err e) = rw h h

pub snapshot_or-Addressed :
    (e : Error) (dr : DynamicResolver) (fallback : Service)
    → is_empty dr.fallback ≡ false
    → Addressed (snapshot_or e dr fallback)
unfolding snapshot_or fallback_snapshot
snapshot_or-Addressed e dr fallback h = if-All Addressed (is_empty fallback.address) _ _ tt h

pub seed_snapshot-Addressed :
    (dr : DynamicResolver) (fallback : Service) (r : Result Service)
    → is_empty dr.fallback ≡ false
    → Addressed (seed_snapshot dr fallback r)
unfolding seed_snapshot seed_view snapshot_of endpoint_addr
seed_snapshot-Addressed dr fallback (err e) h = snapshot_or-Addressed e dr fallback h
seed_snapshot-Addressed dr fallback (ok svc) h = go (endpoint_for svc dr.view)
  where
    go : (r : Result Endpoint) → Addressed (seed_view dr fallback r)
    go (ok e) = host_port-nonempty e.address e.port
    go (err e) = snapshot_or-Addressed e dr fallback h

pub seed_address-HasAddress :
    (fallback : String) (r : Result String) (dr : DynamicResolver)
    → is_empty fallback ≡ false
    → is_empty dr.fallback ≡ false
    → Addressed (address_snapshot r)
    → HasAddress (seed_address fallback r dr)
unfolding seed_address store_snapshot address_of address_snapshot
seed_address-HasAddress fallback (ok a) dr h k w = record { backed = k; served = w }
seed_address-HasAddress fallback (err e) dr h k w = record { backed = k; served = h }

pub seed_pair-HasAddress :
    (r : Result Snapshot) (dr : DynamicResolver)
    → is_empty dr.fallback ≡ false
    → Addressed r
    → HasAddress (seed_pair r dr)
unfolding seed_pair store_snapshot address_of fallback_snapshot
seed_pair-HasAddress (ok s) dr k w = record { backed = k; served = w }
seed_pair-HasAddress (err e) dr k w = record { backed = k; served = k }

pub for_address-fallback :
    (fallback : String) (os : List (Option ResolverOption)) (preferred : String)
    → (for_address fallback os preferred).fallback ≡ fallback
unfolding for_address
for_address-fallback fallback os preferred =
    (options-kept os preferred (record empty_dynamic { fallback = fallback })).0

pub for_service-fallback :
    (fallback : Service) (os : List (Option ResolverOption)) (preferred : String)
    → is_empty fallback.address ≡ false
    → is_empty (for_service fallback os preferred).fallback ≡ false
unfolding for_service service_addr
for_service-fallback fallback os preferred given =
    ap is_empty (options-kept os preferred _).0
    ∙ ap (λ (dr : DynamicResolver). is_empty dr.fallback)
        (if_false (is_empty fallback.address) _ given)
    ∙ host_port-nonempty fallback.address fallback.port
