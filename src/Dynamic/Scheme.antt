-- ===== src/Dynamic/Scheme.antt =====
-- The scheme of a resolver that `WatchResolve` of resolver.go returns.
use lib_service_discovery.Common.{ℕ, String, ◌≡◌, refl, subst, Option, none, some, List, if-All}
use lib_service_discovery.Context.{Ctx}
use lib_service_discovery.Errors.{Error, Result, ok, err}
use lib_service_discovery.Types.{Endpoint, Service, endpoint_for}
use lib_service_discovery.Backend.{Backend}
use lib_service_discovery.Manager.{Manager, DynamicWatch}
use lib_service_discovery.Dynamic.{DynamicResolver, ResolverOption, scheme_of, store_snapshot}
use lib_service_discovery.Dynamic.Seed.{snapshot_of}
use lib_service_discovery.Dynamic.Track.{
  update, update_view, tracking, start_resolver_watch, pinned, seed_address, address_snapshot,
  watch_resolve,
}

-- A resolver that is returned has no scheme.
IsBare {ℓ} : {M : Type ℓ} → Result DynamicResolver × M → Type 0
IsBare x = elim x.0 [ ok dr ↦ scheme_of dr ≡ "" | err e ↦ Unit ]

seed_address-scheme :
    (fallback : String) (r : Result String) (dr : DynamicResolver)
    → scheme_of (seed_address fallback r dr) ≡ ""
unfolding seed_address scheme_of store_snapshot
seed_address-scheme fallback (ok a) dr = refl
seed_address-scheme fallback (err e) dr = refl

module _ (B : Backend) where
  tracking-IsBare :
      (w : DynamicWatch B) (e : Option Error) (t : ℕ) (dr : DynamicResolver) (m : Manager B)
      → scheme_of dr ≡ ""
      → IsBare (tracking B w e t dr m)
  unfolding tracking IsBare scheme_of
  tracking-IsBare w (some e) t dr m h = tt
  tracking-IsBare w none t dr m h = h

  start_resolver_watch-IsBare :
      (ctx : Ctx) (dr : DynamicResolver) (name : String) (m : Manager B)
      → scheme_of dr ≡ ""
      → IsBare (start_resolver_watch B ctx dr name m)
  unfolding start_resolver_watch IsBare
  start_resolver_watch-IsBare ctx dr name m h =
      if-All IsBare m.config.enabled _ _ (tracking-IsBare _ _ m.fresh dr _ h) h

  pinned-IsBare :
      (ctx : Ctx) (r : Result String) (dr : DynamicResolver) (name : String) (m : Manager B)
      → IsBare (pinned B ctx (address_snapshot r) dr name m)
  unfolding pinned address_snapshot
  pinned-IsBare ctx (err e) dr name m = unfold IsBare in tt
  pinned-IsBare ctx (ok a) dr name m =
      start_resolver_watch-IsBare ctx _ name m (unfold scheme_of store_snapshot in refl)

  watch_resolve-IsBare :
      (ctx : Ctx) (name fallback : String) (os : List (Option ResolverOption)) (m : Manager B)
      → IsBare (watch_resolve B ctx name fallback os m)
  unfolding watch_resolve
  watch_resolve-IsBare ctx name fallback os m =
      if-All IsBare m.config.enabled _ _
        (start_resolver_watch-IsBare ctx _ name _ (seed_address-scheme fallback _ _))
        (pinned-IsBare ctx _ _ name _)

  update_scheme :
      (dr : DynamicResolver) (svc : Service) (e : Endpoint)
      → endpoint_for svc dr.view ≡ ok e
      → scheme_of (update (ok svc) dr) ≡ e.scheme
  unfolding update update_view scheme_of store_snapshot snapshot_of
  update_scheme dr svc e found = rw (update, found) refl

  -- A resolver of `WatchResolve` has no scheme at first, and takes over the endpoint's scheme at the
  -- first update that finds the view.
  pub watch_resolve_scheme :
      (ctx : Ctx) (name fallback : String) (os : List (Option ResolverOption)) (m : Manager B)
      (dr : DynamicResolver) (svc : Service) (e : Endpoint)
      → (watch_resolve B ctx name fallback os m).0 ≡ ok dr
      → endpoint_for svc dr.view ≡ ok e
      → (scheme_of dr ≡ "") × (scheme_of (update (ok svc) dr) ≡ e.scheme)
  unfolding IsBare
  watch_resolve_scheme ctx name fallback os m dr svc e made found =
      let x = watch_resolve B ctx name fallback os m in
      (
        subst (λ r. IsBare {M = Manager B} (r, x.1)) made
            (watch_resolve-IsBare ctx name fallback os m),
        update_scheme dr svc e found,
      )
