-- ===== src/Manager/Managed.antt =====
-- managed_resolver.go: the manager's resolvers, each call run from its start to its return. The log
-- lines are left out.
pub mod Once
use lib_service_discovery.Common.{
  ℕ, suc, String, Bool, true, false, Option, none, some, List, [], ◌∷◌, ◌==◌, is_some,
  if◌then◌else◌,
}
use mathlib.Core.Option
use lib_service_discovery.Common.Dict.{Dict, lookup, insert}
use lib_service_discovery.Context.{Ctx, with_timeout, with_cancel}
use lib_service_discovery.Errors.{Error, Result}
use lib_service_discovery.Types.{Service}
use lib_service_discovery.Backend.{Backend}
use lib_service_discovery.Resolver.{Resolver, new_resolver, seed_with, refresh}
use lib_service_discovery.Manager.{Manager, ManagedWatch, base_ctx, workload_tag}

module _ (B : Backend) where
  -- What `startManagedWatch` does with the answer of `Watch`.
  unfoldable pub watch_started :
      String → String → ℕ → B.Stream → Option Error → Manager B → Manager B
  watch_started name tag t stream (some e) m = record m { cancelled = t ∷ m.cancelled }
  watch_started name tag t stream none m = record m {
    watches =
        record { ctx = with_cancel t base_ctx; name = name; tag = tag; stream = stream }
        ∷ m.watches;
  }

  unfoldable pub start_managed_watch : String → String → Resolver → Manager B → Resolver × Manager B
  start_managed_watch name tag mr m =
      let t = m.fresh in
      let mr₁ : Resolver = record mr { cancel = some t } in
      let (stream, e, s) = B.watch (with_cancel t base_ctx) name m.backend in
      let m₁ : Manager B = record m {
        backend = s;
        fresh = suc t;
        resolvers = insert name mr₁ m.resolvers;
      } in
      (mr₁, watch_started name tag t stream e m₁)

  unfoldable pub seed_managed_resolver : Ctx → String → Resolver → Manager B → Resolver × Manager B
  seed_managed_resolver ctx name mr m =
      let tag = workload_tag B m in
      let (answer, s) = B.resolve (with_timeout m.seed_timeout ctx) name tag m.backend in
      start_managed_watch name tag (seed_with answer mr) (record m { backend = s })

  -- `mr.once.Do`
  unfoldable pub seed_once : Ctx → String → Resolver → Manager B → Resolver × Manager B
  seed_once ctx name mr m =
      if mr.once then (mr, m) else seed_managed_resolver ctx name (record mr { once = true }) m

  unfoldable pub managed_resolver_for : Ctx → String → Manager B → Resolver × Manager B
  managed_resolver_for ctx name m = elim (lookup name m.resolvers) [
    | some mr ↦ seed_once ctx name mr m
    | none ↦
        if m.closed
        then (new_resolver, m)
        else seed_once ctx name new_resolver
            (record m { resolvers = insert name new_resolver m.resolvers })
  ]

  -- What a watch writes to its resolver. A resolver that was drained from the map is read no more.
  unfoldable pub refresh_named : String → Result Service → Dict Resolver → Dict Resolver
  refresh_named name answer rs = elim (lookup name rs) [
    | none ↦ rs
    | some mr ↦ insert name (refresh answer mr) rs
  ]

  -- One event of `runManagedUpdates`. The choice of a goroutine whose context is done and whose
  -- channel has an event as well is open, so the event is taken in either case.
  unfoldable pub managed_update : ManagedWatch B → Manager B → Manager B
  managed_update w m =
      let (answer, s) = B.resolve w.ctx w.name w.tag m.backend in
      record m { backend = s; resolvers = refresh_named w.name answer m.resolvers }
