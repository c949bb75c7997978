-- ===== src/Dynamic/Opened.antt =====
-- What `WatchResolve` and `WatchResolveService` do to the manager, and their watch's life.
use lib_service_discovery.Common.{
  ℕ, suc, String, ◌≡◌, ◌∙◌, refl, ap, sym, subst, true, false, Option, none, some, List, ◌∷◌,
  is_empty, if◌then◌else◌, if_true, arith, contains,
}
use lib_service_discovery.Context.{Ctx, with_timeout, with_cancel, is_done}
use lib_service_discovery.Errors.{Error, Result, ok, err}
use lib_service_discovery.Types.{Service}
use lib_service_discovery.Backend.{Backend}
use lib_service_discovery.Manager.{Manager, DynamicWatch, workload_tag}
use lib_service_discovery.Manager.Resolve.{fallback_or, disabled_err}
use lib_service_discovery.Dynamic.{Snapshot, DynamicResolver, ResolverOption, stop, store_snapshot}
use lib_service_discovery.Dynamic.Seed.{
  fallback_snapshot, snapshot_or, resolve_endpoint_direct, seed_service_endpoint,
}
use lib_service_discovery.Dynamic.Track.{
  tracking, start_resolver_watch, pinned, address_snapshot, for_address, for_service, watch_resolve,
  watch_resolve_service,
}

contains_self : (n : ℕ) (ns : List ℕ) → contains (n ∷ ns) n ≡ true
contains_self n ns = ground arith

-- A call that leaves the managed resolvers, the manager's watches and its base context alone.
pub record LeavesManaged (B : Backend) (m n : Manager B) : Type 0 where
  pub same_resolvers : n.resolvers ≡ m.resolvers
  pub same_watches : n.watches ≡ m.watches
  pub same_closed : n.closed ≡ m.closed

-- The resolver `dr` and the goroutine of its watch, in the manager `n`.
pub record Tracks (B : Backend) (ctx : Ctx) (name : String) (t : ℕ) (m : Manager B)
    (dr : DynamicResolver) (n : Manager B) : Type 0 where
  pub watch : DynamicWatch B
  -- the registry's state before its `Watch`
  pub asked : B.State
  pub listed : n.dynamic_watches ≡ watch ∷ m.dynamic_watches
  pub accepted : (B.watch watch.ctx name asked).1 ≡ none
  pub same_stream : watch.stream ≡ (B.watch watch.ctx name asked).0
  pub same_backend : n.backend ≡ (B.watch watch.ctx name asked).2
  pub same_name : watch.name ≡ name
  pub same_tag : watch.tag ≡ workload_tag B m
  pub own_ctx : watch.ctx ≡ with_cancel t ctx
  pub own_cancel : dr.cancel ≡ some t
  pub stops : (cancelled : List ℕ) → is_done (stop (some dr) cancelled) watch.ctx ≡ true
  pub ends :
      (cancelled : List ℕ) → is_done cancelled ctx ≡ true → is_done cancelled watch.ctx ≡ true
  pub leaves : LeavesManaged B m n

-- A watch that the registry refused, on the context `own`.
pub record Refuses (B : Backend) (name : String) (m : Manager B) (e : Error) (n : Manager B)
    : Type 0 where
  pub own : Ctx
  pub asked : B.State
  pub refused_by : (B.watch own name asked).1 ≡ some e
  pub done : is_done n.cancelled own ≡ true
  pub none_listed : n.dynamic_watches ≡ m.dynamic_watches
  pub leaves : LeavesManaged B m n

-- What a call that starts a watch for a resolver returns.
pub data Opens (B : Backend) (ctx : Ctx) (name : String) (t : ℕ) (m : Manager B)
    : Result DynamicResolver × Manager B → Type 0 where
  opened :
      (dr : DynamicResolver) (n : Manager B)
      → Tracks B ctx name t m dr n
      → Opens B ctx name t m (ok dr, n)
  refused : (e : Error) (n : Manager B) → Refuses B name m e n → Opens B ctx name t m (err e, n)

is_done_own : (ns : List ℕ) (t : ℕ) (ctx : Ctx) → is_done (t ∷ ns) (with_cancel t ctx) ≡ true
unfolding is_done
is_done_own ns t ctx = if_true (contains (t ∷ ns) t) _ (contains_self t ns)

is_done_under :
    (ns : List ℕ) (t : ℕ) (ctx : Ctx)
    → is_done ns ctx ≡ true
    → is_done ns (with_cancel t ctx) ≡ true
unfolding is_done
is_done_under ns t ctx h = ground (arith, h)

module _ (B : Backend) where
  start_resolver_watch-Opens :
      (ctx : Ctx) (dr : DynamicResolver) (name : String) (m : Manager B) (s : B.State)
      → m.config.enabled ≡ true
      → Opens B ctx name m.fresh m (start_resolver_watch B ctx dr name (record m { backend = s }))
  unfolding start_resolver_watch tracking stop workload_tag
  start_resolver_watch-Opens ctx dr name m s on =
      subst (Opens B ctx name m.fresh m) (sym (if_true m.config.enabled _ on))
        (answered (B.watch wctx name s).1 refl)
    where
      wctx : Ctx
      wctx = with_cancel m.fresh ctx

      w : DynamicWatch B
      w = record {
        ctx = wctx;
        name = name;
        tag = workload_tag B (record m { backend = s });
        stream = (B.watch wctx name s).0;
      }

      answered :
          (e : Option Error)
          → (B.watch wctx name s).1 ≡ e
          → Opens B ctx name m.fresh m (
              tracking B w e m.fresh dr
                (record m { backend = (B.watch wctx name s).2; fresh = suc m.fresh }))
      answered (some e) said = refused e _ (record {
        own = wctx;
        asked = s;
        refused_by = said;
        done = is_done_own m.cancelled m.fresh ctx;
        none_listed = refl;
        leaves = record { same_resolvers = refl; same_watches = refl; same_closed = refl };
      })
      answered none said =
          opened (record dr { cancel = some m.fresh }) _
            (record {
              watch = w;
              asked = s;
              listed = refl;
              accepted = said;
              same_stream = refl;
              same_backend = refl;
              same_name = refl;
              same_tag = refl;
              own_ctx = refl;
              own_cancel = refl;
              stops = λ cancelled. is_done_own cancelled m.fresh ctx;
              ends = λ cancelled. is_done_under cancelled m.fresh ctx;
              leaves = record { same_resolvers = refl; same_watches = refl; same_closed = refl };
            })

  -- The registry's `Watch` does not fail.
  abbrev pub Watches : String → Type 0
  Watches name = (ctx : Ctx) (s : B.State) → (B.watch ctx name s).1 ≡ none

  start_resolver_watch-Watches :
      (ctx : Ctx) (dr : DynamicResolver) (name : String) (n : Manager B)
      → n.config.enabled ≡ true
      → Watches name
      → (start_resolver_watch B ctx dr name n).0 ≡ ok (record dr { cancel = some n.fresh })
  unfolding start_resolver_watch tracking
  start_resolver_watch-Watches ctx dr name n on watches =
      ground (arith, watches (with_cancel n.fresh ctx) n.backend)

  -- The seeds of an enabled manager change the registry's state alone.
  direct_state :
      (ctx : Ctx) (name view fallback : String) (m : Manager B)
      → m.config.enabled ≡ true
      → (s : B.State) × ((resolve_endpoint_direct B ctx name view fallback m).1
          ≡ record m { backend = s })
  unfolding resolve_endpoint_direct
  direct_state ctx name view fallback m on =
      (_, ap (λ (x : Result String × Manager B). x.1) (if_true m.config.enabled _ on))

  service_state :
      (ctx : Ctx) (name : String) (dr : DynamicResolver) (fallback : Service) (m : Manager B)
      → m.config.enabled ≡ true
      → (s : B.State) × ((seed_service_endpoint B ctx name dr fallback m).1
          ≡ record m { backend = s })
  unfolding seed_service_endpoint
  service_state ctx name dr fallback m on =
      (_, ap (λ (x : Result Snapshot × Manager B). x.1) (if_true m.config.enabled _ on))

  start_resolver_watch-Opens_from :
      (ctx : Ctx) (dr : DynamicResolver) (name : String) (m n : Manager B) (s : B.State)
      → n ≡ record m { backend = s }
      → m.config.enabled ≡ true
      → Opens B ctx name m.fresh m (start_resolver_watch B ctx dr name n)
  start_resolver_watch-Opens_from ctx dr name m n s same on =
      subst (λ k. Opens B ctx name m.fresh m (start_resolver_watch B ctx dr name k)) (sym same)
        (start_resolver_watch-Opens ctx dr name m s on)

  -- With discovery enabled, `WatchResolve` and `WatchResolveService` leave the managed resolvers and
  -- their watches alone. Either they return a resolver and start one goroutine for it, on the stream
  -- that the registry's `Watch` of the name gave and on the context that it was given, which is done
  -- after the resolver's `Stop` and whenever the caller's is. Or they return the error of that `Watch`,
  -- start none, and the context that it was given is done.
  pub watch_resolve_opens :
      (ctx : Ctx) (name fallback : String) (service_fallback : Service)
      (os : List (Option ResolverOption)) (m : Manager B)
      → m.config.enabled ≡ true
      → Opens B ctx name m.fresh m (watch_resolve B ctx name fallback os m)
        × Opens B ctx name m.fresh m (watch_resolve_service B ctx name service_fallback os m)
  unfolding watch_resolve watch_resolve_service
  watch_resolve_opens ctx name fallback service_fallback os m on =
      let (s, direct) =
        direct_state (with_timeout m.seed_timeout ctx) name
          (for_address fallback os m.prefer_view).view fallback m on in
      let (t, seeded) =
        service_state (with_timeout m.seed_timeout ctx) name
          (for_service service_fallback os m.prefer_view) service_fallback m on in
      (
        subst (Opens B ctx name m.fresh m) (sym (if_true m.config.enabled _ on))
            (start_resolver_watch-Opens_from ctx _ name m _ s direct on),
        subst (Opens B ctx name m.fresh m) (sym (if_true m.config.enabled _ on))
            (start_resolver_watch-Opens_from ctx _ name m _ t seeded on),
      )

  -- A resolver was returned.
  unfoldable pub Returns : Result DynamicResolver × Manager B → Type 0
  Returns x = (dr : DynamicResolver) × (x.0 ≡ ok dr)

  start_resolver_watch-Returns :
      (ctx : Ctx) (dr : DynamicResolver) (name : String) (m n : Manager B) (s : B.State)
      → n ≡ record m { backend = s }
      → m.config.enabled ≡ true
      → Watches name
      → Returns (start_resolver_watch B ctx dr name n)
  unfolding Returns
  start_resolver_watch-Returns ctx dr name m n s same on watches = (
    _,
    start_resolver_watch-Watches ctx dr name n (ap (λ (k : Manager B). k.config.enabled) same ∙ on)
        watches,
  )

  -- With discovery enabled, and a registry whose `Watch` of the name does not fail, `WatchResolve` and
  -- `WatchResolveService` return a resolver, with a fallback or without, whatever the registry's
  -- resolve answers.
  pub watch_resolve_fail_open :
      (ctx : Ctx) (name fallback : String) (service_fallback : Service)
      (os : List (Option ResolverOption)) (m : Manager B)
      → m.config.enabled ≡ true
      → Watches name
      → Returns (watch_resolve B ctx name fallback os m)
        × Returns (watch_resolve_service B ctx name service_fallback os m)
  unfolding watch_resolve watch_resolve_service
  watch_resolve_fail_open ctx name fallback service_fallback os m on watches =
      let (s, direct) =
        direct_state (with_timeout m.seed_timeout ctx) name
          (for_address fallback os m.prefer_view).view fallback m on in
      let (t, seeded) =
        service_state (with_timeout m.seed_timeout ctx) name
          (for_service service_fallback os m.prefer_view) service_fallback m on in
      (
        subst Returns (sym (if_true m.config.enabled _ on))
            (start_resolver_watch-Returns ctx _ name m _ s direct on watches),
        subst Returns (sym (if_true m.config.enabled _ on))
            (start_resolver_watch-Returns ctx _ name m _ t seeded on watches),
      )

  -- With discovery disabled both calls leave the manager as it is, and open no watch. Without a
  -- fallback they fail with `ErrDiscoveryDisabledNoFallback`; with one they return a resolver that
  -- is pinned to it: to the address alone, or to the service's address and scheme.
  pub watch_resolve-disabled :
      (ctx : Ctx) (name fallback : String) (service_fallback : Service)
      (os : List (Option ResolverOption)) (m : Manager B)
      → m.config.enabled ≡ false
      → (watch_resolve B ctx name fallback os m ≡ (
          if is_empty fallback then (err (disabled_err name), m) else (
            ok (
                store_snapshot
                  (record { address = fallback; scheme = "" })
                  (for_address fallback os m.prefer_view)),
            m,
          )))
        × (watch_resolve_service B ctx name service_fallback os m ≡ (
            let dr = for_service service_fallback os m.prefer_view in
            if is_empty service_fallback.address then (err (disabled_err name), m) else (
              ok (
                  store_snapshot
                    (record { address = dr.fallback; scheme = dr.fallback_scheme })
                    dr),
              m,
            )))
  unfolding watch_resolve watch_resolve_service resolve_endpoint_direct seed_service_endpoint
      start_resolver_watch pinned address_snapshot snapshot_or fallback_or fallback_snapshot
  watch_resolve-disabled ctx name fallback service_fallback os m off = (ground arith, ground arith)
