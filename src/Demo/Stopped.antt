-- ===== src/Demo/Stopped.antt =====
-- The end of the demo of services/main.go: the watch that it started is stopped.
use lib_service_discovery.Common.{
  ℕ, String, ◌≡◌, sym, ap, subst, ◌∙◌, true, false, Option, none, some, List, [], arith, is_empty,
  contains, if_true, if_false,
}
use lib_service_discovery.Context.{Ctx, background, is_done}
use lib_service_discovery.Errors.{Result}
use lib_service_discovery.Types.{zero_service}
use lib_service_discovery.Backend.{Backend}
use lib_service_discovery.Manager.{Manager}
use lib_service_discovery.Dynamic.{DynamicResolver, stop}
use lib_service_discovery.Dynamic.Opened.{Tracks, Opens, opened, refused, watch_resolve_opens}
use lib_service_discovery.Manager.Lifecycle.Cancels.{close-cancelled, deregister-cancelled}
use lib_service_discovery.Demo.{started, start_resolver, shut_down}

module _ (B : Backend) where
  stop-contains :
      (dr : DynamicResolver) (t : ℕ) (cancelled : List ℕ)
      → dr.cancel ≡ some t
      → contains (stop (some dr) cancelled) t ≡ true
  unfolding stop
  stop-contains dr t cancelled has = ground arith

  shut_down-contains :
      (name : String) (dr : DynamicResolver) (m : Manager B) (t : ℕ)
      → dr.cancel ≡ some t
      → contains (shut_down B name (some dr) m).cancelled t ≡ true
  unfolding shut_down
  shut_down-contains name dr m t has =
      close-cancelled B _ t
        (ap (λ c. contains c t) (deregister-cancelled B _ _ _) ∙ stop-contains dr t m.cancelled has)

  Opens-Tracks :
      (ctx : Ctx) (name : String) (t : ℕ) (m : Manager B) (x : Result DynamicResolver × Manager B)
      (dr : DynamicResolver)
      → Opens B ctx name t m x
      → (started B x).0 ≡ some dr
      → Tracks B ctx name t m dr (started B x).1
  unfolding started
  Opens-Tracks ctx name t m x dr (opened found n tracks) e =
      let same : (found ≡ dr) = cc in subst (λ d. Tracks B ctx name t m d n) same tracks
  Opens-Tracks ctx name t m x dr (refused bad n done) e = cc

  -- The resolver that the demo starts for its downstream has a watch.
  pub start_resolver-Tracks :
      (next : String) (m : Manager B) (dr : DynamicResolver)
      → m.config.enabled ≡ true
      → is_empty next ≡ false
      → (start_resolver B next m).0 ≡ some dr
      → Tracks B background next m.fresh m dr (start_resolver B next m).1
  unfolding start_resolver
  start_resolver-Tracks next m dr on named made =
      let opens = (watch_resolve_opens B background next "" zero_service [] m on).0 in
      let taken = if_false (is_empty next) (none, m) named in
      subst (λ (x : Option DynamicResolver × Manager B). Tracks B background next m.fresh m dr x.1)
        (sym taken)
        (Opens-Tracks background next m.fresh m _ dr opens
          (ap (λ (x : Option DynamicResolver × Manager B). x.0) (sym taken) ∙ made))

  -- That watch ends with the demo, whatever the manager went through in between.
  pub shut_down_stops :
      (name next : String) (m n k : Manager B) (dr : DynamicResolver)
      (tracks : Tracks B background next m.fresh m dr n)
      → is_done (shut_down B name (some dr) k).cancelled tracks.watch.ctx ≡ true
  unfolding is_done
  shut_down_stops name next m n k dr tracks =
      subst (λ c. is_done (shut_down B name (some dr) k).cancelled c ≡ true) (sym tracks.own_ctx)
        (if_true _ _ (shut_down-contains name dr k m.fresh tracks.own_cancel))
