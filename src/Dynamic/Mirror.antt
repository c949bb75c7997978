-- ===== src/Dynamic/Mirror.antt =====
-- The seed of `WatchResolve` against the one-shot resolvers.
use lib_service_discovery.Common.{
  String, ◌≡◌, refl, ap, sym, ◌∙◌, inl, inr, true, false, none, some, Bool-cases, if_true, if_false,
}
use lib_service_discovery.Common.Dict.{lookup}
use lib_service_discovery.Context.{Ctx, with_timeout}
use lib_service_discovery.Errors.{Result, ok, err}
use lib_service_discovery.Types.{Endpoint, EndpointView, Service, endpoint_for}
use lib_service_discovery.Backend.{Backend}
use lib_service_discovery.Resolver.{Resolver, new_resolver, seed_with, store, service, empty_err}
use lib_service_discovery.Manager.{Manager, workload_tag}
use lib_service_discovery.Manager.Managed.{
  managed_resolver_for, seed_once, seed_managed_resolver, start_managed_watch,
}
use lib_service_discovery.Manager.Managed.Once.{managed_resolver_for_first}
use lib_service_discovery.Manager.Resolve.{
  endpoint_from, view_text, endpoint_text, resolve_empty_fallback, resolve_endpoint,
}
use lib_service_discovery.Dynamic.Seed.{direct_view, direct_text, resolve_endpoint_direct}

view_text-direct_view :
    (name : String) (view : EndpointView) (fallback : String) (r : Result Endpoint)
    → view_text name view fallback false r ≡ direct_view fallback r
unfolding view_text endpoint_text direct_view
view_text-direct_view name view fallback (ok e) = refl
view_text-direct_view name view fallback (err e) = refl

-- The resolver that a first seed leaves, with its watch.
seeded_by : Result Service → Resolver → Resolver
seeded_by answer mr = record (seed_with answer (record new_resolver { once = true })) {
  cancel = mr.cancel;
}

seeded_answer :
    (name : String) (view : EndpointView) (fallback : String) (answer : Result Service)
    (mr : Resolver)
    → endpoint_from name view fallback false (seeded_by answer mr)
      ≡ direct_text view fallback answer
unfolding seeded_by endpoint_from seed_with store service direct_text resolve_empty_fallback
    empty_err
seeded_answer name view fallback (ok svc) mr =
    view_text-direct_view name view fallback (endpoint_for svc view)
seeded_answer name view fallback (err e) mr = refl

module _ (B : Backend) where
  first_resolver :
      (ctx : Ctx) (name : String) (m : Manager B)
      → lookup name m.resolvers ≡ none
      → m.closed ≡ false
      → let answer =
          (B.resolve (with_timeout m.seed_timeout ctx) name (workload_tag B m) m.backend).0 in
        let mr = (managed_resolver_for B ctx name m).0 in
        mr ≡ seeded_by answer (record new_resolver { cancel = some m.fresh })
  unfolding seed_once seed_managed_resolver start_managed_watch seeded_by workload_tag
  first_resolver ctx name m missing live =
      ap (λ (x : Resolver × Manager B). x.0) (managed_resolver_for_first B ctx name m missing live)

  -- Where a manager has no resolver of a name yet, the seed of `WatchResolve` answers as
  -- `ResolveEndpoint` does on the same manager, on every branch: disabled, found, without the view,
  -- and refused, each with a fallback and without.
  pub resolve_endpoint_direct-resolve_endpoint :
      (ctx : Ctx) (name : String) (view : EndpointView) (fallback : String) (m : Manager B)
      → lookup name m.resolvers ≡ none
      → m.closed ≡ false
      → (resolve_endpoint_direct B (with_timeout m.seed_timeout ctx) name view fallback m).0
        ≡ (resolve_endpoint B ctx name view fallback false m).0
  unfolding resolve_endpoint_direct resolve_endpoint
  resolve_endpoint_direct-resolve_endpoint ctx name view fallback m missing live =
      elim (Bool-cases m.config.enabled) [
        | inr off ↦
            ap (λ (x : Result String × Manager B). x.0) (if_false m.config.enabled _ off)
            ∙ sym (ap (λ (x : Result String × Manager B). x.0) (if_false m.config.enabled _ off))
        | inl on ↦
            ap (λ (x : Result String × Manager B). x.0) (if_true m.config.enabled _ on)
            ∙ sym (
                seeded_answer name view fallback
                  (B.resolve (with_timeout m.seed_timeout ctx) name (workload_tag B m) m.backend).0
                  (record new_resolver { cancel = some m.fresh }))
            ∙ sym (
                ap (endpoint_from name view fallback false)
                  (first_resolver ctx name m missing live))
            ∙ sym (ap (λ (x : Result String × Manager B). x.0) (if_true m.config.enabled _ on))
      ]
