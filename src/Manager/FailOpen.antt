-- ===== src/Manager/FailOpen.antt =====
-- The one-shot resolvers of manager.go: the same call again, and no failure behind a fallback.
use lib_service_discovery.Common.{
  String, ◌≡◌, subst, ◌∙◌, ap, sym, ◌⊎◌, inl, inr, Bool, true, false, is_empty, if_true, if_false,
  if◌then◌else◌, Bool-cases,
}
use lib_service_discovery.Context.{Ctx}
use lib_service_discovery.Errors.{ok}
use lib_service_discovery.Types.{EndpointView, Service}
use lib_service_discovery.Backend.{Backend}
use lib_service_discovery.Resolver.{Resolver}
use lib_service_discovery.Manager.{Manager}
use lib_service_discovery.Manager.Managed.{managed_resolver_for}
use lib_service_discovery.Manager.Resolve.{
  fallback_or, service_or, disabled_err, address_from, service_from, endpoint_from, resolve,
  resolve_service, resolve_endpoint, resolve_url, resolve_preferred_endpoint, resolve_preferred_url,
}
use lib_service_discovery.Manager.Managed.Once.{
  managed_resolver_for-config, managed_resolver_for_idem,
}
use lib_service_discovery.Manager.Resolve.Answers.{
  Succeeds, Served, service_or-Succeeds, service_from-Succeeds, fallback_or-Succeeds,
  address_from-Succeeds, endpoint_from-Succeeds, fallback_or-ok, endpoint_from-ok,
}

module _ (B : Backend) where
  -- The common shape of the resolves: from the resolver when enabled, else a fixed answer.
  ask {ℓ} : {A : Type ℓ} → (Resolver → A) → A → Ctx → String → Manager B → A × Manager B
  ask from off ctx name m =
      if m.config.enabled
      then (let (mr, m₁) = managed_resolver_for B ctx name m in (from mr, m₁))
      else (off, m)

  ask_off {ℓ} :
      {A : Type ℓ} (from : Resolver → A) (off : A) (ctx : Ctx) (name : String) (m : Manager B)
      → m.config.enabled ≡ false
      → ask from off ctx name m ≡ (off, m)
  unfolding ask
  ask_off from off ctx name m h = if_false m.config.enabled _ h

  ask_on {ℓ} :
      {A : Type ℓ} (from : Resolver → A) (off : A) (ctx : Ctx) (name : String) (m : Manager B)
      → m.config.enabled ≡ true
      → ask from off ctx name m
        ≡ (from (managed_resolver_for B ctx name m).0, (managed_resolver_for B ctx name m).1)
  unfolding ask
  ask_on from off ctx name m h = if_true m.config.enabled _ h

  ask_idem {ℓ} :
      {A : Type ℓ} (from : Resolver → A) (off : A) (ctx later : Ctx) (name : String) (m : Manager B)
      → ask from off later name (ask from off ctx name m).1 ≡ ask from off ctx name m
  ask_idem from off ctx later name m = elim (Bool-cases m.config.enabled) [
    | inr disabled ↦
        ap (λ x. ask from off later name x.1) (ask_off from off ctx name m disabled)
        ∙ ask_off from off later name m disabled
        ∙ sym (ask_off from off ctx name m disabled)
    | inl enabled ↦
        ap (λ x. ask from off later name x.1) (ask_on from off ctx name m enabled)
        ∙ ask_on from off later name (managed_resolver_for B ctx name m).1
            (ap (λ c. c.enabled) (managed_resolver_for-config B ctx name m) ∙ enabled)
        ∙ ap (λ x. (from x.0, x.1)) (managed_resolver_for_idem B ctx later name m)
        ∙ sym (ask_on from off ctx name m enabled)
  ]

  -- Where both kinds of answer have a property, so has the answer.
  ask-All {ℓ κ} :
      {A : Type ℓ} (P : A → Type κ) (from : Resolver → A) (off : A)
      → P off
      → ((mr : Resolver) → P (from mr))
      → (ctx : Ctx) (name : String) (m : Manager B) → P (ask from off ctx name m).0
  ask-All P from off h k ctx name m = elim (Bool-cases m.config.enabled) [
    | inr disabled ↦ subst (λ x. P x.0) (sym (ask_off from off ctx name m disabled)) h
    | inl enabled ↦ subst (λ x. P x.0) (sym (ask_on from off ctx name m enabled)) (k _)
  ]

  -- A second `Resolve`, `ResolveService`, `ResolveEndpoint` or `ResolveURL` with the same arguments,
  -- from any context, has the answer of the first and changes nothing: no state of the manager, and
  -- none of the registry.
  pub resolve_idem :
      (ctx later : Ctx) (name fallback : String) (m : Manager B)
      → (let done = resolve B ctx name fallback m in resolve B later name fallback done.1 ≡ done)
        × ((svc : Service)
            → let done = resolve_service B ctx name svc m in
              resolve_service B later name svc done.1 ≡ done)
        × ((view : EndpointView) (as_url : Bool)
            → let done = resolve_endpoint B ctx name view fallback as_url m in
              resolve_endpoint B later name view fallback as_url done.1 ≡ done)
  unfolding resolve resolve_service resolve_endpoint ask
  resolve_idem ctx later name fallback m = (
    ask_idem (address_from fallback) (fallback_or (disabled_err name) fallback) ctx later name m,
    λ svc. ask_idem (service_from svc) (service_or (disabled_err name) svc) ctx later name m,
    λ view as_url.
        ask_idem (endpoint_from name view fallback as_url)
          (fallback_or (disabled_err name) fallback) ctx later name m,
  )

  resolve_endpoint-Succeeds :
      (ctx : Ctx) (name : String) (view : EndpointView) (fallback : String) (as_url : Bool)
      (m : Manager B)
      → is_empty fallback ≡ false
      → Succeeds (resolve_endpoint B ctx name view fallback as_url m).0
  unfolding resolve_endpoint ask
  resolve_endpoint-Succeeds ctx name view fallback as_url m given =
      ask-All Succeeds (endpoint_from name view fallback as_url)
        (fallback_or (disabled_err name) fallback)
        (fallback_or-Succeeds (disabled_err name) fallback given)
        (λ mr. endpoint_from-Succeeds name view fallback as_url mr given) ctx name m

  -- Behind a fallback that is not empty no resolve of an address, an endpoint or a URL fails, for a
  -- given view or the preferred one, and behind a fallback service with an address no resolve of a
  -- service, in any state of the manager and the registry.
  pub resolve_fail_open :
      (ctx : Ctx) (name fallback : String) (svc : Service) (view : EndpointView) (m : Manager B)
      → is_empty fallback ≡ false
      → is_empty svc.address ≡ false
      → Succeeds (resolve B ctx name fallback m).0
        × Succeeds (resolve_service B ctx name svc m).0
        × Succeeds (resolve_endpoint B ctx name view fallback false m).0
        × Succeeds (resolve_url B ctx name view fallback m).0
        × Succeeds (resolve_preferred_endpoint B ctx name fallback m).0
        × Succeeds (resolve_preferred_url B ctx name fallback m).0
  unfolding resolve resolve_service resolve_url resolve_preferred_endpoint resolve_preferred_url ask
  resolve_fail_open ctx name fallback svc view m given served = (
    ask-All Succeeds (address_from fallback) (fallback_or (disabled_err name) fallback)
        (fallback_or-Succeeds (disabled_err name) fallback given)
        (λ mr. address_from-Succeeds fallback mr given) ctx name m,
    ask-All Succeeds (service_from svc) (service_or (disabled_err name) svc)
        (service_or-Succeeds (disabled_err name) svc served)
        (λ mr. service_from-Succeeds svc mr served) ctx name m,
    resolve_endpoint-Succeeds ctx name view fallback false m given,
    resolve_endpoint-Succeeds ctx name view fallback true m given,
    resolve_endpoint-Succeeds ctx name m.prefer_view fallback false m given,
    resolve_endpoint-Succeeds ctx name m.prefer_view fallback true m given,
  )

  -- What `ResolveEndpoint` and `ResolveURL` answer is the fallback, or the endpoint of the requested
  -- view of the service that the name's resolver has cached, and as a URL only with a scheme.
  pub resolve_endpoint-provenance :
      (ctx : Ctx) (name fallback : String) (view : EndpointView) (as_url : Bool) (m : Manager B)
      (a : String)
      → (resolve_endpoint B ctx name view fallback as_url m).0 ≡ ok a
      → ((a ≡ fallback) × (is_empty fallback ≡ false))
        ⊎ Served view as_url (managed_resolver_for B ctx name m).0 a
  unfolding resolve_endpoint ask
  resolve_endpoint-provenance ctx name fallback view as_url m a h =
      elim (Bool-cases m.config.enabled) [
        | inr disabled ↦ inl (
            fallback_or-ok (disabled_err name) fallback a (
              ap (λ x. x.0)
                (sym (ask_off (endpoint_from name view fallback as_url) _ ctx name m disabled))
              ∙ h))
        | inl enabled ↦
            endpoint_from-ok name view fallback as_url (managed_resolver_for B ctx name m).0 a (
              ap (λ x. x.0)
                (sym (
                  ask_on (endpoint_from name view fallback as_url)
                    (fallback_or (disabled_err name) fallback) ctx name m enabled))
              ∙ h)
      ]
