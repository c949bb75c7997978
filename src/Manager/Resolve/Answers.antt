-- ===== src/Manager/Resolve/Answers.antt =====
-- What the one-shot resolvers of manager.go make of a resolver and a fallback.
use lib_service_discovery.Common.{
  String, ◌<>◌, ◌≡◌, refl, ◌∙◌, sym, ◌⊎◌, inl, inr, Bool, true, false, none, some, is_empty,
  if_true, Bool-cases, Option-cases,
}
use lib_service_discovery.Errors.{Error, Result, ok, err}
use lib_service_discovery.Types.{
  Endpoint, EndpointView, Service, endpoint_addr, endpoint_for, service_addr,
}
use lib_service_discovery.Resolver.{Resolver, empty_err, service}
use lib_service_discovery.Manager.Resolve.{
  fallback_or, resolve_empty_fallback, endpoint_text, no_scheme, view_text, address_from,
  service_or, service_from, endpoint_from,
}

-- No error.
pub data Succeeds {ℓ} {A : Type ℓ} : Result A → Type ℓ where
  succeeds : (a : A) → Succeeds (ok a)

-- An address that stands for an endpoint of the cached service.
pub data Served (view : EndpointView) (as_url : Bool) (mr : Resolver) (a : String) : Type 0 where
  served_address :
      (svc : Service) (e : Endpoint)
      → service mr ≡ some svc
      → endpoint_for svc view ≡ ok e
      → as_url ≡ false
      → a ≡ endpoint_addr e
      → Served view as_url mr a
  served_url :
      (svc : Service) (e : Endpoint)
      → service mr ≡ some svc
      → endpoint_for svc view ≡ ok e
      → as_url ≡ true
      → is_empty e.scheme ≡ false
      → a ≡ e.scheme <> "://" <> endpoint_addr e
      → Served view as_url mr a

pub fallback_or-Succeeds :
    (e : Error) (fallback : String) → is_empty fallback ≡ false → Succeeds (fallback_or e fallback)
unfolding fallback_or
fallback_or-Succeeds e fallback given = rw given (succeeds fallback)

pub service_or-Succeeds :
    (e : Error) (fallback : Service)
    → is_empty fallback.address ≡ false
    → Succeeds (service_or e fallback)
unfolding service_or
service_or-Succeeds e fallback given = rw given (succeeds fallback)

pub service_from-Succeeds :
    (fallback : Service) (mr : Resolver)
    → is_empty fallback.address ≡ false
    → Succeeds (service_from fallback mr)
unfolding service_from
service_from-Succeeds fallback mr given = elim (Option-cases (service mr)) [
  | inr (svc, cached) ↦ rw (service_from, cached) (succeeds svc)
  | inl none_cached ↦
      rw (service_from, none_cached) (service_or-Succeeds (empty_err mr) fallback given)
]

pub address_from-Succeeds :
    (fallback : String) (mr : Resolver)
    → is_empty fallback ≡ false
    → Succeeds (address_from fallback mr)
unfolding address_from resolve_empty_fallback
address_from-Succeeds fallback mr given = elim (Option-cases (service mr)) [
  | inr (svc, cached) ↦ rw (address_from, cached) (succeeds (service_addr svc))
  | inl none_cached ↦
      rw (address_from, none_cached) (fallback_or-Succeeds (empty_err mr) fallback given)
]

endpoint_text-Succeeds :
    (name : String) (view : EndpointView) (fallback : String) (as_url : Bool) (e : Endpoint)
    → is_empty fallback ≡ false
    → Succeeds (endpoint_text name view fallback as_url e)
unfolding endpoint_text
endpoint_text-Succeeds name view fallback false e given = succeeds (endpoint_addr e)
endpoint_text-Succeeds name view fallback true e given = elim (Bool-cases (is_empty e.scheme)) [
  | inl bare ↦ rw bare (fallback_or-Succeeds _ fallback given)
  | inr full ↦ rw full (succeeds _)
]

view_text-Succeeds :
    (name : String) (view : EndpointView) (fallback : String) (as_url : Bool) (r : Result Endpoint)
    → is_empty fallback ≡ false
    → Succeeds (view_text name view fallback as_url r)
unfolding view_text
view_text-Succeeds name view fallback as_url (ok e) given =
    endpoint_text-Succeeds name view fallback as_url e given
view_text-Succeeds name view fallback as_url (err e) given = fallback_or-Succeeds e fallback given

pub endpoint_from-Succeeds :
    (name : String) (view : EndpointView) (fallback : String) (as_url : Bool) (mr : Resolver)
    → is_empty fallback ≡ false
    → Succeeds (endpoint_from name view fallback as_url mr)
unfolding endpoint_from resolve_empty_fallback
endpoint_from-Succeeds name view fallback as_url mr given = elim (Option-cases (service mr)) [
  | inr (svc, cached) ↦
      rw (endpoint_from, cached)
        (view_text-Succeeds name view fallback as_url (endpoint_for svc view) given)
  | inl none_cached ↦
      rw (endpoint_from, none_cached) (fallback_or-Succeeds (empty_err mr) fallback given)
]

pub fallback_or-ok :
    (e : Error) (fallback a : String)
    → fallback_or e fallback ≡ ok a
    → (a ≡ fallback) × (is_empty fallback ≡ false)
unfolding fallback_or
fallback_or-ok e fallback a h = elim (Bool-cases (is_empty fallback)) [
  | inl missing ↦ cc
  | inr given ↦ (cc, given)
]

endpoint_text-ok :
    (name : String) (view : EndpointView) (fallback : String) (as_url : Bool) (mr : Resolver)
    (svc : Service) (e : Endpoint) (a : String)
    → service mr ≡ some svc
    → endpoint_for svc view ≡ ok e
    → endpoint_text name view fallback as_url e ≡ ok a
    → ((a ≡ fallback) × (is_empty fallback ≡ false)) ⊎ Served view as_url mr a
unfolding endpoint_text
endpoint_text-ok name view fallback false mr svc e a cached found h =
    inr (served_address svc e cached found refl cc)
endpoint_text-ok name view fallback true mr svc e a cached found h =
    elim (Bool-cases (is_empty e.scheme)) [
      | inl bare ↦ inl (
          fallback_or-ok (no_scheme name view) fallback a
            (sym (if_true (is_empty e.scheme) _ bare) ∙ h))
      | inr full ↦ inr (served_url svc e cached found refl full cc)
    ]

view_text-ok :
    (name : String) (view : EndpointView) (fallback : String) (as_url : Bool) (mr : Resolver)
    (svc : Service) (r : Result Endpoint) (a : String)
    → service mr ≡ some svc
    → endpoint_for svc view ≡ r
    → view_text name view fallback as_url r ≡ ok a
    → ((a ≡ fallback) × (is_empty fallback ≡ false)) ⊎ Served view as_url mr a
unfolding view_text
view_text-ok name view fallback as_url mr svc (ok e) a cached found h =
    endpoint_text-ok name view fallback as_url mr svc e a cached found h
view_text-ok name view fallback as_url mr svc (err e) a cached found h =
    inl (fallback_or-ok e fallback a h)

endpoint_from-some :
    (name : String) (view : EndpointView) (fallback : String) (as_url : Bool) (mr : Resolver)
    (svc : Service)
    → service mr ≡ some svc
    → endpoint_from name view fallback as_url mr
      ≡ view_text name view fallback as_url (endpoint_for svc view)
unfolding endpoint_from
endpoint_from-some name view fallback as_url mr svc cached = rw (endpoint_from, cached) refl

endpoint_from-none :
    (name : String) (view : EndpointView) (fallback : String) (as_url : Bool) (mr : Resolver)
    → service mr ≡ none
    → endpoint_from name view fallback as_url mr ≡ fallback_or (empty_err mr) fallback
unfolding endpoint_from resolve_empty_fallback
endpoint_from-none name view fallback as_url mr missing = rw (endpoint_from, missing) refl

pub endpoint_from-ok :
    (name : String) (view : EndpointView) (fallback : String) (as_url : Bool) (mr : Resolver)
    (a : String)
    → endpoint_from name view fallback as_url mr ≡ ok a
    → ((a ≡ fallback) × (is_empty fallback ≡ false)) ⊎ Served view as_url mr a
endpoint_from-ok name view fallback as_url mr a h = elim (Option-cases (service mr)) [
  | inr (svc, cached) ↦
      view_text-ok name view fallback as_url mr svc (endpoint_for svc view) a cached refl
        (sym (endpoint_from-some name view fallback as_url mr svc cached) ∙ h)
  | inl missing ↦ inl (
      fallback_or-ok (empty_err mr) fallback a
        (sym (endpoint_from-none name view fallback as_url mr missing) ∙ h))
]
