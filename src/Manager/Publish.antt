-- ===== src/Manager/Publish.antt =====
-- What `Manager.Register` asks of the backend, on each branch.
use lib_service_discovery.Common.{
  String, ◌<>◌, ◌≡◌, refl, subst, sym, ap, ◌∙◌, ◌⊎◌, inl, inr, Bool, true, false, ◌&&◌, ◌||◌,
  Option, none, some, [], ◌∷◌, ◌++◌, arith, if◌then◌else◌, Bool-cases, Option-cases, if_true,
  if_false, is_empty, is_some,
}
use lib_service_discovery.Context.{Ctx}
use lib_service_discovery.Errors.{ok, err, sentinel, wrap, no_endpoint, invalid_ttl}
use lib_service_discovery.Types.{Endpoint, HealthCheck, Service, endpoint_for, internal_view}
use lib_service_discovery.Platform.{Platform, IsGo, trim_space}
use lib_service_discovery.Config.{ttl_with_defaults}
use lib_service_discovery.Config.Ttl.{IsSafeTtl, ttl_with_defaults_cases}
use lib_service_discovery.Backend.{Backend}
use lib_service_discovery.Manager.{Manager}
use lib_service_discovery.Manager.Registration.{
  health_check_url, advertised_external, advertised_internal, advertised, probe_of, floored,
  check_mode, apply_health_check, tagged, register_checked, register,
}
use lib_service_discovery.Manager.Advertise.{
  advertised-endpoints, advertised-rest, no_addresses, has_address,
}

module _ (p : Platform) (go : IsGo p) where
  -- A TTL that is read: blank, or a duration.
  abbrev pub IsReadTtl : String → Type 0
  IsReadTtl raw = (trim_space raw ≡ "") ⊎ (is_some (p.parse_duration (trim_space raw)) ≡ true)

  -- A TTL that is given, and that is neither blank nor a duration.
  pub record IsBadTtl (raw : String) : Type 0 where
    pub given : is_empty raw ≡ false
    pub text : is_empty (trim_space raw) ≡ false
    pub unread : p.parse_duration (trim_space raw) ≡ none

  -- The health check that is published for the one of the caller: a TTL at or above the floor, for one
  -- that is blank or a duration, or the URL of an endpoint, by preference the internal one.
  pub data CheckFor (svc : Service) : Option HealthCheck → Option HealthCheck → Type 0 where
    unchecked : CheckFor svc none none
    by_ttl :
        (hc : HealthCheck) (t : String)
        → is_empty hc.ttl ≡ false
        → IsReadTtl hc.ttl
        → ttl_with_defaults p hc.ttl ≡ ok t
        → IsSafeTtl p go t
        → CheckFor svc (some hc) (some (record hc { ttl = t }))
    by_http :
        (hc : HealthCheck) (e : Endpoint)
        → is_empty hc.ttl ≡ true
        → endpoint_for svc internal_view ≡ ok e
        → CheckFor svc
            (some hc)
            (some (record hc { http = health_check_url e.scheme e.address e.port hc.path }))

  check_mode-cases :
      (hc : HealthCheck) (s : Service) (e : Endpoint)
      → endpoint_for s internal_view ≡ ok e
      → (IsBadTtl hc.ttl
          × (check_mode p hc s ≡ err (wrap (trim_space hc.ttl) (sentinel invalid_ttl))))
        ⊎ ((h : Option HealthCheck) × CheckFor (record s { health_check = h }) (some hc) h
            × (check_mode p hc s ≡ ok (record s { health_check = h })))
  unfolding check_mode probe_of floored endpoint_for
  check_mode-cases hc s e reached = elim (Bool-cases (is_empty hc.ttl)) [
    | inl http ↦ inr (
      some (probe_of (ok e) hc),
      by_http hc e http reached,
      if_true (is_empty hc.ttl) _ http
          ∙ ap (λ r. ok (record s { health_check = some (probe_of r hc) })) reached,
    )
    | inr ttl ↦ elim (ttl_with_defaults_cases p go hc.ttl) [
      | inl (t, good, floor, read) ↦ inr (
        some (record hc { ttl = t }),
        by_ttl hc t ttl read good floor,
        if_false (is_empty hc.ttl) _ ttl ∙ ap (λ r. floored r hc s) good,
      )
      | inr (bad, text, unread) ↦ inl (
        record { given = ttl; text = text; unread = unread },
        if_false (is_empty hc.ttl) _ ttl ∙ ap (λ r. floored r hc s) bad,
      )
    ]
  ]

  apply_health_check-cases :
      (s : Service) (e : Endpoint)
      → endpoint_for s internal_view ≡ ok e
      → ((hc : HealthCheck) × (s.health_check ≡ some hc)
          × IsBadTtl hc.ttl
          × (apply_health_check p s ≡ err (wrap (trim_space hc.ttl) (sentinel invalid_ttl))))
        ⊎ ((h : Option HealthCheck) × CheckFor (record s { health_check = h }) s.health_check h
            × (apply_health_check p s ≡ ok (record s { health_check = h })))
  unfolding apply_health_check
  apply_health_check-cases s e reached = elim (Option-cases s.health_check) [
    | inl missing ↦ inr (
      none,
      subst (λ o. CheckFor (record s { health_check = none }) o none) (sym missing) unchecked,
      rw (apply_health_check, missing) (ap (λ h. ok (record s { health_check = h })) missing),
    )
    | inr (hc, given) ↦ elim (check_mode-cases hc s e reached) [
      | inl (unread, bad) ↦ inl (hc, given, unread, rw (apply_health_check, given) bad)
      | inr (h, check, good) ↦ inr (
        h,
        subst (λ o. CheckFor (record s { health_check = h }) o h) (sym given) check,
        rw (apply_health_check, given) good,
      )
    ]
  ]

  no_endpoint_left :
      (s : Service)
      → (is_some s.external || is_some s.internal) ≡ true
      → s.external ≡ none
      → s.internal ≡ none
      → ⊥
  no_endpoint_left s h x i = ground arith

  reached :
      (s : Service)
      → (is_some s.external || is_some s.internal) ≡ true
      → (e : Endpoint) × (endpoint_for s internal_view ≡ ok e)
  unfolding endpoint_for
  reached s h = elim (Option-cases s.internal) [
    | inr (e, found) ↦ (e, rw (endpoint_for, found) refl)
    | inl missing ↦ elim (Option-cases s.external) [
      | inr (e, found) ↦ (e, rw (endpoint_for, missing, found) refl)
      | inl none_left ↦ absurd (no_endpoint_left s h none_left missing)
    ]
  ]

  module _ (B : Backend) where
    -- What is published for a service of the caller.
    pub record IsPublished (m : Manager B) (svc s : Service) : Type 0 where
      pub external : s.external ≡ advertised_external m.config svc.port svc.scheme
      pub internal : s.internal ≡ advertised_internal m.config svc.port
      pub tags : s.tags ≡ (
          if is_empty m.workload then svc.tags else svc.tags ++ (("workload=" <> m.workload) ∷ []))
      pub check : CheckFor s svc.health_check s.health_check

    -- An address is configured, an external or an internal one.
    abbrev pub HasAddress : Manager B → Type 0
    HasAddress m =
        (is_empty m.config.advertise_addr && is_empty m.config.advertise_internal_addr) ≡ false

    tagged-kept :
        (m : Manager B) (s : Service)
        → ((tagged p B m s).external ≡ s.external)
          × ((tagged p B m s).internal ≡ s.internal)
          × ((tagged p B m s).health_check ≡ s.health_check)
          × ((tagged p B m s).tags ≡ (
              if is_empty m.workload then s.tags else s.tags ++ (("workload=" <> m.workload) ∷ [])))
    unfolding tagged
    tagged-kept m s = ground arith

    register_on :
        (ctx : Ctx) (svc : Service) (m : Manager B) (b : Bool)
        → m.config.enabled ≡ true
        → (is_some (advertised m.config svc).external || is_some (advertised m.config svc).internal)
          ≡ b
        → register p B ctx svc m ≡ (
            if b
            then register_checked p B ctx
                (apply_health_check p (tagged p B m (advertised m.config svc)))
                m
            else (some (sentinel no_endpoint), m))
    unfolding register
    register_on ctx svc m b on reach =
        if_true m.config.enabled (none, m) on
        ∙ ap
            (λ x.
              if x
              then register_checked p B ctx
                  (apply_health_check p (tagged p B m (advertised m.config svc))) m
              else (some (sentinel no_endpoint), m))
            reach

    -- With discovery enabled, `Register` has three outcomes. Without a configured address it returns
    -- `ErrNoEndpoint`. With one, and a TTL that is neither blank nor a duration, it returns
    -- `ErrInvalidTTL`. In both cases the backend is not asked. With one, and no such TTL, the backend is
    -- asked once, for a service with the configured endpoints, the caller's tags and the workload's, and
    -- a safe check, and its answer is returned. The three exclude each other.
    pub register_cases :
        (ctx : Ctx) (svc : Service) (m : Manager B)
        → m.config.enabled ≡ true
        → ((is_empty m.config.advertise_addr ≡ true)
            × (is_empty m.config.advertise_internal_addr ≡ true)
            × (register p B ctx svc m ≡ (some (sentinel no_endpoint), m)))
          ⊎ ((hc : HealthCheck) × (svc.health_check ≡ some hc)
              × HasAddress m
              × IsBadTtl hc.ttl
              × (register p B ctx svc m
                  ≡ (some (wrap (trim_space hc.ttl) (sentinel invalid_ttl)), m)))
          ⊎ ((s : Service) × HasAddress m
              × IsPublished m svc s
              × (register p B ctx svc m ≡ (
                (B.register ctx s m.backend).0,
                record m { backend = (B.register ctx s m.backend).1 },
              )))
    unfolding register_checked
    register_cases ctx svc m on =
        let a : Service = advertised m.config svc in
        let s : Service = tagged p B m a in
        let (ax, ai) = advertised-endpoints m.config svc in
        let (ah, at) = advertised-rest m.config svc in
        let (kx, ki, kh, kt) = tagged-kept m a in
        elim (Bool-cases (is_some a.external || is_some a.internal)) [
          | inr bare ↦
              let (nx, ni) = no_addresses m.config svc bare in
              inl (nx, ni, register_on ctx svc m false on bare)
          | inl full ↦
              let (e, found) = reached s (
                ap (λ x. is_some x || is_some s.internal) kx
                ∙ ap (λ x. is_some a.external || is_some x) ki
                ∙ full) in
              elim (apply_health_check-cases s e found) [
                | inl (hc, given, unread, bad) ↦ inr (
                    inl (
                      hc,
                      sym (kh ∙ ah) ∙ given,
                      has_address m.config svc full,
                      unread,
                      register_on ctx svc m true on full
                          ∙ ap (λ r. register_checked p B ctx r m) bad,
                    ))
                | inr (h, check, good) ↦ inr (
                    inr (
                      record s { health_check = h },
                      has_address m.config svc full,
                      record {
                        external = kx ∙ ax;
                        internal = ki ∙ ai;
                        tags =
                            kt
                            ∙ ap
                                (λ ts.
                                  if is_empty m.workload
                                  then ts
                                  else ts ++ (("workload=" <> m.workload) ∷ []))
                                at;
                        check =
                            subst (λ o. CheckFor (record s { health_check = h }) o h) (kh ∙ ah)
                              check;
                      },
                      register_on ctx svc m true on full
                          ∙ ap (λ r. register_checked p B ctx r m) good,
                    ))
              ]
        ]
