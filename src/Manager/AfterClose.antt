-- ===== src/Manager/AfterClose.antt =====
-- `Close` of manager.go over the backend of consul.go: a registration that comes after it.
use lib_service_discovery.Common.{
  ◌≡◌, refl, sym, ap, subst, ◌∙◌, true, false, Option, List, [], ◌∷◌, if-All, if_true, if_false,
}
use lib_service_discovery.Context.{Ctx}
use lib_service_discovery.Errors.{Error, Result, ok, err}
use lib_service_discovery.Types.{Service}
use lib_service_discovery.Platform.{Platform}
use lib_service_discovery.Backend.{Backend}
use lib_service_discovery.Consul.Api.{Api}
use lib_service_discovery.Consul.Heartbeat.{Beats, close_beats}
use lib_service_discovery.Consul.Registry
use lib_service_discovery.Consul.Registry.Laws.{register-no_heartbeat}
use lib_service_discovery.Consul.AsBackend.{consul_backend}
use lib_service_discovery.Manager.{Manager}
use lib_service_discovery.Manager.Registration.{register, register_checked}
use lib_service_discovery.Manager.Lifecycle.{close, do_close, close_backend, drain}

module _ (api : Api) (recovered : Result Service) (p : Platform) where
  abbrev pub Consul : Backend
  Consul = consul_backend api recovered

  -- The heartbeats of a registry that is closed.
  pub record Quiet (b : Beats) : Type 0 where
    pub beats_closed : b.closed ≡ true
    pub none_held : b.heartbeats ≡ []

  do_close-Quiet :
      (m : Manager Consul)
      → m.has_registry ≡ true
      → Quiet (do_close Consul m).1.backend.registry.beats
  unfolding do_close drain close_backend Registry.close close_beats
  do_close-Quiet m has =
      subst (λ (x : Option Error × Manager Consul). Quiet x.1.backend.registry.beats)
        (sym (if_true m.has_registry _ has)) (record { beats_closed = refl; none_held = refl })

  close-Quiet :
      (m : Manager Consul)
      → m.has_registry ≡ true
      → m.close_done ≡ false
      → Quiet (close Consul m).1.backend.registry.beats
  unfolding close
  close-Quiet m has first =
      subst (λ (x : Option Error × Manager Consul). Quiet x.1.backend.registry.beats)
        (sym (if_false m.close_done _ first)) (do_close-Quiet m has)

  register_checked-beats :
      (ctx : Ctx) (r : Result Service) (m : Manager Consul)
      → m.backend.registry.beats.closed ≡ true
      → (register_checked p Consul ctx r m).1.backend.registry.beats ≡ m.backend.registry.beats
  unfolding register_checked
  register_checked-beats ctx (err e) m closed = refl
  register_checked-beats ctx (ok svc) m closed =
      (register-no_heartbeat api ctx svc m.backend.registry).2 closed

  register-beats :
      (ctx : Ctx) (svc : Service) (m : Manager Consul)
      → m.backend.registry.beats.closed ≡ true
      → (register p Consul ctx svc m).1.backend.registry.beats ≡ m.backend.registry.beats
  unfolding register
  register-beats ctx svc m closed =
      if-All
        (λ (x : Option Error × Manager Consul).
          x.1.backend.registry.beats ≡ m.backend.registry.beats)
        m.config.enabled _ _
        (if-All
          (λ (x : Option Error × Manager Consul).
            x.1.backend.registry.beats ≡ m.backend.registry.beats)
          _ _ _ (register_checked-beats ctx _ m closed) refl)
        refl

  -- One registration after the other.
  pub register_each : List (Ctx × Service) → Manager Consul → Manager Consul
  register_each [] m = m
  register_each ((ctx, svc) ∷ rs) m = register_each rs (register p Consul ctx svc m).1

  register_each-beats :
      (rs : List (Ctx × Service)) (m : Manager Consul)
      → m.backend.registry.beats.closed ≡ true
      → (register_each rs m).backend.registry.beats ≡ m.backend.registry.beats
  unfolding register_each
  register_each-beats [] m closed = refl
  register_each-beats ((ctx, svc) ∷ rs) m closed =
      let same = register-beats ctx svc m closed in
      register_each-beats rs (register p Consul ctx svc m).1
        (ap (λ (b : Beats). b.closed) same ∙ closed)
      ∙ same

  -- Once a manager over Consul was closed, no registration starts a heartbeat, however many come
  -- after and whatever the agent answers: the registry holds none, and the heartbeats' state is the
  -- one that `Close` left.
  pub register_each-closed :
      (m : Manager Consul) (rs : List (Ctx × Service))
      → m.has_registry ≡ true
      → m.close_done ≡ false
      → ((register_each rs (close Consul m).1).backend.registry.beats
          ≡ (close Consul m).1.backend.registry.beats)
        × ((register_each rs (close Consul m).1).backend.registry.beats.heartbeats ≡ [])
  register_each-closed m rs has first =
      let quiet : Quiet (close Consul m).1.backend.registry.beats = close-Quiet m has first in
      let same = register_each-beats rs (close Consul m).1 quiet.beats_closed in
      (same, ap (λ (b : Beats). b.heartbeats) same ∙ quiet.none_held)
