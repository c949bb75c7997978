-- ===== src/Consul/Registry/Laws.antt =====
-- What the operations of `consulRegistry` do, on each branch.
use lib_service_discovery.Common.{
  ℕ, String, ◌<>◌, ◌≡◌, refl, ◌⊎◌, inl, inr, true, false, none, some, arith, is_some, Bool-cases,
  Option-cases, contains, eq_refl, subst, sym,
}
use lib_service_discovery.Common.Dict.{lookup, lookup-erase, lookup-insert}
use lib_service_discovery.Context.{Ctx}
use lib_service_discovery.Errors.{wrap, foreign}
use lib_service_discovery.Types.{Service, normalize_endpoints}
use lib_service_discovery.Consul.Agent.{Registration}
use lib_service_discovery.Consul.Api.{Api}
use lib_service_discovery.Consul.Registration.{registration_for, ttl_of}
use lib_service_discovery.Consul.Heartbeat.{Beats, begin_beat, store_beat, drop_beat}
use lib_service_discovery.Consul.Heartbeat.Steps.{
  Has, begins, stores, deregisters, closes, Reach, next,
}
use lib_service_discovery.Consul.Registry.{
  Registry, start_heartbeat, register, deregister, close, resolve,
}

begin_beat-Has :
    (id : String) (b : Beats) → b.closed ≡ false → Has (id, b.fresh) (begin_beat id b).starting
unfolding begin_beat
begin_beat-Has id b live = simp live (inl refl)

stored_beat :
    (id : String) (b : Beats)
    → b.closed ≡ false
    → let c = store_beat id b.fresh (begin_beat id b) in
      (lookup id c.heartbeats ≡ some b.fresh) × Has (id, b.fresh) c.running
unfolding store_beat begin_beat
stored_beat id b live =
    simp live (ground (arith, eq_refl id, lookup-insert id id b.fresh b.heartbeats), inl refl)

registration_for-id : (svc : Service) → (registration_for svc).id ≡ svc.id
unfolding registration_for normalize_endpoints
registration_for-id svc = ground arith

module _ (api : Api) where
  start_heartbeat-Reach :
      (reg : Registration) (r : Registry api)
      → Reach r.beats
      → Reach (start_heartbeat api reg r).beats
  unfolding start_heartbeat
  start_heartbeat-Reach reg r h = elim (Bool-cases r.beats.closed) [
    | inl closed ↦ simp closed h
    | inr live ↦ simp live (
        next (next h (begins reg.id))
          (stores reg.id r.beats.fresh (begin_beat-Has reg.id r.beats live)))
  ]

  register-beats :
      (ctx : Ctx) (svc : Service) (r : Registry api)
      → ((register api ctx svc r).1.beats ≡ r.beats)
        ⊎ ((s : Registry api) × (s.beats ≡ r.beats)
            × ((register api ctx svc r).1.beats
                ≡ (start_heartbeat api (registration_for svc) s).beats))
  unfolding register
  register-beats ctx svc r =
      elim (Option-cases (api.register ctx (registration_for svc) r.agent).0) [
        | inl accepted ↦ elim (Bool-cases (is_some (ttl_of svc))) [
          | inl ttl ↦ inr (
            record r { agent = (api.register ctx (registration_for svc) r.agent).1 },
            refl,
            ground arith,
          )
          | inr plain ↦ inl (ground arith)
        ]
        | inr (text, refused) ↦ inl (ground arith)
      ]

  deregister-beats :
      (ctx : Ctx) (id : String) (r : Registry api)
      → (deregister api ctx id r).1.beats ≡ drop_beat id r.beats
  unfolding deregister
  deregister-beats ctx id r = ground arith

  resolve-beats :
      (ctx : Ctx) (name tag : String) (r : Registry api)
      → (resolve api ctx name tag r).1.beats ≡ r.beats
  unfolding resolve
  resolve-beats ctx name tag r = ground arith

  -- Registering, deregistering, closing and resolving, each run from call to return, take the
  -- heartbeats' state through critical sections: what holds in every order of those holds of
  -- every sequence of calls.
  pub operations-Reach :
      (ctx : Ctx) (svc : Service) (id name tag : String) (r : Registry api)
      → Reach r.beats
      → Reach (register api ctx svc r).1.beats
        × Reach (deregister api ctx id r).1.beats
        × Reach (close api r).1.beats
        × Reach (resolve api ctx name tag r).1.beats
  unfolding close
  operations-Reach ctx svc id name tag r h = (
    elim (register-beats ctx svc r) [
      | inl same ↦ subst Reach (sym same) h
      | inr (s, same, started) ↦
          subst Reach (sym started)
            (start_heartbeat-Reach (registration_for svc) s (subst Reach (sym same) h))
    ],
    subst Reach (sym (deregister-beats ctx id r)) (next h (deregisters id)),
    next h closes,
    subst Reach (sym (resolve-beats ctx name tag r)) h,
  )

  -- `Register` wraps the agent's error with the service's name, and then starts no heartbeat. It
  -- starts none either for a service without a TTL check, nor once the registry is closed.
  pub register-no_heartbeat :
      (ctx : Ctx) (svc : Service) (r : Registry api)
      → let answer = (api.register ctx (registration_for svc) r.agent).0 in
        ((text : String)
          → answer ≡ some text
          → ((register api ctx svc r).0
              ≡ some (wrap ("consul: register " <> svc.name) (foreign text)))
            × ((register api ctx svc r).1.beats ≡ r.beats))
        × (is_some (ttl_of svc) ≡ false → (register api ctx svc r).1.beats ≡ r.beats)
        × (r.beats.closed ≡ true → (register api ctx svc r).1.beats ≡ r.beats)
  unfolding register start_heartbeat
  register-no_heartbeat ctx svc r =
      (λ text refused. (ground arith, ground arith), λ plain. ground arith, λ closed. ground arith)

  register_accepted :
      (ctx : Ctx) (svc : Service) (r : Registry api)
      → (api.register ctx (registration_for svc) r.agent).0 ≡ none
      → is_some (ttl_of svc) ≡ true
      → register api ctx svc r ≡ (
        none,
        start_heartbeat api
            (registration_for svc)
            (record r { agent = (api.register ctx (registration_for svc) r.agent).1 }),
      )
  unfolding register
  register_accepted ctx svc r accepted ttl = ground arith

  started_beat :
      (reg : Registration) (r : Registry api)
      → r.beats.closed ≡ false
      → (lookup reg.id (start_heartbeat api reg r).beats.heartbeats ≡ some r.beats.fresh)
        × Has (reg.id, r.beats.fresh) (start_heartbeat api reg r).beats.running
  unfolding start_heartbeat
  started_beat reg r live = simp live (stored_beat reg.id r.beats live)

  -- A registration of a TTL service that an open registry's agent accepts succeeds, and the registry
  -- then holds a heartbeat of the service that was started and is new.
  pub register-heartbeat :
      (ctx : Ctx) (svc : Service) (r : Registry api)
      → (api.register ctx (registration_for svc) r.agent).0 ≡ none
      → is_some (ttl_of svc) ≡ true
      → r.beats.closed ≡ false
      → ((register api ctx svc r).0 ≡ none)
        × (lookup svc.id (register api ctx svc r).1.beats.heartbeats ≡ some r.beats.fresh)
        × Has (svc.id, r.beats.fresh) (register api ctx svc r).1.beats.running
  register-heartbeat ctx svc r accepted ttl live =
      let reg = registration_for svc in
      let s : Registry api = record r { agent = (api.register ctx reg r.agent).1 } in
      let h = started_beat reg s live in
      let b : Beats = (start_heartbeat api reg s).beats in
      rw (register_accepted ctx svc r accepted ttl) (
        refl,
        subst (λ i. lookup i b.heartbeats ≡ some r.beats.fresh) (registration_for-id svc) h.0,
        subst (λ i. Has (i, r.beats.fresh) b.running) (registration_for-id svc) h.1,
      )

  -- Whatever the agent answers, `Deregister` leaves no heartbeat of the service in the registry, and
  -- has cancelled the one that it held.
  pub deregister_stops :
      (ctx : Ctx) (id : String) (r : Registry api)
      → (lookup id (deregister api ctx id r).1.beats.heartbeats ≡ none)
        × ((t : ℕ)
            → lookup id r.beats.heartbeats ≡ some t
            → contains (deregister api ctx id r).1.beats.cancelled t ≡ true)
  unfolding drop_beat
  deregister_stops ctx id r =
      rw (deregister-beats ctx id r)
        (ground (arith, eq_refl id, lookup-erase id id r.beats.heartbeats), λ t held. ground arith)
