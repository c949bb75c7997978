-- ===== src/Consul/Ticker/Overtaken.antt =====
-- A `Deregister` of consul.go that comes between the two critical sections of a registration's
-- heartbeat.
use lib_service_discovery.Common.{
  ℕ, String, ◌≡◌, refl, ◌∙◌, inl, Bool, true, false, some, [], ◌∷◌, contains, if_true, ◌==◌, eq_iff,
}
use lib_service_discovery.Common.Dict.{lookup, lookup-insert}
use lib_service_discovery.Context.{Ctx}
use lib_service_discovery.Consul.Agent.{Registration}
use lib_service_discovery.Consul.Api.{Api}
use lib_service_discovery.Consul.Heartbeat.{Beats, begin_beat, drop_beat, store_beat}
use lib_service_discovery.Consul.Heartbeat.Steps.{Has, Reach, next, begins, deregisters, stores}
use lib_service_discovery.Consul.Heartbeat.Liveness.{held-alive}
use lib_service_discovery.Consul.Ticker.{fires, run_beats}
use lib_service_discovery.Consul.Ticker.Heal.{IsAgent, fires-heals}

-- The registry behind the first section, the section of `Deregister`, and the second section.
abbrev pub overtaken : String → Beats → Beats
overtaken id b = store_beat id b.fresh (drop_beat id (begin_beat id b))

starting_begun :
    (id : String) (b : Beats)
    → b.closed ≡ false
    → Has (id, b.fresh) (drop_beat id (begin_beat id b)).starting
unfolding begin_beat drop_beat
starting_begun id b open_ = rw open_ (inl refl)

overtaken-Reach : (id : String) (b : Beats) → Reach b → b.closed ≡ false → Reach (overtaken id b)
overtaken-Reach id b r open_ =
    next (next (next r (begins id)) (deregisters id))
      (stores id b.fresh (starting_begun id b open_))

overtaken_held :
    (id : String) (b : Beats)
    → b.closed ≡ false
    → lookup id (overtaken id b).heartbeats ≡ some b.fresh
unfolding begin_beat drop_beat store_beat
overtaken_held id b open_ =
    rw open_ (lookup-insert id id b.fresh _ ∙ if_true (id == id) _ ((eq_iff id id).1 refl))

-- A heartbeat of the service runs, on a context that is not cancelled, and the service's check passes
-- behind the next time that its ticker fires.
pub record IsResurrected (api : Api) (reg : Registration) (ctx : Ctx) (passes : api.State → Bool)
    (deregistered : api.State) (b : Beats) (t : ℕ) : Type 0 where
  pub runs : Has (reg.id, t) b.running
  pub lives : contains b.cancelled t ≡ false
  pub passes_again : passes (run_beats api reg ctx (fires ∷ []) deregistered) ≡ true

-- Take an open registry, in any state that its critical sections reach, and an agent that behaves as
-- Consul documents. Where a `Deregister` of a service comes between the two critical sections of a
-- registration of it, the registration's heartbeat outlives the `Deregister`: its goroutine runs, on a
-- context that nothing has cancelled, and its next pass registers the service again, in whatever state
-- the agent is then.
pub deregister-overtaken :
    {b : Beats} (api : Api) (reg : Registration) (ctx : Ctx) (knows passes : api.State → Bool)
    → Reach b
    → b.closed ≡ false
    → IsAgent api reg ctx knows passes
    → (deregistered : api.State)
    → IsResurrected api reg ctx passes deregistered (overtaken reg.id b) b.fresh
deregister-overtaken {b} api reg ctx knows passes r open_ agent s =
    let (runs, lives) =
      held-alive (overtaken-Reach reg.id b r open_) reg.id b.fresh
        (overtaken_held reg.id b open_) in
    record {
      runs = runs;
      lives = lives;
      passes_again = fires-heals api reg ctx knows passes agent [] s tt;
    }
