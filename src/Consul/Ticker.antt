-- ===== src/Consul/Ticker.antt =====
-- consul.go: the goroutine of a heartbeat, which `startHeartbeat` starts, over what its ticker and
-- its context do, and over what happens to the agent in between.
pub mod Heal
pub mod Overtaken
use lib_service_discovery.Common.{ℕ, List, [], ◌∷◌}
use lib_service_discovery.Context.{Ctx}
use lib_service_discovery.Consul.Agent.{Registration}
use lib_service_discovery.Consul.Api.{Api}
use lib_service_discovery.Consul.Registry.{pass}

module _ (api : Api) where
  -- What comes next: the ticker fires, the context is done, or others change the agent's state.
  pub data Tick : Type 0 where
    fires : Tick
    is_stopped : Tick
    others : (api.State → api.State) → Tick

  -- The loop.
  unfoldable pub run_beats : Registration → Ctx → List Tick → api.State → api.State
  run_beats reg ctx [] s = s
  run_beats reg ctx (fires ∷ ts) s = run_beats reg ctx ts (pass api reg ctx s)
  run_beats reg ctx (is_stopped ∷ ts) s = s
  run_beats reg ctx (others f ∷ ts) s = run_beats reg ctx ts (f s)
