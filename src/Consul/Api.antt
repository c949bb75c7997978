-- ===== src/Consul/Api.antt =====
-- The Consul SDK's calls, as consul.go makes them: parameters of the model, over the state of the
-- agent and the network. A call's error is known by its text.
use lib_service_discovery.Common.{ℕ, String, Bool, Option, List}
use lib_service_discovery.Context.{Ctx}
use lib_service_discovery.Consul.Agent.{Registration, Entry}

-- What a health query answers: an error's text, or the entries and the catalog's index.
pub data Answer : Type 0 where
  failed : String → Answer
  answered : List Entry → ℕ → Answer

pub record Api : Type 1 where
  pub State : Type 0
  -- `Agent().ServiceRegisterOpts`
  pub register : Ctx → Registration → State → Option String × State
  -- `Agent().UpdateTTLOpts`, with the passing status
  pub update_ttl : Ctx → String → State → Option String × State
  -- `Agent().ServiceDeregisterOpts`
  pub deregister : Ctx → String → State → Option String × State
  -- `Health().Service`, by name, tag, whether all checks must pass, and whether a stale read will do
  pub health : Ctx → String → String → Bool → Bool → State → Answer × State
