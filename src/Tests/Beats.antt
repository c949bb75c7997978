-- ===== src/Tests/Beats.antt =====
-- The theorem on heartbeats that heal a registration, applied: an agent that restarts without its state.
use lib_service_discovery.Common.{
  ◌≡◌, refl, String, Bool, true, false, none, some, [], ◌∷◌, if◌then◌else◌,
}
use lib_service_discovery.Context.{background}
use lib_service_discovery.Consul.Agent.{Registration}
use lib_service_discovery.Consul.Api.{Api, answered}
use lib_service_discovery.Consul.Registration.{registration_for}
use lib_service_discovery.Consul.Registry.{is_unknown_check}
use lib_service_discovery.Consul.Ticker.{fires, others, run_beats}
use lib_service_discovery.Consul.Ticker.Heal.{IsAgent, fires-heals}
use lib_service_discovery.Consul.Heartbeat.{no_beats}
use lib_service_discovery.Consul.Heartbeat.Steps.{start}
use lib_service_discovery.Consul.Ticker.Overtaken.{overtaken, IsResurrected, deregister-overtaken}
use lib_service_discovery.Tests.Samples.{payments}

-- Whether the agent knows the check, and whether the check passes.
abbrev Known : Type 0
Known = Bool × Bool

abbrev unknown_check : String
unknown_check = "Unexpected response code: 404 (Unknown check)"

-- An agent of one service.
abbrev one_agent : Api
one_agent = record {
  State = Known;
  register = λ ctx r s. (none, (true, false));
  update_ttl =
      λ ctx id s. ((if s.0 then none else some unknown_check), (if s.0 then (true, true) else s));
  deregister = λ ctx id s. (none, (false, false));
  health = λ ctx name tag passing_only stale s. (answered [] 1, s);
}

abbrev reg : Registration
reg = registration_for payments

one_agent-IsAgent : IsAgent one_agent reg background (λ s. s.0) (λ s. s.1)
unfolding is_unknown_check
one_agent-IsAgent = record {
  update_known = λ s known. rw known (refl, refl);
  update_unknown = λ s lost. (unknown_check, rw lost refl, refl);
  register_known = λ s. (refl, refl);
}

-- A pass, the loss, and two passes.
fires-heals_example :
    (run_beats one_agent reg background
      (fires ∷ others (λ s. (false, false)) ∷ fires ∷ [])
      (false, false)).1
    ≡ true
fires-heals_example =
    fires-heals one_agent reg background (λ s. s.0) (λ s. s.1) one_agent-IsAgent
      (fires ∷ others (λ s. (false, false)) ∷ []) (false, false) (refl, (refl, tt))

-- The agent has dropped the service.
deregister-overtaken_example :
    IsResurrected one_agent reg background (λ s. s.1) (false, false) (overtaken reg.id no_beats) 0
deregister-overtaken_example =
    deregister-overtaken one_agent reg background (λ s. s.0) (λ s. s.1) start refl one_agent-IsAgent
      (false, false)
