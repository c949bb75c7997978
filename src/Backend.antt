-- ===== src/Backend.antt =====
-- types.go: the `Registry` interface, over the unknown state of a backend. A backend may offer
-- `Close` as well, which the manager looks for at run time.
use lib_service_discovery.Common.{String, Option}
use lib_service_discovery.Context.{Ctx}
use lib_service_discovery.Errors.{Error, Result}
use lib_service_discovery.Types.{Service}

pub record Backend : Type 1 where
  pub State : Type 0
  -- the channel of events that `Watch` returns
  pub Stream : Type 0
  pub register : Ctx → Service → State → Option Error × State
  pub deregister : Ctx → String → State → Option Error × State
  pub resolve : Ctx → String → String → State → Result Service × State
  pub watch : Ctx → String → State → Stream × Option Error × State
  pub close : Option (State → Option Error × State)
