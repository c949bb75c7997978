-- ===== src/Consul/AsBackend.antt =====
-- consul.go: `Watch`, and `consulRegistry` as the manager's registry.
use lib_service_discovery.Common.{String, Bool, true, Option, none, some}
use lib_service_discovery.Context.{Ctx}
use lib_service_discovery.Errors.{Error, Result, sentinel, nil_registry}
use lib_service_discovery.Types.{Service}
use lib_service_discovery.Backend.{Backend}
use lib_service_discovery.Consul.Api.{Api}
use lib_service_discovery.Consul.Registry.{
  Registry, Resolved, returned, panicked, register, deregister, resolve, close,
}

-- A channel of events: closed and empty, or fed by a `watchLoop` of a context and a name, which
-- starts at `new_watch`.
pub data Channel : Type 0 where
  closed_channel : Channel
  fed_by : Ctx → String → Channel

module _ (api : Api) where
  -- `Watch`, on a pointer
  unfoldable pub watch : Ctx → String → Option (Registry api) → Channel × Option Error
  watch ctx name none = (closed_channel, some (sentinel nil_registry))
  watch ctx name (some r) = (fed_by ctx name, none)

  -- The registry, and whether a call of it has panicked: then that call and its callers were unwound,
  -- and what is computed behind it is no behaviour of the program.
  pub record Guarded : Type 0 where
    pub registry : Registry api
    pub unwound : Bool

  -- The end of a resolve. A panic is recorded; `recovered` only fills the place of the answer that is
  -- never returned.
  unfoldable pub answer_of :
      Result Service → Resolved → Registry api → Bool → Result Service × Guarded
  answer_of recovered (returned a) r unwound = (a, record { registry = r; unwound = unwound })
  answer_of recovered panicked r unwound = (recovered, record { registry = r; unwound = true })

  abbrev pub consul_backend : Result Service → Backend
  consul_backend recovered = record {
    State = Guarded;
    Stream = Channel;
    register =
        λ ctx svc g. let (e, r) = register api ctx svc g.registry in (e, record g { registry = r });
    deregister =
        λ ctx id g. let (e, r) = deregister api ctx id g.registry in (e, record g { registry = r });
    resolve = λ ctx name tag g.
        let (a, r) = resolve api ctx name tag g.registry in answer_of recovered a r g.unwound;
    watch = λ ctx name g. let (ch, e) = watch ctx name (some g.registry) in (ch, e, g);
    close = some (λ g. let (e, r) = close api g.registry in (e, record g { registry = r }));
  }
