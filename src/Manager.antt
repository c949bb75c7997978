-- ===== src/Manager.antt =====
-- manager.go: the manager's state and `New`. The logger is left out.
pub mod Registration
pub mod Advertise
pub mod Publish
pub mod Retry
pub mod Managed
pub mod Resolve
pub mod FailOpen
pub mod Lifecycle
pub mod Concurrent
pub mod EndToEnd
pub mod AfterClose
pub mod Async
pub mod Made
use lib_service_discovery.Common.{
  ℕ, String, ◌<>◌, Bool, true, false, Option, none, some, List, [], ◌∷◌, is_empty, if◌then◌else◌,
}
use lib_service_discovery.Common.Dict.{Dict}
use lib_service_discovery.Common.Int.{ℤ}
use lib_service_discovery.Context.{Ctx, background, with_cancel}
use lib_service_discovery.Errors.{Error, Result, ok, err, sentinel, wrap, nil_manager}
use lib_service_discovery.Types.{EndpointView}
use lib_service_discovery.Platform.{Platform}
use lib_service_discovery.Config.{Config, validate, with_defaults}
use lib_service_discovery.Backend.{Backend}
use lib_service_discovery.Resolver.{Resolver}

-- `Manager.baseCtx`, which `Manager.baseCancel` ends.
abbrev pub base_token : ℕ
base_token = 0

abbrev pub base_ctx : Ctx
base_ctx = with_cancel base_token background

module _ (B : Backend) where
  -- A goroutine of `runManagedUpdates`, by the arguments it was started with.
  pub record ManagedWatch : Type 0 where
    pub ctx : Ctx
    pub name : String
    pub tag : String
    pub stream : B.Stream

  -- A goroutine of `runResolverUpdates`, by the arguments it was started with.
  pub record DynamicWatch : Type 0 where
    pub ctx : Ctx
    pub name : String
    pub tag : String
    pub stream : B.Stream

  -- `fresh` is the token of the next context and `cancelled` holds the tokens that were cancelled.
  -- The map of resolvers holds the resolvers themselves: no other part of the program keeps a pointer
  -- to one that is in the map, but its own watch, which goes by the name.
  pub record Manager : Type 0 where
    pub config : Config
    pub has_registry : Bool
    pub backend : B.State
    pub workload : String
    pub seed_timeout : ℤ
    pub prefer_view : EndpointView
    pub resolvers : Dict Resolver
    pub closed : Bool
    pub fresh : ℕ
    pub cancelled : List ℕ
    pub watches : List ManagedWatch
    pub dynamic_watches : List DynamicWatch
    -- `closeOnce` and `closeErr`
    pub close_done : Bool
    pub close_err : Option Error

  -- `WithRegistry`, with `none` for a nil registry, and `WithWorkload`.
  pub data ManagerOption : Type 0 where
    with_registry : Option B.State → ManagerOption
    with_workload : String → ManagerOption

  unfoldable pub apply_option : ManagerOption → Manager → Manager
  apply_option (with_registry none) m = m
  apply_option (with_registry (some s)) m = record m { has_registry = true; backend = s }
  apply_option (with_workload id) m = record m { workload = id }

  unfoldable pub apply_options : List ManagerOption → Manager → Manager
  apply_options [] m = m
  apply_options (o ∷ os) m = apply_options os (apply_option o m)

  -- The manager before its options. No operation reads the given state: an enabled manager gets a
  -- registry below, and a disabled one calls none.
  unfoldable pub initial : B.State → Config → Manager
  initial unset cfg = record {
    config = cfg;
    has_registry = false;
    backend = unset;
    workload = cfg.workload;
    seed_timeout = cfg.seed_timeout;
    prefer_view = cfg.prefer_view;
    resolvers = [];
    closed = false;
    fresh = 1;
    cancelled = [];
    watches = [];
    dynamic_watches = [];
    close_done = false;
    close_err = none;
  }

  -- The last part of `New`: the default registry, which `make` builds.
  unfoldable pub with_default_registry : (Config → Result B.State) → Manager → Result Manager
  with_default_registry make m =
      if m.config.enabled
      then (if m.has_registry then ok m else elim (make m.config) [
        | err e ↦ err (wrap "lib-service-discovery" e)
        | ok s ↦ ok (record m { has_registry = true; backend = s })
      ])
      else ok m

  unfoldable pub new :
      Platform → (Config → Result B.State) → B.State → Config → List ManagerOption → Result Manager
  new p make unset cfg os =
      let c = with_defaults p cfg in
      elim (validate c) [
        | some e ↦ err e
        | none ↦ with_default_registry make (apply_options os (initial unset c))
      ]

  -- `workloadTag`
  unfoldable pub workload_tag : Manager → String
  workload_tag m = if is_empty m.workload then "" else "workload=" <> m.workload

  -- The test of a nil receiver.
  unfoldable pub on_manager {ℓ} :
      {A : Type ℓ} → (Error → A) → (Manager → A × Manager) → Option Manager → A × Option Manager
  on_manager fail f none = (fail (sentinel nil_manager), none)
  on_manager fail f (some m) = let (a, m₁) = f m in (a, some m₁)
