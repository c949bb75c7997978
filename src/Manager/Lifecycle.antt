-- ===== src/Manager/Lifecycle.antt =====
-- manager.go: `Deregister`, `Watch` and `Close`.
pub mod Cancels
pub mod Soundness
pub mod Created
pub mod Shutdown
use lib_service_discovery.Common.{
  ℕ, String, Bool, true, false, Option, none, some, List, [], ◌∷◌, ◌++◌, if◌then◌else◌,
}
use lib_service_discovery.Common.Dict.{Dict}
use lib_service_discovery.Context.{Ctx}
use lib_service_discovery.Errors.{Error}
use lib_service_discovery.Backend.{Backend}
use lib_service_discovery.Resolver.{Resolver}
use lib_service_discovery.Manager.{Manager, base_token}

-- The tokens that `stop` cancels, of every resolver.
unfoldable pub stop_all : Dict Resolver → List ℕ
stop_all [] = []
stop_all ((name, mr) ∷ rs) = elim mr.cancel [ none ↦ stop_all rs | some t ↦ t ∷ stop_all rs ]

module _ (B : Backend) where
  unfoldable pub deregister : Ctx → String → Manager B → Option Error × Manager B
  deregister ctx id m =
      if m.config.enabled
      then (let (e, s) = B.deregister ctx id m.backend in (e, record m { backend = s }))
      else (none, m)

  -- The channel of `Watch`; `none` is the closed channel of a disabled manager.
  unfoldable pub watch : Ctx → String → Manager B → (Option B.Stream × Option Error) × Manager B
  watch ctx name m =
      if m.config.enabled
      then (let (stream, e, s) = B.watch ctx name m.backend in
          ((some stream, e), record m { backend = s }))
      else ((none, none), m)

  -- The part of `doClose` under the lock.
  unfoldable pub drain : Manager B → Manager B
  drain m = record m {
    closed = true;
    cancelled = (base_token ∷ stop_all m.resolvers) ++ m.cancelled;
    resolvers = [];
  }

  -- The registry's own `Close`, where it has one.
  unfoldable pub close_backend :
      Option (B.State → Option Error × B.State) → Manager B → Option Error × Manager B
  close_backend none m = (none, m)
  close_backend (some f) m = let (e, s) = f m.backend in (e, record m { backend = s })

  unfoldable pub do_close : Manager B → Option Error × Manager B
  do_close m = if m.has_registry then close_backend B.close (drain m) else (none, drain m)

  unfoldable pub close : Manager B → Option Error × Manager B
  close m =
      if m.close_done
      then (m.close_err, m)
      else (let (e, m₁) = do_close m in (e, record m₁ { close_done = true; close_err = e }))
