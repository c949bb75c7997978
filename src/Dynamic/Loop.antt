-- ===== src/Dynamic/Loop.antt =====
-- `runResolverUpdates` of resolver.go against the answers it gets.
use lib_service_discovery.Common.{String, ◌≡◌, refl, List, [], ◌∷◌}
use lib_service_discovery.Context.{Ctx}
use lib_service_discovery.Errors.{Result}
use lib_service_discovery.Types.{Service}
use lib_service_discovery.Backend.{Backend}
use lib_service_discovery.Manager.{Manager}
use lib_service_discovery.Dynamic.{DynamicResolver}
use lib_service_discovery.Dynamic.Track.{
  Wake, context_done, channel_closed, event_received, update, update_all, run_resolver_updates,
}

-- The events before the loop ends.
unfoldable pub heard : List Wake → List Wake
heard [] = []
heard (context_done ∷ ws) = []
heard (channel_closed ∷ ws) = []
heard (event_received ∷ ws) = event_received ∷ heard ws

module _ (B : Backend) where
  -- What the registry answers when it is asked once for each event.
  unfoldable pub answers :
      Ctx → String → String → List Wake → B.State → List (Result Service) × B.State
  answers ctx name tag [] s = ([], s)
  answers ctx name tag (w ∷ ws) s =
      let (answer, s₁) = B.resolve ctx name tag s in
      let (rest, s₂) = answers ctx name tag ws s₁ in (answer ∷ rest, s₂)

  -- The loop asks the registry once for each event until the context is done or the channel is
  -- closed, folds the answers into the resolver in their order, and takes nothing from what comes
  -- after; of the manager it changes the registry alone.
  pub run_resolver_updates-answers :
      (ctx : Ctx) (name tag : String) (ws : List Wake) (dr : DynamicResolver) (m : Manager B)
      → run_resolver_updates B ctx name tag ws dr m ≡ (
          let (rs, s) = answers ctx name tag (heard ws) m.backend in
          (update_all rs dr, record m { backend = s }))
  unfolding run_resolver_updates update_all heard answers
  run_resolver_updates-answers ctx name tag [] dr m = refl
  run_resolver_updates-answers ctx name tag (context_done ∷ ws) dr m = refl
  run_resolver_updates-answers ctx name tag (channel_closed ∷ ws) dr m = refl
  run_resolver_updates-answers ctx name tag (event_received ∷ ws) dr m =
      let (answer, s) = B.resolve ctx name tag m.backend in
      run_resolver_updates-answers ctx name tag ws (update answer dr) (record m { backend = s })
