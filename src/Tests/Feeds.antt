-- ===== src/Tests/Feeds.antt =====
-- The theorems on the watch and its consumer, applied.
use lib_service_discovery.Common.{◌≡◌, refl, [], ◌∷◌, arith}
use lib_service_discovery.Errors.{ok}
use lib_service_discovery.Resolver.{Resolver, new_resolver, service, store}
use lib_service_discovery.Consul.Api.{answered}
use lib_service_discovery.Consul.Watch.{event_of}
use lib_service_discovery.Consul.Feed.{
  Feed, new_feed, turn, poll, send, all_sent, receive, resolved, cancel_feed,
}
use lib_service_discovery.Consul.Feed.Steps.{
  Run, here, after, turns, polls, sends, has_sent, receives, resolves, Anything,
}
use lib_service_discovery.Consul.Feed.Order.{InOrder}
use lib_service_discovery.Consul.Feed.Answers.{Answered, feed-Answered}
use lib_service_discovery.Consul.Feed.Gone.{NoInstance, Settled, gone-unnoticed}
use lib_service_discovery.Consul.Feed.Stops.{Ends, feed-stops}
use lib_service_discovery.Tests.Samples.{payments, stored}

-- The resolver of `payments` behind its seed.
abbrev seeded : Resolver
seeded = store payments new_resolver

-- The watch announces an instance.
abbrev announced : Feed
announced = send stored [] (poll (answered (stored ∷ []) 7) (turn (new_feed seeded)))

announced-Run : Run Anything (new_feed seeded) announced
unfolding turn poll
announced-Run =
    after (after (after here (turns refl)) (polls (answered (stored ∷ []) 7) tt refl))
      (sends stored [] refl (omega arith))

-- The consumer re-resolves.
abbrev heard_one : Feed
heard_one = all_sent (resolved (ok payments) (receive (event_of stored) [] announced))

heard_one-Run : Run Anything (new_feed seeded) heard_one
unfolding turn poll send receive resolved
heard_one-Run =
    after
      (after (after announced-Run (receives (event_of stored) [] refl refl))
        (resolves (ok payments) refl))
      (has_sent refl)

feed-Answered_example : InOrder heard_one × Answered seeded heard_one
feed-Answered_example = feed-Answered seeded heard_one-Run

-- The instance is deregistered: the catalog has none at index 9.
abbrev emptied : Feed
emptied = all_sent (poll (answered [] 9) (turn heard_one))

emptied-Run : Run NoInstance heard_one emptied
unfolding turn poll send receive resolved all_sent
emptied-Run =
    after (after (after here (turns refl)) (polls (answered [] 9) tt refl)) (has_sent refl)

heard_one-Settled : Settled heard_one.resolver heard_one
unfolding turn poll send receive resolved all_sent
heard_one-Settled = record {
  nothing_to_send = refl;
  empty_buffer = refl;
  no_answer = refl;
  same_resolver = refl;
}

gone-unnoticed_example : service emptied.resolver ≡ service heard_one.resolver
gone-unnoticed_example = gone-unnoticed emptied-Run heard_one-Settled

feed-stops_example : Ends (cancel_feed announced)
unfolding cancel_feed
feed-stops_example = feed-stops (cancel_feed announced) refl
