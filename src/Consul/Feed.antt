-- ===== src/Consul/Feed.antt =====
-- consul.go's `watchLoop` and managed_resolver.go's `runManagedUpdates`: two goroutines, and the
-- channel of events between them. One function is what a goroutine does between two points at which
-- the other may run. The log lines are left out.
pub mod Steps
pub mod Order
pub mod Gone
pub mod Progress
pub mod Stops
pub mod Answers
use lib_service_discovery.Common.{
  ℕ, suc, Bool, true, false, List, [], ◌∷◌, ◌++◌, ltb, nat_eq, if◌then◌else◌,
}
use lib_service_discovery.Errors.{Result}
use lib_service_discovery.Types.{Event, Service}
use lib_service_discovery.Resolver.{Resolver, refresh}
use lib_service_discovery.Consul.Agent.{Entry}
use lib_service_discovery.Consul.Api.{Answer, failed, answered}
use lib_service_discovery.Consul.Sleep.{SleepEnd, sleep_ctx}
use lib_service_discovery.Consul.Watch.{event_of}

-- Where `watchLoop` is: at the top of its loop, in a query, in the sleep behind one that failed, with
-- entries that are still to be sent, or returned.
pub data Loop : Type 0 where
  top querying sleeping : Loop
  sending : List Entry → Loop
  returned : Loop

-- Where `runManagedUpdates` is: at its channel, in a resolve, or returned.
pub data Consumer : Type 0 where
  receiving resolving over : Consumer

pub record Feed : Type 0 where
  pub loop : Loop
  pub last_index : ℕ
  pub attempt : ℕ
  -- the channel
  pub buffer : List Event
  pub channel_closed : Bool
  pub consumer : Consumer
  pub resolver : Resolver
  -- the watch's context, which both goroutines have, is cancelled
  pub cancelled : Bool
  -- what went into the channel and what came out of it, in order
  pub sent : List Event
  pub received : List Event
  -- what the consumer's resolves answered, in order
  pub answers : List (Result Service)

-- `make(chan Event, 16)`
abbrev pub channel_capacity : ℕ
channel_capacity = 16

abbrev pub new_feed : Resolver → Feed
new_feed mr = record {
  loop = top;
  last_index = 0;
  attempt = 0;
  buffer = [];
  channel_closed = false;
  consumer = receiving;
  resolver = mr;
  cancelled = false;
  sent = [];
  received = [];
  answers = [];
}

-- `return` of `watchLoop`, with its deferred `close(ch)`.
unfoldable pub finish : Feed → Feed
finish f = record f { loop = returned; channel_closed = true }

-- The test of the context at the top of the loop.
unfoldable pub turn : Feed → Feed
turn f = if f.cancelled then finish f else record f { loop = querying }

-- The part behind the query.
unfoldable pub poll : Answer → Feed → Feed
poll (failed text) f = if f.cancelled then finish f else record f { loop = sleeping }
poll (answered es index) f =
    if ltb index f.last_index
    then record f { attempt = 0; last_index = 0; loop = top }
    else if nat_eq index f.last_index
    then record f { attempt = 0; loop = top }
    else record f { attempt = 0; last_index = index; loop = sending es }

-- The part behind the sleep.
unfoldable pub wake_up : SleepEnd → Feed → Feed
wake_up e f = if sleep_ctx e then record f { attempt = suc f.attempt; loop = top } else finish f

-- `emitEntries`: one entry is sent, or all have been.
unfoldable pub send : Entry → List Entry → Feed → Feed
send e es f = record f {
  loop = sending es;
  buffer = f.buffer ++ (event_of e ∷ []);
  sent = f.sent ++ (event_of e ∷ []);
}

unfoldable pub all_sent : Feed → Feed
all_sent f = record f { loop = top }

-- The consumer takes an event, returns, or has the answer of its resolve.
unfoldable pub receive : Event → List Event → Feed → Feed
receive x xs f = record f { buffer = xs; received = f.received ++ (x ∷ []); consumer = resolving }

unfoldable pub hang_up : Feed → Feed
hang_up f = record f { consumer = over }

unfoldable pub resolved : Result Service → Feed → Feed
resolved r f = record f {
  resolver = refresh r f.resolver;
  consumer = receiving;
  answers = f.answers ++ (r ∷ []);
}

-- `cancel()` of the watch's context.
unfoldable pub cancel_feed : Feed → Feed
cancel_feed f = record f { cancelled = true }
