-- ===== src/Consul/Feed/Steps.antt =====
-- The two goroutines of Consul/Feed in any order.
use lib_service_discovery.Common.{◌<◌, ◌≡◌, true, List, [], ◌∷◌, length}
use lib_service_discovery.Errors.{Result}
use lib_service_discovery.Types.{Event, Service}
use lib_service_discovery.Consul.Agent.{Entry}
use lib_service_discovery.Consul.Api.{Answer}
use lib_service_discovery.Consul.Sleep.{context_first, timer_first}
use lib_service_discovery.Consul.Feed.{
  top, querying, sleeping, sending, receiving, resolving, Feed, channel_capacity, finish, turn,
  poll, wake_up, send, all_sent, receive, hang_up, resolved, cancel_feed,
}

-- One step, where the answers of Consul to the watch are of a kind `P`.
pub data Step (P : Answer → Type 0) (f : Feed) : Feed → Type 0 where
  turns : f.loop ≡ top → Step P f (turn f)
  polls : (a : Answer) → P a → f.loop ≡ querying → Step P f (poll a f)
  sleeps_out : f.loop ≡ sleeping → Step P f (wake_up timer_first f)
  is_woken : f.loop ≡ sleeping → f.cancelled ≡ true → Step P f (wake_up context_first f)
  sends :
      (e : Entry) (es : List Entry)
      → f.loop ≡ sending (e ∷ es)
      → length f.buffer < channel_capacity
      → Step P f (send e es f)
  gives_up :
      (e : Entry) (es : List Entry)
      → f.loop ≡ sending (e ∷ es)
      → f.cancelled ≡ true
      → Step P f (finish f)
  has_sent : f.loop ≡ sending [] → Step P f (all_sent f)
  receives :
      (x : Event) (xs : List Event)
      → f.consumer ≡ receiving
      → f.buffer ≡ x ∷ xs
      → Step P f (receive x xs f)
  sees_closed :
      f.consumer ≡ receiving → f.buffer ≡ [] → f.channel_closed ≡ true → Step P f (hang_up f)
  sees_done : f.consumer ≡ receiving → f.cancelled ≡ true → Step P f (hang_up f)
  resolves : (r : Result Service) → f.consumer ≡ resolving → Step P f (resolved r f)
  is_cancelled : Step P f (cancel_feed f)

pub data Run (P : Answer → Type 0) (f : Feed) : Feed → Type 0 where
  here : Run P f f
  after : {g h : Feed} → Run P f g → Step P g h → Run P f h

-- Consul may answer anything.
abbrev pub Anything : Answer → Type 0
Anything a = Unit {0}

pub Run-trans : {P : Answer → Type 0} {f g h : Feed} → Run P f g → Run P g h → Run P f h
Run-trans r here = r
Run-trans r (after s step) = after (Run-trans r s) step
