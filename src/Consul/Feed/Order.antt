-- ===== src/Consul/Feed/Order.antt =====
-- What the channel of Consul/Feed guarantees in every order of the two goroutines.
use mathlib.Core.List.{append_assoc}
use lib_service_discovery.Common.{
  ℕ, suc, ◌≤◌, ◌<◌, ◌≡◌, refl, sym, ap, ◌∙◌, Bool, true, false, List, [], ◌∷◌, ◌++◌, arith, length,
  length-snoc, if-All, ltb, nat_eq,
}
use lib_service_discovery.Types.{Event}
use lib_service_discovery.Resolver.{Resolver}
use lib_service_discovery.Consul.Agent.{Entry}
use lib_service_discovery.Consul.Api.{Answer, failed, answered}
use lib_service_discovery.Consul.Sleep.{sleep_ctx}
use lib_service_discovery.Consul.Watch.{event_of}
use lib_service_discovery.Consul.Feed.{
  Loop, top, querying, sleeping, sending, returned, Feed, channel_capacity, new_feed, finish, turn,
  poll, wake_up, send, all_sent, receive, hang_up, resolved, cancel_feed,
}
use lib_service_discovery.Consul.Feed.Steps.{
  Step, turns, polls, sleeps_out, is_woken, sends, gives_up, has_sent, receives, sees_closed,
  sees_done, resolves, is_cancelled, Run, here, after, Anything,
}

-- `over` says that the producer has returned.
abbrev pub has_returned : Loop → Bool
has_returned top = false
has_returned querying = false
has_returned sleeping = false
has_returned (sending es) = false
has_returned returned = true

pub record InOrder (f : Feed) : Type 0 where
  pub in_order : f.received ++ f.buffer ≡ f.sent
  pub bounded : length f.buffer ≤ channel_capacity
  pub closed_once : f.channel_closed ≡ has_returned f.loop

module _ (f : Feed) (v : InOrder f) where
  still_open : {loop : Loop} → f.loop ≡ loop → f.channel_closed ≡ has_returned loop
  still_open at = v.closed_once ∙ ap has_returned at

  -- A move of the producer that leaves the channel alone.
  move-InOrder :
      (loop : Loop) (last attempt : ℕ)
      → f.channel_closed ≡ has_returned loop
      → InOrder (record f { loop = loop; last_index = last; attempt = attempt })
  move-InOrder loop last attempt h = record {
    in_order = v.in_order;
    bounded = v.bounded;
    closed_once = h;
  }

  send-InOrder :
      (e : Entry) (es : List Entry)
      → f.loop ≡ sending (e ∷ es)
      → length f.buffer < channel_capacity
      → InOrder (send e es f)
  unfolding send
  send-InOrder e es at room = record {
    in_order =
        sym (append_assoc f.received f.buffer (event_of e ∷ []))
        ∙ ap (λ xs. xs ++ (event_of e ∷ [])) v.in_order;
    bounded = omega (arith, length-snoc f.buffer (event_of e));
    closed_once = v.closed_once ∙ ap has_returned at;
  }

  receive-InOrder : (x : Event) (xs : List Event) → f.buffer ≡ x ∷ xs → InOrder (receive x xs f)
  unfolding receive
  receive-InOrder x xs h = record {
    in_order =
        append_assoc f.received (x ∷ []) xs ∙ ap (λ ys. f.received ++ ys) (sym h) ∙ v.in_order;
    bounded = let n = ap length h in let b = v.bounded in omega (arith, n, b);
    closed_once = v.closed_once;
  }

  finish-InOrder : InOrder (finish f)
  unfolding finish
  finish-InOrder = record { in_order = v.in_order; bounded = v.bounded; closed_once = refl }

  poll-InOrder : (a : Answer) → f.loop ≡ querying → InOrder (poll a f)
  unfolding poll
  poll-InOrder (failed text) at =
      if-All InOrder f.cancelled _ _ finish-InOrder
        (move-InOrder sleeping f.last_index f.attempt (still_open at))
  poll-InOrder (answered es index) at =
      if-All InOrder (ltb index f.last_index) _ _ (move-InOrder top 0 0 (still_open at)) (
        if-All InOrder (nat_eq index f.last_index) _ _
          (move-InOrder top f.last_index 0 (still_open at))
          (move-InOrder (sending es) index 0 (still_open at)))

  turn-InOrder : f.loop ≡ top → InOrder (turn f)
  unfolding turn
  turn-InOrder at =
      if-All InOrder f.cancelled _ _ finish-InOrder
        (move-InOrder querying f.last_index f.attempt (still_open at))

-- Every step keeps the order.
Step-InOrder : {P : Answer → Type 0} {f g : Feed} → Step P f g → InOrder f → InOrder g
unfolding wake_up sleep_ctx all_sent hang_up resolved cancel_feed
Step-InOrder {f = f} (turns at) v = turn-InOrder f v at
Step-InOrder {f = f} (polls a kind at) v = poll-InOrder f v a at
Step-InOrder {f = f} (sleeps_out at) v =
    move-InOrder f v top f.last_index (suc f.attempt) (v.closed_once ∙ ap has_returned at)
Step-InOrder {f = f} (is_woken at done) v = finish-InOrder f v
Step-InOrder {f = f} (sends e es at room) v = send-InOrder f v e es at room
Step-InOrder {f = f} (gives_up e es at done) v = finish-InOrder f v
Step-InOrder {f = f} (has_sent at) v =
    move-InOrder f v top f.last_index f.attempt (v.closed_once ∙ ap has_returned at)
Step-InOrder {f = f} (receives x xs at h) v = receive-InOrder f v x xs h
Step-InOrder (sees_closed at h closed) v = record {
  in_order = v.in_order;
  bounded = v.bounded;
  closed_once = v.closed_once;
}
Step-InOrder (sees_done at done) v = record {
  in_order = v.in_order;
  bounded = v.bounded;
  closed_once = v.closed_once;
}
Step-InOrder (resolves r at) v = record {
  in_order = v.in_order;
  bounded = v.bounded;
  closed_once = v.closed_once;
}
Step-InOrder is_cancelled v = record {
  in_order = v.in_order;
  bounded = v.bounded;
  closed_once = v.closed_once;
}

-- In every order of the watch's goroutine and of the consumer's, from the start of the watch on: what
-- came out of the channel and what is in it is what went into it, in that order; the channel never
-- holds more than 16 events; and it is closed exactly when the watch's goroutine has returned.
pub feed-InOrder : (mr : Resolver) {f : Feed} → Run Anything (new_feed mr) f → InOrder f
feed-InOrder mr here = record { in_order = refl; bounded = omega arith; closed_once = refl }
feed-InOrder mr (after r s) = Step-InOrder s (feed-InOrder mr r)
