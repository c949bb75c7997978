-- ===== src/Consul/Feed/Answers.antt =====
-- What the consumer of Consul/Feed makes of the events, in every order of the two goroutines.
use lib_service_discovery.Common.{
  ℕ, ◌+◌, ◌≡◌, refl, sym, ap, ◌∙◌, List, [], ◌∷◌, ◌++◌, arith, length, length-snoc, if-All, ltb,
  nat_eq,
}
use lib_service_discovery.Errors.{Result}
use lib_service_discovery.Types.{Event, Service}
use lib_service_discovery.Resolver.{Resolver, refresh, refresh_all}
use lib_service_discovery.Consul.Api.{Answer, failed, answered}
use lib_service_discovery.Consul.Sleep.{sleep_ctx}
use lib_service_discovery.Consul.Feed.{
  Consumer, receiving, resolving, over, Feed, new_feed, finish, turn, poll, wake_up, send, all_sent,
  receive, hang_up, resolved, cancel_feed,
}
use lib_service_discovery.Consul.Feed.Steps.{
  Step, turns, polls, sleeps_out, is_woken, sends, gives_up, has_sent, receives, sees_closed,
  sees_done, resolves, is_cancelled, Run, here, after, Anything,
}
use lib_service_discovery.Consul.Feed.Order.{InOrder, feed-InOrder}

-- How many answers are outstanding.
abbrev pub outstanding : Consumer → ℕ
outstanding receiving = 0
outstanding resolving = 1
outstanding over = 0

pub record AreAnswered (mr : Resolver) (received : List Event) (answers : List (Result Service))
    (consumer : Consumer) (resolver : Resolver) : Type 0 where
  pub one_each : length received ≡ length answers + outstanding consumer
  pub cached : resolver ≡ refresh_all answers mr

abbrev pub Answered : Resolver → Feed → Type 0
Answered mr f = AreAnswered mr f.received f.answers f.consumer f.resolver

refresh_all-snoc :
    (rs : List (Result Service)) (r : Result Service) (mr : Resolver)
    → refresh_all (rs ++ (r ∷ [])) mr ≡ refresh r (refresh_all rs mr)
unfolding refresh_all
refresh_all-snoc [] r mr = refl
refresh_all-snoc (a ∷ rs) r mr = refresh_all-snoc rs r (refresh a mr)

module _ {mr : Resolver} (f : Feed) (v : Answered mr f) where
  poll-Answered : (a : Answer) → Answered mr (poll a f)
  unfolding poll finish
  poll-Answered (failed text) = if-All (Answered mr) f.cancelled _ _ v v
  poll-Answered (answered es index) =
      if-All (Answered mr) (ltb index f.last_index) _ _ v
        (if-All (Answered mr) (nat_eq index f.last_index) _ _ v v)

  turn-Answered : Answered mr (turn f)
  unfolding turn finish
  turn-Answered = if-All (Answered mr) f.cancelled _ _ v v

  receive-Answered :
      (x : Event) (xs : List Event) → f.consumer ≡ receiving → Answered mr (receive x xs f)
  unfolding receive
  receive-Answered x xs at = record {
    one_each =
        let n = v.one_each in
        let w : (outstanding f.consumer ≡ 0) = ap outstanding at in
        let k = length-snoc f.received x in omega (arith, n, w, k);
    cached = v.cached;
  }

  hang_up-Answered : f.consumer ≡ receiving → Answered mr (hang_up f)
  unfolding hang_up
  hang_up-Answered at = record {
    one_each =
        let n = v.one_each in
        let w : (outstanding f.consumer ≡ 0) = ap outstanding at in omega (arith, n, w);
    cached = v.cached;
  }

  resolved-Answered : (r : Result Service) → f.consumer ≡ resolving → Answered mr (resolved r f)
  unfolding resolved
  resolved-Answered r at = record {
    one_each =
        let n = v.one_each in
        let w : (outstanding f.consumer ≡ 1) = ap outstanding at in
        let k = length-snoc f.answers r in omega (arith, n, w, k);
    cached = ap (λ c. refresh r c) v.cached ∙ sym (refresh_all-snoc f.answers r mr);
  }

Step-Answered : {mr : Resolver} {f g : Feed} → Step Anything f g → Answered mr f → Answered mr g
unfolding wake_up sleep_ctx finish send all_sent cancel_feed
Step-Answered {f = f} (turns at) v = turn-Answered f v
Step-Answered {f = f} (polls a kind at) v = poll-Answered f v a
Step-Answered (sleeps_out at) v = v
Step-Answered (is_woken at done) v = v
Step-Answered (sends e es at room) v = v
Step-Answered (gives_up e es at done) v = v
Step-Answered (has_sent at) v = v
Step-Answered {f = f} (receives x xs at h) v = receive-Answered f v x xs at
Step-Answered {f = f} (sees_closed at h closed) v = hang_up-Answered f v at
Step-Answered {f = f} (sees_done at done) v = hang_up-Answered f v at
Step-Answered {f = f} (resolves r at) v = resolved-Answered f v r at
Step-Answered is_cancelled v = v

Run-Answered : (mr : Resolver) {f : Feed} → Run Anything (new_feed mr) f → Answered mr f
unfolding refresh_all
Run-Answered mr here = record { one_each = refl; cached = refl }
Run-Answered mr (after r s) = Step-Answered s (Run-Answered mr r)

-- In every order of the watch's goroutine and of the consumer's, from the start of the watch on: what
-- came out of the channel and what is in it is what went into it, in that order; the channel never
-- holds more than 16 events; it is closed exactly when the watch's goroutine has returned; each event
-- that was received led to one resolve, of which at most the last one is not answered yet; and the
-- resolver is what these answers, in their order, made of the one that the watch was started for.
pub feed-Answered :
    (mr : Resolver) {f : Feed} → Run Anything (new_feed mr) f → InOrder f × Answered mr f
feed-Answered mr r = (feed-InOrder mr r, Run-Answered mr r)
