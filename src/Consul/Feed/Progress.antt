-- ===== src/Consul/Feed/Progress.antt =====
-- What a step of the two goroutines of Consul/Feed does to what they have left to do, once their
-- context is cancelled.
use lib_service_discovery.Common.{
  ℕ, suc, ◌+◌, ◌*◌, ◌<◌, ◌≡◌, ◌≢◌, refl, sym, ap, subst, ◌⊎◌, inl, inr, true, List, [], ◌∷◌,
  if_true, arith, length, ltb, nat_eq, if-All,
}
use lib_service_discovery.Errors.{err, foreign}
use lib_service_discovery.Consul.Agent.{Entry}
use lib_service_discovery.Consul.Api.{Answer, failed, answered}
use lib_service_discovery.Consul.Sleep.{context_first, sleep_ctx}
use lib_service_discovery.Consul.Feed.{
  Loop, top, querying, sleeping, sending, returned, Consumer, receiving, resolving, over, Feed,
  finish, turn, poll, wake_up, send, all_sent, receive, hang_up, resolved,
}
use lib_service_discovery.Consul.Feed.Steps.{
  Step, turns, polls, sleeps_out, is_woken, sends, gives_up, has_sent, receives, sees_closed,
  sees_done, resolves, is_cancelled, Anything,
}

-- Who makes a step.
pub data Mover : Type 0 where
  producer consumer environment : Mover

abbrev pub mover : {f g : Feed} → Step Anything f g → Mover
mover (turns at) = producer
mover (polls a kind at) = producer
mover (sleeps_out at) = producer
mover (is_woken at done) = producer
mover (sends e es at room) = producer
mover (gives_up e es at done) = producer
mover (has_sent at) = producer
mover (receives x xs at h) = consumer
mover (sees_closed at h closed) = consumer
mover (sees_done at done) = consumer
mover (resolves r at) = consumer
mover is_cancelled = environment

-- A step of one of the two goroutines.
pub record Move (f g : Feed) : Type 0 where
  pub step : Step Anything f g
  pub by_goroutine : (mover step ≡ producer) ⊎ (mover step ≡ consumer)

pub record BothOver (g : Feed) : Type 0 where
  pub producer_over : g.loop ≡ returned
  pub consumer_over : g.consumer ≡ over

-- What the consumer has left to do, at the most.
weight : Consumer → ℕ
weight receiving = 1
weight resolving = 2
weight over = 0

unfoldable pub pending : Feed → ℕ
unfolding weight
pending f = 3 * length f.buffer + weight f.consumer

pub record At (l : Loop) (f : Feed) : Type 0 where
  pub place : f.loop ≡ l
  pub done : f.cancelled ≡ true

receive_pending :
    (f : Feed) (n : ℕ)
    → length f.buffer ≡ suc n
    → f.consumer ≡ receiving
    → (3 * n + weight resolving) < pending f
unfolding pending weight
receive_pending f n some_left at =
    let w : (weight f.consumer ≡ 1) = ap weight at in omega (arith, some_left, w)

producer≢consumer : ◌≢◌ {A = Mover} producer consumer
producer≢consumer h = cc h

-- A step of the consumer leaves the producer where it is.
pub consumer_moves :
    {l : Loop} {f g : Feed} (s : Step Anything f g)
    → mover s ≡ consumer
    → At l f
    → At l g × (pending g < pending f)
unfolding receive hang_up resolved pending weight
consumer_moves {f = f} (receives x xs at h) m v =
    (record { place = v.place; done = v.done }, receive_pending f (length xs) (ap length h) at)
consumer_moves {f = f} (sees_closed at h closed) m v =
    let w : (weight f.consumer ≡ 1) = ap weight at in
    (record { place = v.place; done = v.done }, omega (arith, w))
consumer_moves {f = f} (sees_done at done) m v =
    let w : (weight f.consumer ≡ 1) = ap weight at in
    (record { place = v.place; done = v.done }, omega (arith, w))
consumer_moves {f = f} (resolves r at) m v =
    let w : (weight f.consumer ≡ 2) = ap weight at in
    (record { place = v.place; done = v.done }, omega (arith, w))
consumer_moves (turns at) m v = absurd (producer≢consumer m)
consumer_moves (polls a kind at) m v = absurd (producer≢consumer m)
consumer_moves (sleeps_out at) m v = absurd (producer≢consumer m)
consumer_moves (is_woken at done) m v = absurd (producer≢consumer m)
consumer_moves (sends e es at room) m v = absurd (producer≢consumer m)
consumer_moves (gives_up e es at done) m v = absurd (producer≢consumer m)
consumer_moves (has_sent at) m v = absurd (producer≢consumer m)
consumer_moves is_cancelled m v = cc m

-- Where the producer can be after a step.
unfoldable pub Below : Loop → Loop → Type 0
Below returned l = ⊥
Below top l = l ≡ returned
Below sleeping l = (l ≡ returned) ⊎ (l ≡ top)
Below (sending []) l = l ≡ top
Below (sending (e ∷ es)) l = (l ≡ returned) ⊎ (l ≡ sending es)
Below querying l =
    (l ≡ returned) ⊎ (l ≡ top) ⊎ (l ≡ sleeping) ⊎ ((es : List Entry) × (l ≡ sending es))

-- A step of the producer under a cancelled context goes to one of these.
unfoldable pub Falls : Feed → Feed → Type 0
Falls f g = (m : Loop) × At m g × Below f.loop m

fall : (f : Feed) {g : Feed} {l : Loop} (m : Loop) → At m g → Below l m → f.loop ≡ l → Falls f g
unfolding Falls
fall f m v below at = (m, v, subst (λ k. Below k m) (sym at) below)

finish-At : (f : Feed) → f.cancelled ≡ true → At returned (finish f)
unfolding finish
finish-At f done = record { place = refl; done = done }

poll-Falls : (a : Answer) (f : Feed) → f.loop ≡ querying → f.cancelled ≡ true → Falls f (poll a f)
unfolding poll Below
poll-Falls (failed text) f at done =
    fall f returned (subst (At returned) (sym (if_true f.cancelled _ done)) (finish-At f done))
      (inl refl) at
poll-Falls (answered es index) f at done =
    if-All (Falls f) (ltb index f.last_index) _ _
      (fall f top (record { place = refl; done = done }) (inr (inl refl)) at)
      (if-All (Falls f) (nat_eq index f.last_index) _ _
        (fall f top (record { place = refl; done = done }) (inr (inl refl)) at)
        (fall f (sending es) (record { place = refl; done = done }) (inr (inr (inr (es, refl))))
          at))

pub producer_moves :
    {f g : Feed} (s : Step Anything f g) → mover s ≡ producer → f.cancelled ≡ true → Falls f g
unfolding Below turn wake_up sleep_ctx send all_sent
producer_moves {f} (turns at) m done =
    fall f returned (subst (At returned) (sym (if_true f.cancelled _ done)) (finish-At f done)) refl
      at
producer_moves {f} (polls a kind at) m done = poll-Falls a f at done
producer_moves {f} (sleeps_out at) m done =
    fall f top (record { place = refl; done = done }) (inr refl) at
producer_moves {f} (is_woken at c) m done = fall f returned (finish-At f done) (inl refl) at
producer_moves {f} (sends e es at room) m done =
    fall f (sending es) (record { place = refl; done = done }) (inr refl) at
producer_moves {f} (gives_up e es at c) m done = fall f returned (finish-At f done) (inl refl) at
producer_moves {f} (has_sent at) m done = fall f top (record { place = refl; done = done }) refl at
producer_moves (receives x xs at h) m done = absurd (producer≢consumer (sym m))
producer_moves (sees_closed at h closed) m done = absurd (producer≢consumer (sym m))
producer_moves (sees_done at c) m done = absurd (producer≢consumer (sym m))
producer_moves (resolves r at) m done = absurd (producer≢consumer (sym m))
producer_moves is_cancelled m done = cc m

-- Somewhere a goroutine can move, unless both have returned.
unfoldable pub Live : Feed → Type 0
Live f = BothOver f ⊎ ((g : Feed) × Move f g)

consumer_live : (f : Feed) (c : Consumer) → f.consumer ≡ c → At returned f → Live f
unfolding Live
consumer_live f receiving at v =
    inr (hang_up f, record { step = sees_done at v.done; by_goroutine = inr refl })
consumer_live f resolving at v = inr (
  resolved (err (foreign "")) f,
  record { step = resolves (err (foreign "")) at; by_goroutine = inr refl },
)
consumer_live f over at v = inl (record { producer_over = v.place; consumer_over = at })

pub live : (l : Loop) (f : Feed) → At l f → Live f
unfolding Live
live top f v = inr (turn f, record { step = turns v.place; by_goroutine = inl refl })
live querying f v =
    inr
      (poll (failed "") f, record { step = polls (failed "") tt v.place; by_goroutine = inl refl })
live sleeping f v =
    inr
      (wake_up context_first f, record { step = is_woken v.place v.done; by_goroutine = inl refl })
live (sending []) f v =
    inr (all_sent f, record { step = has_sent v.place; by_goroutine = inl refl })
live (sending (e ∷ es)) f v =
    inr (finish f, record { step = gives_up e es v.place v.done; by_goroutine = inl refl })
live returned f v = consumer_live f f.consumer refl v
