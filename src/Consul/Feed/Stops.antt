-- ===== src/Consul/Feed/Stops.antt =====
-- The two goroutines of Consul/Feed end once their context is cancelled, in every order.
use lib_service_discovery.Common.{
  ℕ, zero, suc, ◌<◌, ◌≡◌, refl, sym, subst, inl, inr, true, List, [], ◌∷◌, arith,
}
use lib_service_discovery.Consul.Agent.{Entry}
use lib_service_discovery.Consul.Feed.{Loop, top, querying, sleeping, sending, returned, Feed}
use lib_service_discovery.Consul.Feed.Progress.{
  Move, BothOver, At, Below, Falls, Live, pending, consumer_moves, producer_moves, live,
}

-- Both have returned; or one of them can move, and whichever does, both come to return.
pub data Ends : Feed → Type 0 where
  ended : {f : Feed} → BothOver f → Ends f
  goes : {f : Feed} (next : Feed) → Move f next → ((g : Feed) → Move f g → Ends g) → Ends f

-- Where all that the producer can do next ends, so does all that the consumer does before it.
Ending : Loop → Type 0
Ending l = (f : Feed) → At l f → Ends f

stage :
    (l : Loop)
    → ((m : Loop) → Below l m → Ending m)
    → (n : ℕ) (f : Feed) → At l f
    → pending f < n
    → Ends f
unfolding Ending Live Falls
stage l below zero f v bound = absurd (omega (arith, bound))
stage l below (suc n) f v bound = elim (live l f v) [
  | inl both ↦ ended both
  | inr (next, move) ↦ goes next move (λ g other. elim other.by_goroutine [
    | inl p ↦
        let (m, w, b) = producer_moves other.step p v.done in
        below m (subst (λ k. Below k m) v.place b) g w
    | inr c ↦
        let (w, less) = consumer_moves other.step c v in
        stage l below n g w (omega (arith, less, bound))
  ])
]

ending : (l : Loop) → ((m : Loop) → Below l m → Ending m) → Ending l
unfolding Ending
ending l below f v = stage l below (suc (pending f)) f v (omega arith)

returned-Ending : Ending returned
unfolding Below
returned-Ending = ending returned (λ m b. absurd b)

top-Ending : Ending top
unfolding Below
top-Ending = ending top (λ m b. subst Ending (sym b) returned-Ending)

sleeping-Ending : Ending sleeping
unfolding Below
sleeping-Ending = ending sleeping (λ m b. elim b [
  | inl h ↦ subst Ending (sym h) returned-Ending
  | inr h ↦ subst Ending (sym h) top-Ending
])

sending-Ending : (es : List Entry) → Ending (sending es)
unfolding Below
sending-Ending [] = ending (sending []) (λ m b. subst Ending (sym b) top-Ending)
sending-Ending (e ∷ es) = ending (sending (e ∷ es)) (λ m b. elim b [
  | inl h ↦ subst Ending (sym h) returned-Ending
  | inr h ↦ subst Ending (sym h) (sending-Ending es)
])

querying-Ending : Ending querying
unfolding Below
querying-Ending = ending querying (λ m b. elim b [
  | inl h ↦ subst Ending (sym h) returned-Ending
  | inr (inl h) ↦ subst Ending (sym h) top-Ending
  | inr (inr (inl h)) ↦ subst Ending (sym h) sleeping-Ending
  | inr (inr (inr (es, h))) ↦ subst Ending (sym h) (sending-Ending es)
])

all-Ending : (l : Loop) → Ending l
all-Ending top = top-Ending
all-Ending querying = querying-Ending
all-Ending sleeping = sleeping-Ending
all-Ending (sending es) = sending-Ending es
all-Ending returned = returned-Ending

-- Wherever the two goroutines are when their context is cancelled, also with a full channel, and in
-- whatever order they then move: they come to return, both, after finitely many steps, and before
-- that one of them can always move.
pub feed-stops : (f : Feed) → f.cancelled ≡ true → Ends f
unfolding Ending
feed-stops f done = all-Ending f.loop f (record { place = refl; done = done })
