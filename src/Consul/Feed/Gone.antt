-- ===== src/Consul/Feed/Gone.antt =====
-- What the consumer of Consul/Feed learns when the last instance of a service leaves the catalog.
use lib_service_discovery.Common.{
  ℕ, suc, ◌≡◌, refl, sym, ap, ◌∙◌, Bool, true, false, [], ◌∷◌, if-All, ltb, nat_eq,
}
use lib_service_discovery.Resolver.{Resolver, service}
use lib_service_discovery.Consul.Api.{Answer, failed, answered}
use lib_service_discovery.Consul.Sleep.{sleep_ctx}
use lib_service_discovery.Consul.Feed.{
  Loop, top, querying, sleeping, sending, returned, Consumer, receiving, resolving, over, Feed,
  finish, turn, poll, wake_up, all_sent, hang_up, cancel_feed,
}
use lib_service_discovery.Consul.Feed.Steps.{
  Step, turns, polls, sleeps_out, is_woken, sends, gives_up, has_sent, receives, sees_closed,
  sees_done, resolves, is_cancelled, Run, here, after,
}

-- An answer without an instance: the query failed, or the catalog has none, at whatever index.
abbrev pub NoInstance : Answer → Type 0
NoInstance (failed text) = Unit
NoInstance (answered [] index) = Unit
NoInstance (answered (e ∷ es) index) = ⊥

-- There is nothing to send, and the consumer has no answer to wait for.
abbrev pub has_entries : Loop → Bool
has_entries top = false
has_entries querying = false
has_entries sleeping = false
has_entries (sending []) = false
has_entries (sending (e ∷ es)) = true
has_entries returned = false

abbrev pub is_resolving : Consumer → Bool
is_resolving receiving = false
is_resolving resolving = true
is_resolving over = false

pub record Settled (mr : Resolver) (f : Feed) : Type 0 where
  pub nothing_to_send : has_entries f.loop ≡ false
  pub empty_buffer : f.buffer ≡ []
  pub no_answer : is_resolving f.consumer ≡ false
  pub same_resolver : f.resolver ≡ mr

module _ (mr : Resolver) (f : Feed) (v : Settled mr f) where
  move-Settled :
      (loop : Loop) (last attempt : ℕ) (closed : Bool)
      → has_entries loop ≡ false
      → Settled mr
          (record f { loop = loop; last_index = last; attempt = attempt; channel_closed = closed })
  move-Settled loop last attempt closed h = record {
    nothing_to_send = h;
    empty_buffer = v.empty_buffer;
    no_answer = v.no_answer;
    same_resolver = v.same_resolver;
  }

  finish-Settled : Settled mr (finish f)
  unfolding finish
  finish-Settled = move-Settled returned f.last_index f.attempt true refl

  poll-Settled : (a : Answer) → NoInstance a → Settled mr (poll a f)
  unfolding poll
  poll-Settled (failed text) none_there =
      if-All (Settled mr) f.cancelled _ _ finish-Settled
        (move-Settled sleeping f.last_index f.attempt f.channel_closed refl)
  poll-Settled (answered [] index) none_there =
      if-All (Settled mr) (ltb index f.last_index) _ _ (move-Settled top 0 0 f.channel_closed refl)
        (if-All (Settled mr) (nat_eq index f.last_index) _ _
          (move-Settled top f.last_index 0 f.channel_closed refl)
          (move-Settled (sending []) index 0 f.channel_closed refl))
  poll-Settled (answered (e ∷ es) index) some_there = absurd some_there

  turn-Settled : Settled mr (turn f)
  unfolding turn
  turn-Settled =
      if-All (Settled mr) f.cancelled _ _ finish-Settled
        (move-Settled querying f.last_index f.attempt f.channel_closed refl)

  hang_up-Settled : Settled mr (hang_up f)
  unfolding hang_up
  hang_up-Settled = record {
    nothing_to_send = v.nothing_to_send;
    empty_buffer = v.empty_buffer;
    no_answer = refl;
    same_resolver = v.same_resolver;
  }

Step-Settled : {mr : Resolver} {f g : Feed} → Step NoInstance f g → Settled mr f → Settled mr g
unfolding wake_up sleep_ctx all_sent cancel_feed
Step-Settled {mr} {f} (turns at) v = turn-Settled mr f v
Step-Settled {mr} {f} (polls a none_there at) v = poll-Settled mr f v a none_there
Step-Settled {mr} {f} (sleeps_out at) v =
    move-Settled mr f v top f.last_index (suc f.attempt) f.channel_closed refl
Step-Settled {mr} {f} (is_woken at done) v = finish-Settled mr f v
Step-Settled {mr} {f} (sends e es at room) v = cc (sym (ap has_entries at) ∙ v.nothing_to_send)
Step-Settled {mr} {f} (gives_up e es at done) v = finish-Settled mr f v
Step-Settled {mr} {f} (has_sent at) v =
    move-Settled mr f v top f.last_index f.attempt f.channel_closed refl
Step-Settled {mr} {f} (receives x xs at h) v = cc (sym h ∙ v.empty_buffer)
Step-Settled {mr} {f} (sees_closed at h closed) v = hang_up-Settled mr f v
Step-Settled {mr} {f} (sees_done at done) v = hang_up-Settled mr f v
Step-Settled {mr} {f} (resolves r at) v = cc (sym (ap is_resolving at) ∙ v.no_answer)
Step-Settled {mr} {f} is_cancelled v = record {
  nothing_to_send = v.nothing_to_send;
  empty_buffer = v.empty_buffer;
  no_answer = v.no_answer;
  same_resolver = v.same_resolver;
}

Run-Settled : {mr : Resolver} {f g : Feed} → Run NoInstance f g → Settled mr f → Settled mr g
Run-Settled here v = v
Run-Settled (after r s) v = Step-Settled s (Run-Settled r v)

-- Take a watch whose consumer has dealt with all that was announced. From then on, and in every order
-- of the two goroutines, as long as no answer of Consul to the watch has an instance, however often
-- and with whatever index it answers that the service has none, the resolver keeps what it had cached.
pub gone-unnoticed :
    {f g : Feed}
    → Run NoInstance f g
    → Settled f.resolver f
    → service g.resolver ≡ service f.resolver
gone-unnoticed r v = ap service (Run-Settled r v).same_resolver
