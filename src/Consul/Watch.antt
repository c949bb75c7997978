-- ===== src/Consul/Watch.antt =====
-- consul.go: `watchLoop`, the loop over blocking queries that announces a service's instances. What
-- the environment does in a round is part of the round; the loop's own state is the catalog's index
-- and the count of failed polls in a row. The log lines are left out.
pub mod Loop
use lib_service_discovery.Common.{
  ℕ, zero, suc, ◌+◌, Bool, true, false, Option, none, some, List, [], ◌∷◌, ◌++◌, ltb, nat_eq,
  if◌then◌else◌,
}
use lib_service_discovery.Common.Int.{pos}
use lib_service_discovery.Types.{Event}
use lib_service_discovery.Consul.Agent.{Entry}
use lib_service_discovery.Consul.Api.{Answer, failed, answered}
use lib_service_discovery.Consul.Meta.{service_from_entry, event_type_for}
use lib_service_discovery.Consul.Backoff.{backoff_duration}

-- One round, as the environment has it.
pub record Round : Type 0 where
  -- the context is done at the top of the loop
  pub stopped : Bool
  -- what the blocking query returns
  pub answer : Answer
  -- the context is done when a query has failed
  pub cancelled : Bool
  -- the backoff's sleep is cut short by the context
  pub woken : Bool
  -- how many events the channel takes before the context is done, if it is
  pub room : Option ℕ

pub record Watch : Type 0 where
  pub last_index : ℕ
  pub attempt : ℕ
  -- the loop has returned, and closed its channel
  pub ended : Bool
  -- what was sent, and the delays that were slept, in order
  pub events : List Event
  pub delays : List ℕ

abbrev pub new_watch : Watch
new_watch = record { last_index = 0; attempt = 0; ended = false; events = []; delays = [] }

unfoldable pub event_of : Entry → Event
event_of e = record { type = event_type_for e; service = service_from_entry e }

-- `emitEntries`: what is sent, and whether all was.
unfoldable pub emit_entries : Option ℕ → List Entry → List Event × Bool
emit_entries room [] = ([], true)
emit_entries (some zero) (e ∷ es) = ([], false)
emit_entries (some (suc n)) (e ∷ es) =
    let (sent, all) = emit_entries (some n) es in (event_of e ∷ sent, all)
emit_entries none (e ∷ es) = let (sent, all) = emit_entries none es in (event_of e ∷ sent, all)

-- The part of a round behind a query that failed.
poll_failed : Round → Watch → Watch
poll_failed r w =
    if r.cancelled
    then record w { ended = true }
    else (let delays = w.delays ++ (backoff_duration (pos w.attempt) ∷ []) in
        if r.woken
        then record w { ended = true; delays = delays }
        else record w { attempt = suc w.attempt; delays = delays })

-- The part behind a query that was answered.
poll_answered : Round → List Entry → ℕ → Watch → Watch
poll_answered r es index w =
    if ltb index w.last_index
    then record w { attempt = 0; last_index = 0 }
    else if nat_eq index w.last_index
    then record w { attempt = 0 }
    else (let (sent, all) = emit_entries r.room es in
        record w {
          attempt = 0;
          last_index = index;
          events = w.events ++ sent;
          ended = if all then false else true;
        })

-- One round of the loop.
unfoldable pub watch_round : Round → Watch → Watch
unfolding poll_failed poll_answered
watch_round r w =
    if w.ended then w else if r.stopped then record w { ended = true } else elim r.answer [
      | failed text ↦ poll_failed r w
      | answered es index ↦ poll_answered r es index w
    ]

unfoldable pub watch_loop : List Round → Watch → Watch
watch_loop [] w = w
watch_loop (r ∷ rs) w = watch_loop rs (watch_round r w)
