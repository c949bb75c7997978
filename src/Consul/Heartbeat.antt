-- ===== src/Consul/Heartbeat.antt =====
-- consul.go: the TTL heartbeats of `consulRegistry`. Each section under the registry's mutex is one
-- function on the state that the mutex guards, together with the goroutines it starts and the
-- contexts it cancels.
pub mod Steps
pub mod Safety
pub mod Interval
pub mod Tokens
pub mod Alive
pub mod Liveness
use lib_service_discovery.Common.{
  ℕ, suc, nat_eq, ◌+◌, ◌/◌, String, Bool, true, false, Option, none, some, List, [], ◌∷◌, ltb,
  if◌then◌else◌,
}
use lib_service_discovery.Common.Dict.{Dict, lookup, insert, erase}
use lib_service_discovery.Common.Int.{ℤ, pos, negsuc}
use lib_service_discovery.Platform.{Platform}

-- A heartbeat is known by the token of its context, and a service by its ID.
pub record Beats : Type 0 where
  pub heartbeats : Dict ℕ
  pub closed : Bool
  -- the tokens whose `cancel` was called
  pub cancelled : List ℕ
  -- the next context's token
  pub fresh : ℕ
  -- `startHeartbeat` calls between their two critical sections
  pub starting : List (String × ℕ)
  -- the goroutines that were started, by service and token
  pub running : List (String × ℕ)

abbrev pub no_beats : Beats
no_beats = record {
  heartbeats = [];
  closed = false;
  cancelled = [];
  fresh = 0;
  starting = [];
  running = [];
}

-- One second, in nanoseconds.
abbrev pub ttl_heartbeat_floor : ℕ
ttl_heartbeat_floor = 1_000_000_000

-- Half of the TTL, but never below the floor.
unfoldable pub heartbeat_interval : Platform → String → ℕ
heartbeat_interval p ttl = elim (p.parse_duration ttl) [
  | none ↦ ttl_heartbeat_floor
  | some d ↦ elim d [
    | pos n ↦ if ltb ttl_heartbeat_floor (n / 2) then n / 2 else ttl_heartbeat_floor
    | negsuc n ↦ ttl_heartbeat_floor
  ]
]

-- The first section: the test of `closed`, and the context that is created behind it.
unfoldable pub begin_beat : String → Beats → Beats
begin_beat id b =
    if b.closed then b else record b { fresh = suc b.fresh; starting = (id, b.fresh) ∷ b.starting }

-- `if prev, ok := r.heartbeats[serviceID]; ok { prev() }`
pub cancel_of : String → Dict ℕ → List ℕ → List ℕ
cancel_of id m cancelled = elim (lookup id m) [ none ↦ cancelled | some t ↦ t ∷ cancelled ]

-- Removes the start of a token.
unfoldable pub remove_start : ℕ → List (String × ℕ) → List (String × ℕ)
remove_start t [] = []
remove_start t ((id, u) ∷ xs) = if nat_eq u t then xs else (id, u) ∷ remove_start t xs

-- The second section, after the first pass: the test of `closed`, the cancellation of an earlier
-- heartbeat of the service, and the entry; behind it the goroutine is started.
unfoldable pub store_beat : String → ℕ → Beats → Beats
unfolding cancel_of remove_start
store_beat id t b =
    let starting = remove_start t b.starting in
    if b.closed then record b { starting = starting; cancelled = t ∷ b.cancelled } else record b {
      starting = starting;
      cancelled = cancel_of id b.heartbeats b.cancelled;
      heartbeats = insert id t b.heartbeats;
      running = (id, t) ∷ b.running;
    }

-- The section of `Deregister`.
unfoldable pub drop_beat : String → Beats → Beats
unfolding cancel_of
drop_beat id b = record b {
  cancelled = cancel_of id b.heartbeats b.cancelled;
  heartbeats = erase id b.heartbeats;
}

pub cancel_all : Dict ℕ → List ℕ → List ℕ
cancel_all [] cancelled = cancelled
cancel_all ((id, t) ∷ m) cancelled = t ∷ cancel_all m cancelled

-- The section of `Close`.
unfoldable pub close_beats : Beats → Beats
unfolding cancel_all
close_beats b = record b {
  closed = true;
  cancelled = cancel_all b.heartbeats b.cancelled;
  heartbeats = [];
}
