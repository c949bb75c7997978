-- ===== src/Consul/Heartbeat/Liveness.antt =====
-- The heartbeat that consul.go's registry holds for a service is alive, in any order of the calls.
use lib_service_discovery.Common.{
  ℕ, String, ◌≡◌, sym, subst, inl, inr, true, false, some, ◌∷◌, arith, contains, Bool-cases, eq_iff,
  ◌==◌, if_true, if_false,
}
use lib_service_discovery.Common.Dict.{lookup, insert, lookup-insert}
use lib_service_discovery.Consul.Heartbeat.{Beats, store_beat, cancel_of, remove_start}
use lib_service_discovery.Consul.Heartbeat.Steps.{
  Has, Step, begins, stores, deregisters, closes, ends, Reach, start, next,
}
use lib_service_discovery.Consul.Heartbeat.Tokens.{
  occurs, Has-occurs, occurs-remove_start, occurs-removed, Distinct-remove_start, occurs-lookup,
  occurs-insert, cancel_of-contains,
}
use lib_service_discovery.Consul.Heartbeat.Alive.{
  IsAlive, begin_beat-IsAlive, store_closed-IsAlive, drop_beat-IsAlive, close_beats-IsAlive,
  ended-IsAlive,
}

module _ (b : Beats) (a : IsAlive b) where
  store_live-IsAlive :
      (id : String) (t : ℕ)
      → occurs t b.starting ≡ true
      → IsAlive (record b {
        starting = remove_start t b.starting;
        cancelled = cancel_of id b.heartbeats b.cancelled;
        heartbeats = insert id t b.heartbeats;
        running = (id, t) ∷ b.running;
      })
  store_live-IsAlive id t under_way = record {
    cancelled_old = λ u h. ground (
      arith,
      cancel_of-contains id b.heartbeats b.cancelled u h,
      a.cancelled_old u,
      a.held_old u,
      occurs-lookup id u b.heartbeats,
    );
    starting_old = λ u h. a.starting_old u (occurs-remove_start t u b.starting h);
    held_old = λ u h.
        ground
          (arith, occurs-insert id t u b.heartbeats h, a.held_old u, a.starting_old t under_way);
    starting_once = Distinct-remove_start t b.starting a.starting_once;
    starting_live = λ u h.
        let old = a.starting_live u (occurs-remove_start t u b.starting h) in
        (
          ground (
            arith,
            old,
            cancel_of-contains id b.heartbeats b.cancelled u,
            occurs-lookup id u b.heartbeats,
          ),
          ground (
            arith,
            old,
            h,
            occurs-insert id t u b.heartbeats,
            occurs-removed t b.starting a.starting_once,
          ),
        );
    held_live = λ j u h. ground (
      arith,
      h,
      eq_iff id j,
      lookup-insert id j t b.heartbeats,
      a.held_live j u,
      a.starting_live t under_way,
      cancel_of-contains id b.heartbeats b.cancelled u,
      occurs-lookup id u b.heartbeats,
      a.held_once id j u,
    );
    held_once = λ i j u h k. ground (
      arith,
      h,
      k,
      eq_iff id i,
      eq_iff id j,
      lookup-insert id i t b.heartbeats,
      lookup-insert id j t b.heartbeats,
      a.held_once i j u,
      a.starting_live t under_way,
      occurs-lookup i u b.heartbeats,
      occurs-lookup j u b.heartbeats,
    );
    held_runs = λ j u h. elim (Bool-cases (id == j)) [
      | inl same ↦
          inl (ground (arith, h, same, (eq_iff id j).0 same, lookup-insert id j t b.heartbeats))
      | inr other ↦
          inr (a.held_runs j u (ground (arith, h, other, lookup-insert id j t b.heartbeats)))
    ];
  }

  store_beat-IsAlive :
      (id : String) (t : ℕ) → occurs t b.starting ≡ true → IsAlive (store_beat id t b)
  unfolding store_beat
  store_beat-IsAlive id t under_way = elim (Bool-cases b.closed) [
    | inl closed ↦
        subst IsAlive (sym (if_true b.closed _ closed)) (store_closed-IsAlive b a t under_way)
    | inr open_ ↦
        subst IsAlive (sym (if_false b.closed _ open_)) (store_live-IsAlive id t under_way)
  ]

Step-IsAlive : {b c : Beats} → Step b c → IsAlive b → IsAlive c
Step-IsAlive {b} (begins id) a = begin_beat-IsAlive b a id
Step-IsAlive {b} (stores id t waits) a =
    store_beat-IsAlive b a id t (Has-occurs id t b.starting waits)
Step-IsAlive {b} (deregisters id) a = drop_beat-IsAlive b a id
Step-IsAlive {b} closes a = close_beats-IsAlive b a
Step-IsAlive {b} (ends t done) a = ended-IsAlive b a t done

Reach-IsAlive : {b : Beats} → Reach b → IsAlive b
Reach-IsAlive start = record {
  cancelled_old = λ t h. cc;
  starting_old = λ t h. cc;
  held_old = λ t h. cc;
  starting_once = tt;
  starting_live = λ t h. cc;
  held_live = λ id t h. absurd (unfold lookup in cc);
  held_once = λ i j t h k. absurd (unfold lookup in cc);
  held_runs = λ id t h. absurd (unfold lookup in cc);
}
Reach-IsAlive (next r s) = Step-IsAlive s (Reach-IsAlive r)

-- In every order of the critical sections of concurrent registrations, deregistrations and closes,
-- the heartbeat that the registry holds for a service has a goroutine that was started and has not
-- ended, on a context that is not cancelled.
pub held-alive :
    {b : Beats}
    → Reach b
    → (id : String) (t : ℕ) → lookup id b.heartbeats ≡ some t
    → Has (id, t) b.running × (contains b.cancelled t ≡ false)
held-alive {b} r id t held =
    let a : IsAlive b = Reach-IsAlive r in (a.held_runs id t held, a.held_live id t held)
