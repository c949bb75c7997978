-- ===== src/Consul/Heartbeat/Alive.antt =====
-- What keeps the heartbeats of consul.go alive, and the critical sections that start none.
use lib_service_discovery.Common.{
  ℕ, ◌<◌, String, ◌≡◌, refl, inl, inr, true, false, some, List, ◌∷◌, arith, contains, Bool-cases,
  eq_iff,
}
use lib_service_discovery.Common.Dict.{lookup, erase, lookup-erase}
use lib_service_discovery.Consul.Heartbeat.{Beats, begin_beat, drop_beat, close_beats, remove_start}
use lib_service_discovery.Consul.Heartbeat.Steps.{Has}
use lib_service_discovery.Consul.Heartbeat.Tokens.{
  occurs, Distinct, occurs-remove_start, occurs-removed, Distinct-remove_start, Has-remove_start,
  occurs-lookup, occurs-erase, cancel_of-contains, cancel_all-contains,
}

-- A token is below the next one where it was cancelled, is being started or is held; it is in one of
-- these three states at a time; and what is held runs.
pub record IsAlive (b : Beats) : Type 0 where
  pub cancelled_old : (t : ℕ) → contains b.cancelled t ≡ true → t < b.fresh
  pub starting_old : (t : ℕ) → occurs t b.starting ≡ true → t < b.fresh
  pub held_old : (t : ℕ) → occurs t b.heartbeats ≡ true → t < b.fresh
  pub starting_once : Distinct b.starting
  pub starting_live :
      (t : ℕ)
      → occurs t b.starting ≡ true
      → (contains b.cancelled t ≡ false) × (occurs t b.heartbeats ≡ false)
  pub held_live :
      (id : String) (t : ℕ) → lookup id b.heartbeats ≡ some t → contains b.cancelled t ≡ false
  pub held_once :
      (id j : String) (t : ℕ)
      → lookup id b.heartbeats ≡ some t
      → lookup j b.heartbeats ≡ some t
      → id ≡ j
  pub held_runs : (id : String) (t : ℕ) → lookup id b.heartbeats ≡ some t → Has (id, t) b.running

module _ (b : Beats) (a : IsAlive b) where
  occurs_new :
      (xs : List (String × ℕ))
      → ((t : ℕ) → occurs t xs ≡ true → t < b.fresh)
      → occurs b.fresh xs ≡ false
  occurs_new xs old = elim (Bool-cases (occurs b.fresh xs)) [
    | inr new ↦ new
    | inl seen ↦ absurd (irreflexive (old b.fresh seen))
  ]
    where
      irreflexive : b.fresh < b.fresh → ⊥
      irreflexive h = omega arith

  cancelled_new : contains b.cancelled b.fresh ≡ false
  cancelled_new = elim (Bool-cases (contains b.cancelled b.fresh)) [
    | inr new ↦ new
    | inl seen ↦ absurd (irreflexive (a.cancelled_old b.fresh seen))
  ]
    where
      irreflexive : b.fresh < b.fresh → ⊥
      irreflexive h = omega arith

  pub begin_beat-IsAlive : (id : String) → IsAlive (begin_beat id b)
  unfolding begin_beat
  begin_beat-IsAlive id = elim (Bool-cases b.closed) [
    | inl closed ↦ simp closed a
    | inr live ↦ simp live (record {
      cancelled_old = λ t h. let k = a.cancelled_old t h in omega arith;
      starting_old = λ t h. ground (arith, a.starting_old t);
      held_old = λ t h. let k = a.held_old t h in omega arith;
      starting_once = (occurs_new b.starting a.starting_old, a.starting_once);
      starting_live = λ t h. (
        ground (arith, cancelled_new, a.starting_live t),
        ground (arith, occurs_new b.heartbeats a.held_old, a.starting_live t),
      );
      held_live = a.held_live;
      held_once = a.held_once;
      held_runs = a.held_runs;
    })
  ]

  -- The second critical section, of a start that is under way.
  pub store_closed-IsAlive :
      (t : ℕ)
      → occurs t b.starting ≡ true
      → IsAlive (record b { starting = remove_start t b.starting; cancelled = t ∷ b.cancelled })
  store_closed-IsAlive t under_way = record {
    cancelled_old = λ u h. ground (arith, a.cancelled_old u, a.starting_old t under_way);
    starting_old = λ u h. a.starting_old u (occurs-remove_start t u b.starting h);
    held_old = a.held_old;
    starting_once = Distinct-remove_start t b.starting a.starting_once;
    starting_live = λ u h. (
      ground (
        arith,
        a.starting_live u,
        occurs-remove_start t u b.starting h,
        occurs-removed t b.starting a.starting_once,
      ),
      (a.starting_live u (occurs-remove_start t u b.starting h)).1,
    );
    held_live = λ id u h.
        ground (
          arith,
          a.held_live id u h,
          a.starting_live t under_way,
          occurs-lookup id u b.heartbeats h,
        );
    held_once = a.held_once;
    held_runs = a.held_runs;
  }

  pub drop_beat-IsAlive : (id : String) → IsAlive (drop_beat id b)
  unfolding drop_beat
  drop_beat-IsAlive id = record {
    cancelled_old = λ t h. ground (
      arith,
      cancel_of-contains id b.heartbeats b.cancelled t h,
      a.cancelled_old t,
      a.held_old t,
      occurs-lookup id t b.heartbeats,
    );
    starting_old = a.starting_old;
    held_old = λ t h. a.held_old t (occurs-erase id t b.heartbeats h);
    starting_once = a.starting_once;
    starting_live = λ t h. (
      ground (
        arith,
        a.starting_live t h,
        cancel_of-contains id b.heartbeats b.cancelled t,
        occurs-lookup id t b.heartbeats,
      ),
      ground (arith, a.starting_live t h, occurs-erase id t b.heartbeats),
    );
    held_live = λ j t h. ground (
      arith,
      eq_iff id j,
      lookup-erase id j b.heartbeats,
      a.held_live j t,
      cancel_of-contains id b.heartbeats b.cancelled t,
      a.held_once id j t,
    );
    held_once = λ i j t h k.
        ground (
          arith,
          lookup-erase id i b.heartbeats,
          lookup-erase id j b.heartbeats,
          a.held_once i j t,
        );
    held_runs = λ j t h. a.held_runs j t (kept j t h);
  }
    where
      kept :
          (j : String) (t : ℕ)
          → lookup j (erase id b.heartbeats) ≡ some t
          → lookup j b.heartbeats ≡ some t
      kept j t h = ground (arith, lookup-erase id j b.heartbeats)

  pub close_beats-IsAlive : IsAlive (close_beats b)
  unfolding close_beats
  close_beats-IsAlive = record {
    cancelled_old = λ t h.
        ground (
          arith,
          cancel_all-contains b.heartbeats b.cancelled t h,
          a.cancelled_old t,
          a.held_old t,
        );
    starting_old = a.starting_old;
    held_old = λ t h. cc;
    starting_once = a.starting_once;
    starting_live = λ t h.
        (ground (arith, a.starting_live t h, cancel_all-contains b.heartbeats b.cancelled t), refl);
    held_live = λ id t h. absurd (unfold lookup in cc);
    held_once = λ i j t h k. absurd (unfold lookup in cc);
    held_runs = λ id t h. absurd (unfold lookup in cc);
  }

  -- A goroutine that finds its context cancelled ends.
  pub ended-IsAlive :
      (t : ℕ)
      → contains b.cancelled t ≡ true
      → IsAlive (record b { running = remove_start t b.running })
  ended-IsAlive t done = record {
    cancelled_old = a.cancelled_old;
    starting_old = a.starting_old;
    held_old = a.held_old;
    starting_once = a.starting_once;
    starting_live = a.starting_live;
    held_live = a.held_live;
    held_once = a.held_once;
    held_runs = λ id u h.
        let live = a.held_live id u h in
        Has-remove_start t id u b.running (ground (arith, live, done)) (a.held_runs id u h);
  }
