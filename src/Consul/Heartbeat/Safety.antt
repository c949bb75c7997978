-- ===== src/Consul/Heartbeat/Safety.antt =====
-- No heartbeat of consul.go outlives `Close`, and no service has two, in any order of the calls.
use lib_service_discovery.Common.{
  ℕ, String, ◌≡◌, refl, ◌⊎◌, inl, inr, true, false, some, List, [], ◌∷◌, arith, eq_refl, subst,
  contains, All, eq_iff, Bool-cases,
}
use lib_service_discovery.Common.Dict.{Dict, lookup, insert, erase, lookup-insert, lookup-erase}
use lib_service_discovery.Consul.Heartbeat.Steps.{
  Has, Step, begins, stores, deregisters, closes, ends, Reach, start, next, All-map,
  All-remove_start, All-Has,
}
use lib_service_discovery.Consul.Heartbeat.{
  Beats, begin_beat, store_beat, drop_beat, close_beats, cancel_of, cancel_all,
}

-- A goroutine's context is cancelled, or it is the one that the registry holds for its service.
abbrev pub Held : Dict ℕ → List ℕ → String × ℕ → Type 0
Held m cancelled (id, t) = (contains cancelled t ≡ true) ⊎ (lookup id m ≡ some t)

pub record IsSafe (b : Beats) : Type 0 where
  pub held : All (Held b.heartbeats b.cancelled) b.running
  pub closed_empty : b.closed ≡ true → b.heartbeats ≡ []

-- Cancelling adds tokens and removes none.
contains-cancel_of :
    (id : String) (m : Dict ℕ) (cancelled : List ℕ) (t : ℕ)
    → contains cancelled t ≡ true
    → contains (cancel_of id m cancelled) t ≡ true
unfolding cancel_of
contains-cancel_of id m cancelled t h = ground arith

contains-cancel_of-lookup :
    (id : String) (m : Dict ℕ) (cancelled : List ℕ) (t : ℕ)
    → lookup id m ≡ some t
    → contains (cancel_of id m cancelled) t ≡ true
unfolding cancel_of
contains-cancel_of-lookup id m cancelled t h = ground arith

contains-cancel_all :
    (m : Dict ℕ) (cancelled : List ℕ) (t : ℕ)
    → contains cancelled t ≡ true
    → contains (cancel_all m cancelled) t ≡ true
unfolding cancel_all
contains-cancel_all [] cancelled t h = h
contains-cancel_all ((j, u) ∷ m) cancelled t h = ground (arith, contains-cancel_all m cancelled t h)

contains-cancel_all-lookup :
    (id : String) (m : Dict ℕ) (cancelled : List ℕ) (t : ℕ)
    → lookup id m ≡ some t
    → contains (cancel_all m cancelled) t ≡ true
unfolding cancel_all lookup
contains-cancel_all-lookup id [] cancelled t h = cc
contains-cancel_all-lookup id ((j, u) ∷ m) cancelled t h =
    ground (arith, contains-cancel_all-lookup id m cancelled t)

Held-store :
    (id : String) (t : ℕ) (m : Dict ℕ) (cancelled : List ℕ) (r : String × ℕ)
    → Held m cancelled r
    → Held (insert id t m) (cancel_of id m cancelled) r
Held-store id t m cancelled (j, u) h = ground (
  arith,
  eq_iff id j,
  lookup-insert id j t m,
  contains-cancel_of id m cancelled u,
  contains-cancel_of-lookup id m cancelled u,
)

Held-drop :
    (id : String) (m : Dict ℕ) (cancelled : List ℕ) (r : String × ℕ)
    → Held m cancelled r
    → Held (erase id m) (cancel_of id m cancelled) r
Held-drop id m cancelled (j, u) h = ground (
  arith,
  eq_iff id j,
  lookup-erase id j m,
  contains-cancel_of id m cancelled u,
  contains-cancel_of-lookup id m cancelled u,
)

Held-close :
    (m : Dict ℕ) (cancelled : List ℕ) (r : String × ℕ)
    → Held m cancelled r
    → Held [] (cancel_all m cancelled) r
Held-close m cancelled (j, u) (inl h) = inl (contains-cancel_all m cancelled u h)
Held-close m cancelled (j, u) (inr h) = inl (contains-cancel_all-lookup j m cancelled u h)

Held-cancel :
    (t : ℕ) (m : Dict ℕ) (cancelled : List ℕ) (r : String × ℕ)
    → Held m cancelled r
    → Held m (t ∷ cancelled) r
Held-cancel t m cancelled (j, u) h = ground arith

begin_beat-IsSafe : (id : String) (b : Beats) → IsSafe b → IsSafe (begin_beat id b)
unfolding begin_beat
begin_beat-IsSafe id b s = elim (Bool-cases b.closed) [
  | inl closed ↦ simp closed s
  | inr live ↦ simp live (record { held = s.held; closed_empty = λ closed. cc })
]

store_beat-IsSafe : (id : String) (t : ℕ) (b : Beats) → IsSafe b → IsSafe (store_beat id t b)
unfolding store_beat
store_beat-IsSafe id t b s = elim (Bool-cases b.closed) [
  | inl closed ↦ simp closed (record {
    held = All-map _ _ b.running (Held-cancel t b.heartbeats b.cancelled) s.held;
    closed_empty = λ _. s.closed_empty closed;
  })
  | inr live ↦ simp live (record {
    held = (
      inr (ground (arith, eq_refl id, lookup-insert id id t b.heartbeats)),
      All-map _ _ b.running (Held-store id t b.heartbeats b.cancelled) s.held,
    );
    closed_empty = λ closed. cc;
  })
]

drop_beat-IsSafe : (id : String) (b : Beats) → IsSafe b → IsSafe (drop_beat id b)
unfolding drop_beat
drop_beat-IsSafe id b s = record {
  held = All-map _ _ b.running (Held-drop id b.heartbeats b.cancelled) s.held;
  closed_empty = λ closed. rw (s.closed_empty closed) (unfold erase in refl);
}

close_beats-IsSafe : (b : Beats) → IsSafe b → IsSafe (close_beats b)
unfolding close_beats
close_beats-IsSafe b s = record {
  held = All-map _ _ b.running (Held-close b.heartbeats b.cancelled) s.held;
  closed_empty = λ closed. refl;
}

-- Every critical section, and the end of a goroutine, keeps the invariant.
pub Step-IsSafe : {b c : Beats} → Step b c → IsSafe b → IsSafe c
Step-IsSafe {b} (begins id) s = begin_beat-IsSafe id b s
Step-IsSafe {b} (stores id t waits) s = store_beat-IsSafe id t b s
Step-IsSafe {b} (deregisters id) s = drop_beat-IsSafe id b s
Step-IsSafe {b} closes s = close_beats-IsSafe b s
Step-IsSafe {b} (ends t done) s = record {
  held = All-remove_start _ t b.running s.held;
  closed_empty = s.closed_empty;
}

Reach-IsSafe : {b : Beats} → Reach b → IsSafe b
Reach-IsSafe start = record { held = tt; closed_empty = λ h. refl }
Reach-IsSafe (next r s) = Step-IsSafe s (Reach-IsSafe r)

Held-empty :
    (cancelled : List ℕ) (r : String × ℕ) → Held [] cancelled r → contains cancelled r.1 ≡ true
unfolding lookup
Held-empty cancelled (j, u) (inl h) = h
Held-empty cancelled (j, u) (inr h) = cc

-- Once `Close` has run, in whatever order it met the other calls, every heartbeat goroutine that was
-- started has had its context cancelled: none outlives `Close`.
pub closed-cancelled :
    {b : Beats} → Reach b → b.closed ≡ true → All (λ r. contains b.cancelled r.1 ≡ true) b.running
closed-cancelled {b} r closed =
    let s : IsSafe b = Reach-IsSafe r in
    All-map _ _ b.running (Held-empty b.cancelled)
      (subst (λ m. All (Held m b.cancelled) b.running) (s.closed_empty closed) s.held)

-- Two heartbeat goroutines of one service whose contexts are not cancelled are the same goroutine.
pub one_heartbeat :
    {b : Beats}
    → Reach b
    → (id : String) (t u : ℕ) → Has (id, t) b.running
    → Has (id, u) b.running
    → contains b.cancelled t ≡ false
    → contains b.cancelled u ≡ false
    → t ≡ u
one_heartbeat {b} r id t u p q live live' =
    let s : IsSafe b = Reach-IsSafe r in
    let h : Held b.heartbeats b.cancelled (id, t) = All-Has _ (id, t) b.running s.held p in
    let k : Held b.heartbeats b.cancelled (id, u) = All-Has _ (id, u) b.running s.held q in
    ground arith
