-- ===== src/Tests/Registries.antt =====
-- The theorems on the Consul backend, applied.
use lib_service_discovery.Common.{
  false, ℕ, ◌≡◌, refl, inl, inr, true, [], ◌∷◌, arith, All, contains,
}
use lib_service_discovery.Common.Dict.{lookup, insert}
use lib_service_discovery.Context.{background}
use lib_service_discovery.Consul.Heartbeat.{Beats, no_beats, begin_beat, store_beat, close_beats}
use lib_service_discovery.Consul.Heartbeat.Steps.{Has, begins, stores, closes, Reach, start, next}
use lib_service_discovery.Consul.Heartbeat.Liveness.{held-alive}
use lib_service_discovery.Consul.Heartbeat.Safety.{closed-cancelled, one_heartbeat}
use lib_service_discovery.Consul.RoundRobin.{int_limit}
use lib_service_discovery.Consul.Registry.{panicked, count, resolve}
use lib_service_discovery.Consul.Registry.Resolve.{resolve_panics}
use lib_service_discovery.Tests.Samples.{stored, counting_api, new_registry}

-- Two starts of the same service that overlap: both are stored, and the first is then cancelled.
abbrev overlapping : Beats
overlapping = store_beat "a" 1 (store_beat "a" 0 (begin_beat "a" (begin_beat "a" no_beats)))

overlapping-Reach : Reach overlapping
unfolding begin_beat store_beat
overlapping-Reach =
    next (next (next (next start (begins "a")) (begins "a")) (stores "a" 0 (inr (inl refl))))
      (stores "a" 1 (inl refl))

closed-cancelled_example :
    All
      (λ r. contains (close_beats overlapping).cancelled r.1 ≡ true)
      (close_beats overlapping).running
unfolding close_beats store_beat begin_beat
closed-cancelled_example = closed-cancelled (next overlapping-Reach closes) refl

held-alive_example : Has ("a", 1) overlapping.running × (contains overlapping.cancelled 1 ≡ false)
unfolding store_beat begin_beat lookup insert
held-alive_example = held-alive overlapping-Reach "a" 1 refl

one_heartbeat_example : ◌≡◌ {A = ℕ} 1 1
unfolding store_beat begin_beat lookup insert
one_heartbeat_example = one_heartbeat overlapping-Reach "a" 1 1 (inl refl) (inl refl) refl refl

resolve_panics_example :
    (resolve counting_api background "payments" "" (record new_registry { rr = int_limit })).0
    ≡ panicked
unfolding count
resolve_panics_example =
    resolve_panics counting_api background "payments" "" (record new_registry { rr = int_limit })
      stored (stored ∷ stored ∷ []) 7 refl (omega arith) (omega arith) (omega arith)
