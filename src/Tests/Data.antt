-- ===== src/Tests/Data.antt =====
-- The theorems on types.go, config.go and the pure parts of consul.go, applied.
use mathlib.Core.List
use mathlib.Core.Quot
use lib_service_discovery.Common.{◌≡◌, refl, false, none, [], ◌∷◌, arith}
use lib_service_discovery.Errors.{ok, err, sentinel, no_healthy_instances}
use lib_service_discovery.Types.{normalize_endpoints}
use lib_service_discovery.Consul.Api.{answered, failed}
use lib_service_discovery.Consul.Meta.{service_from_entry}
use lib_service_discovery.Consul.Meta.AsMap.{put, written, endpoints_read, endpoints_read-written}
use lib_service_discovery.Consul.Meta.RoundTrip.{published, service_from_entry-registration_for}
use lib_service_discovery.Consul.Watch.{Round, Watch, new_watch, event_of, watch_loop}
use lib_service_discovery.Consul.Watch.Loop.{over, down, watch_loop_rewound}
use lib_service_discovery.Resolver.{new_resolver, seed_with, refresh_all, service}
use lib_service_discovery.Resolver.Cache.{learn_all, seed_knowledge, serves, refresh_all-refines}
use lib_service_discovery.Tests.Samples.{payments, stored, replicas}

service_from_entry-registration_for_example : service_from_entry stored ≡ published payments
unfolding normalize_endpoints
service_from_entry-registration_for_example =
    service_from_entry-registration_for payments stored refl (refl, omega arith) (refl, omega arith)
      (record {
        same_id = refl;
        same_name = refl;
        same_address = refl;
        same_port = refl;
        same_tags = refl;
        same_meta = refl;
      })

-- Metadata of which two keys were written in either order.
endpoints_read-written_example :
    endpoints_read stored (written payments (put "team" "core" (put "tier" "1" (Quot.mk []))))
    ≡ (payments.external, payments.internal)
unfolding normalize_endpoints
endpoints_read-written_example =
    endpoints_read-written payments stored refl (refl, omega arith) (refl, omega arith)
      (put "team" "core" (put "tier" "1" (Quot.mk [])))

abbrev live : Round
live = record {
  stopped = false;
  answer = answered replicas 3;
  cancelled = false;
  woken = false;
  room = none;
}

abbrev down_round : Round
down_round = record live { answer = failed "connection refused" }

abbrev watching : Watch
watching = record new_watch { last_index = 9 }

watch_loop_rewound_example :
    (watch_loop (live ∷ down_round ∷ live ∷ []) watching).events ≡ List.map event_of replicas
watch_loop_rewound_example =
    watch_loop_rewound live live (down_round ∷ []) 1 replicas replicas 3 3 watching
      (refl, refl, refl, refl) (refl, refl, refl, refl) refl refl
      (down "connection refused" (refl, refl, refl, refl) refl over) refl (omega arith)
      (omega arith)

refresh_all-refines_example :
    service (
      refresh_all (err (sentinel no_healthy_instances) ∷ []) (seed_with (ok payments) new_resolver))
    ≡ serves (learn_all (err (sentinel no_healthy_instances) ∷ []) (seed_knowledge (ok payments)))
refresh_all-refines_example =
    (refresh_all-refines (ok payments) (err (sentinel no_healthy_instances) ∷ [])).0
