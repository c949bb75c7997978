-- ===== src/Tests/Dynamics.antt =====
-- The theorems on resolver.go, applied.
use lib_service_discovery.Common.Int.{pos}
use lib_service_discovery.Backend.{Backend}
use lib_service_discovery.Common.{
  suc, true, inl, ◌≡◌, refl, false, Option, none, some, List, [], ◌∷◌, ◌++◌, is_empty,
}
use lib_service_discovery.Common.Dict.{lookup}
use lib_service_discovery.Context.{background, with_timeout}
use lib_service_discovery.Errors.{foreign, ok, err}
use lib_service_discovery.Types.{endpoint_for, host_port, internal_view, endpoint_addr}
use lib_service_discovery.Decimal.{itoa}
use lib_service_discovery.Manager.{Manager}
use lib_service_discovery.Manager.Resolve.{resolve_endpoint}
use lib_service_discovery.Dynamic.{
  DynamicResolver, empty_dynamic, ResolverOption, with_view, apply_resolver_options, or_preferred,
  address_of, scheme_of, store_snapshot,
}
use lib_service_discovery.Dynamic.Seed.{
  direct_view, direct_text, resolve_endpoint_direct, snapshot_of,
}
use lib_service_discovery.Dynamic.Track.{
  for_address, seed_address, start_resolver_watch, tracking, update, update_all, watch_resolve,
}
use lib_service_discovery.Dynamic.Mirror.{resolve_endpoint_direct-resolve_endpoint}
use lib_service_discovery.Dynamic.Latest.{update_all-latest, current, decides}
use lib_service_discovery.Dynamic.Served.{address_of-nonempty}
use lib_service_discovery.Dynamic.Opened.{
  watch_resolve_opens, Opens, watch_resolve_fail_open, Returns,
}
use lib_service_discovery.Dynamic.Scheme.{watch_resolve_scheme}
use lib_service_discovery.Tests.Samples.{
  payments, in_cluster, settings, counting_backend, new_manager,
}

-- The options of a consumer in the cluster.
abbrev options : List (Option ResolverOption)
options = none ∷ some (with_view internal_view) ∷ []

-- The resolver that `WatchResolve` returns.
abbrev watched : DynamicResolver
watched = record empty_dynamic {
  fallback = "pay:80";
  view = internal_view;
  snapshot = some (record { address = "pay.svc.cluster.local:8080"; scheme = "" });
  cancel = some 1;
}

watched-made :
    (watch_resolve counting_backend background "payments" "pay:80" options new_manager).0
    ≡ ok watched
unfolding watch_resolve for_address apply_resolver_options or_preferred resolve_endpoint_direct
    direct_text direct_view endpoint_for endpoint_addr host_port itoa seed_address store_snapshot
    start_resolver_watch tracking
watched-made = refl

resolve_endpoint_direct-resolve_endpoint_example :
    (resolve_endpoint_direct counting_backend
      (with_timeout new_manager.seed_timeout background)
      "payments"
      internal_view
      "pay:80"
      new_manager).0
    ≡ (resolve_endpoint counting_backend background "payments" internal_view "pay:80" false
        new_manager).0
unfolding lookup
resolve_endpoint_direct-resolve_endpoint_example =
    resolve_endpoint_direct-resolve_endpoint counting_backend background "payments" internal_view
      "pay:80" new_manager refl refl

update_all-latest_example :
    current (update_all ((err (foreign "refused") ∷ []) ++ (ok payments ∷ [])) watched)
    ≡ snapshot_of in_cluster
unfolding decides endpoint_for
update_all-latest_example =
    (update_all-latest watched (err (foreign "refused") ∷ []) [] (ok payments)
      (snapshot_of in_cluster) tt refl).0

address_of-nonempty_example :
    is_empty (address_of (update_all (err (foreign "refused") ∷ []) watched)) ≡ false
address_of-nonempty_example =
    address_of-nonempty counting_backend background "payments" "pay:80"
      (record payments { address = "pay" }) options new_manager watched
      (err (foreign "refused") ∷ []) refl refl (inl watched-made)

watch_resolve_opens_example :
    Opens counting_backend background "payments" 1 new_manager
      (watch_resolve counting_backend background "payments" "pay:80" options new_manager)
watch_resolve_opens_example =
    (watch_resolve_opens counting_backend background "payments" "pay:80" payments options
      new_manager refl).0

watch_resolve_scheme_example :
    (scheme_of watched ≡ "") × (scheme_of (update (ok payments) watched) ≡ "http")
unfolding endpoint_for
watch_resolve_scheme_example =
    watch_resolve_scheme counting_backend background "payments" "pay:80" options new_manager watched
      payments in_cluster watched-made refl

-- No fallback, and a registry that resolves nothing.
abbrev failing_backend : Backend
failing_backend = record counting_backend {
  resolve = λ ctx name tag n. (err (foreign "connection refused"), suc n);
}

abbrev failing_manager : Manager failing_backend
failing_manager = record {
  config = settings;
  has_registry = true;
  backend = 0;
  workload = "blue";
  seed_timeout = pos 1;
  prefer_view = "";
  resolvers = [];
  closed = false;
  fresh = 1;
  cancelled = [];
  watches = [];
  dynamic_watches = [];
  close_done = false;
  close_err = none;
}

watch_resolve_fail_open_example :
    Returns failing_backend
      (watch_resolve failing_backend background "payments" "" options failing_manager)
watch_resolve_fail_open_example =
    (watch_resolve_fail_open failing_backend background "payments" "" payments options
      failing_manager refl (λ ctx s. refl)).0
