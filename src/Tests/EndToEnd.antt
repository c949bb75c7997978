-- ===== src/Tests/EndToEnd.antt =====
-- The theorem on a provider and a consumer that meet in Consul, applied.
use lib_service_discovery.Common.{ℕ, suc, ◌≡◌, refl, true, false, none, some, [], ◌∷◌, arith}
use lib_service_discovery.Common.Int.{pos}
use lib_service_discovery.Common.Dict.{lookup}
use lib_service_discovery.Context.{background}
use lib_service_discovery.Errors.{Result, ok, err, foreign}
use lib_service_discovery.Types.{Service, internal_view, endpoint_for, endpoint_addr}
use lib_service_discovery.Config.{Config}
use lib_service_discovery.Consul.Agent.{Entry, IsStored}
use lib_service_discovery.Consul.Api.{Api, answered}
use lib_service_discovery.Consul.Heartbeat.{no_beats}
use lib_service_discovery.Consul.Registration.{registration_for}
use lib_service_discovery.Consul.Registry.{resolve, count}
use lib_service_discovery.Consul.RoundRobin.{next_index}
use lib_service_discovery.Dynamic.{DynamicResolver, empty_dynamic}
use lib_service_discovery.Dynamic.Seed.{snapshot_of}
use lib_service_discovery.Dynamic.Track.{run_resolver_updates}
use lib_service_discovery.Dynamic.Latest.{current}
use lib_service_discovery.Dynamic.Follow.{events, run_resolver_updates-published}
use lib_service_discovery.Consul.AsBackend.{Guarded, answer_of, consul_backend}
use lib_service_discovery.Manager.{Manager}
use lib_service_discovery.Manager.Registration.{advertised_external, advertised_internal}
use lib_service_discovery.Manager.Resolve.{resolve_endpoint}
use lib_service_discovery.Manager.Lifecycle.{close}
use lib_service_discovery.Manager.AfterClose.{register_each, register_each-closed}
use lib_service_discovery.Manager.Publish.{IsPublished, unchecked}
use lib_service_discovery.Manager.EndToEnd.{resolve_endpoint-published, IsReadable}
use lib_service_discovery.Tests.Samples.{
  plain_platform, plain_platform-IsGo, payments, ingress, in_cluster, settings, entry_of,
}

-- What the caller registers, and what the manager makes of it.
abbrev asked : Service
asked = record payments { tags = []; external = none; internal = none; health_check = none }

abbrev made : Service
made = record payments {
  external = some ingress;
  internal = some in_cluster;
  tags = "workload=blue" ∷ [];
  health_check = none;
}

abbrev replica : Entry
replica = entry_of (registration_for made)

-- A Consul that shows two replicas.
abbrev showing_api : Api
showing_api = record {
  State = ℕ;
  register = λ ctx r n. (none, suc n);
  update_ttl = λ ctx id n. (none, suc n);
  deregister = λ ctx id n. (none, suc n);
  health = λ ctx name tag passing_only stale n. (answered (replica ∷ replica ∷ []) 7, suc n);
}

abbrev panic : Result Service
panic = err (foreign "recovered")

abbrev both_views : Config
both_views = record settings {
  advertise_internal_addr = "pay.svc.cluster.local";
  advertise_internal_port = pos 8080;
}

abbrev managed : Manager (consul_backend showing_api panic)
managed = record {
  config = both_views;
  has_registry = true;
  backend = record {
    registry = record { agent = 0; beats = no_beats; rr = 4; allow_stale = true };
    unwound = false;
  };
  workload = "blue";
  seed_timeout = pos 1;
  prefer_view = "";
  resolvers = [];
  closed = false;
  fresh = 1;
  cancelled = [];
  watches = [];
  dynamic_watches = [];
  close_done = false;
  close_err = none;
}

made-IsPublished :
    IsPublished plain_platform plain_platform-IsGo
      (consul_backend showing_api panic)
      managed
      asked
      made
unfolding advertised_external advertised_internal
made-IsPublished = record { external = refl; internal = refl; tags = refl; check = unchecked }

made-IsReadable : IsReadable made
made-IsReadable = record {
  has_endpoint = refl;
  external = (refl, omega arith);
  internal = (refl, omega arith);
}

replica-IsStored : IsStored (registration_for made) replica
replica-IsStored = record {
  same_id = refl;
  same_name = refl;
  same_address = refl;
  same_port = refl;
  same_tags = refl;
  same_meta = refl;
}

resolve_endpoint-published_example :
    (resolve_endpoint
      (consul_backend showing_api panic)
      background
      "payments"
      internal_view
      ""
      false
      managed).0
    ≡ ok (endpoint_addr in_cluster)
unfolding lookup endpoint_for advertised_external advertised_internal
resolve_endpoint-published_example =
    resolve_endpoint-published showing_api panic plain_platform plain_platform-IsGo managed asked
      made made-IsPublished made-IsReadable background "payments" internal_view "" managed replica
      (replica ∷ []) 7 in_cluster refl refl refl (omega arith) refl
      (replica-IsStored, (replica-IsStored, tt)) refl

-- A resolver of the internal view, whose loop has heard one event before.
abbrev following : DynamicResolver
following = record empty_dynamic { view = internal_view }

abbrev asked_once : Guarded showing_api
asked_once = record {
  registry = record { agent = 1; beats = no_beats; rr = 5; allow_stale = true };
  unwound = false;
}

run_resolver_updates-published_example :
    current
      (run_resolver_updates
        (consul_backend showing_api panic)
        background
        "payments"
        "blue"
        (events 2)
        following
        managed).0
    ≡ snapshot_of in_cluster
unfolding run_resolver_updates answer_of resolve next_index count endpoint_for advertised_external
    advertised_internal
run_resolver_updates-published_example =
    run_resolver_updates-published showing_api panic plain_platform plain_platform-IsGo managed
      asked made made-IsPublished made-IsReadable background "payments" "blue" 1 following managed
      asked_once replica (replica ∷ []) 7 in_cluster refl (omega arith) refl
      (replica-IsStored, (replica-IsStored, tt)) refl

-- A late retry, which carries a TTL check.
register_each-closed_example :
    (register_each showing_api panic plain_platform
      ((background, payments) ∷ [])
      (close (consul_backend showing_api panic) managed).1).backend.registry.beats.heartbeats
    ≡ []
register_each-closed_example =
    (register_each-closed showing_api panic plain_platform managed ((background, payments) ∷ [])
      refl refl).1
