-- ===== src/Consul/Registration.antt =====
-- consul.go: the registration that `consulRegistry.Register` sends to the agent.
use lib_service_discovery.Common.{String, ◌<>◌, Option, none, some, is_empty, if◌then◌else◌}
use lib_service_discovery.Common.Int.{ℤ, pos}
use lib_service_discovery.Types.{Endpoint, Service, HealthCheck, root_endpoint, normalize_endpoints}
use lib_service_discovery.Consul.Agent.{Check, ttl_check, http_check, Registration}
use lib_service_discovery.Consul.Meta.{service_meta}

unfoldable pub ttl_check_id : String → String
ttl_check_id service_id = "service:" <> service_id

-- The check of a service, by its mode.
unfoldable pub check_for : String → HealthCheck → Check
unfolding ttl_check_id
check_for id hc =
    if is_empty hc.ttl
    then http_check hc.http hc.interval hc.timeout "30s"
    else ttl_check (ttl_check_id id) hc.ttl "1m"

root_address : Option Endpoint → String
root_address none = ""
root_address (some e) = e.address

root_port : Option Endpoint → ℤ
root_port none = pos 0
root_port (some e) = e.port

unfoldable pub registration_for : Service → Registration
unfolding check_for root_address root_port
registration_for svc =
    let s = normalize_endpoints svc in
    record {
      id = s.id;
      name = s.name;
      tags = s.tags;
      meta = service_meta s;
      address = root_address (root_endpoint s);
      port = root_port (root_endpoint s);
      check = elim s.health_check [ none ↦ none | some hc ↦ some (check_for s.id hc) ];
    }

-- The TTL that the heartbeat runs on, where the check is a TTL check.
unfoldable pub ttl_of : Service → Option String
ttl_of s = elim s.health_check [
  | none ↦ none
  | some hc ↦ if is_empty hc.ttl then none else some hc.ttl
]
