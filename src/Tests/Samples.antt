-- ===== src/Tests/Samples.antt =====
-- A platform, a Consul API, a registry backend and the data of the tests.
use lib_service_discovery.Common.{refl, ℕ, suc, true, false, none, some, List, [], ◌∷◌}
use lib_service_discovery.Common.Int.{pos}
use lib_service_discovery.Decimal.{itoa, atoi}
use lib_service_discovery.Errors.{ok}
use lib_service_discovery.Types.{Endpoint, HealthCheck, Service}
use lib_service_discovery.Platform.{Platform, IsGo, trim_space-IsNumeral}
use lib_service_discovery.Decimal.RoundTrip.{atoi-itoa, atoi-IsInt, itoa-IsNumeral}
use lib_service_discovery.Config.{Config}
use lib_service_discovery.Backend.{Backend}
use lib_service_discovery.Consul.Agent.{Registration, Entry, CheckStatus}
use lib_service_discovery.Consul.Api.{Api, answered}
use lib_service_discovery.Consul.Heartbeat.{no_beats}
use lib_service_discovery.Consul.Registration.{registration_for}
use lib_service_discovery.Consul.Registry.{Registry}
use lib_service_discovery.Manager.{Manager}

-- Durations are written as bare nanoseconds, and no text is a URL.
abbrev pub plain_platform : Platform
plain_platform = record {
  parse_duration = atoi;
  duration_string = itoa;
  parse_url = λ s. none;
  to_lower = λ s. s;
}

abbrev pub ingress : Endpoint
ingress = record { address = "pay.example.com"; port = pos 443; scheme = "https" }

abbrev pub in_cluster : Endpoint
in_cluster = record { address = "pay.svc.cluster.local"; port = pos 8080; scheme = "http" }

abbrev pub ttl_health : HealthCheck
ttl_health = record { http = ""; interval = ""; timeout = ""; path = ""; ttl = "30000000000" }

abbrev pub payments : Service
payments = record {
  id = "pay-1";
  name = "payments";
  address = "";
  port = pos 0;
  scheme = "";
  external = some ingress;
  internal = some in_cluster;
  tags = "workload=blue" ∷ [];
  meta = ("team", "core") ∷ ("internal_port", "1") ∷ [];
  health_check = some ttl_health;
}

abbrev pub entry_of : Registration → Entry
entry_of r = record {
  id = r.id;
  service = r.name;
  address = r.address;
  port = r.port;
  tags = r.tags;
  meta = r.meta;
  checks = CheckStatus.passing ∷ [];
}

abbrev pub stored : Entry
stored = entry_of (registration_for payments)

abbrev pub replicas : List Entry
replicas = stored ∷ stored ∷ stored ∷ []

-- An agent that accepts everything and counts the calls.
abbrev pub counting_api : Api
counting_api = record {
  State = ℕ;
  register = λ ctx r n. (none, suc n);
  update_ttl = λ ctx id n. (none, suc n);
  deregister = λ ctx id n. (none, suc n);
  health = λ ctx name tag passing_only stale n. (answered replicas 7, suc n);
}

abbrev pub new_registry : Registry counting_api
new_registry = record { agent = 0; beats = no_beats; rr = 4; allow_stale = true }

-- A backend that answers every resolve and counts the calls.
abbrev pub counting_backend : Backend
counting_backend = record {
  State = ℕ;
  Stream = Unit;
  register = λ ctx svc n. (none, suc n);
  deregister = λ ctx id n. (none, suc n);
  resolve = λ ctx name tag n. (ok payments, suc n);
  watch = λ ctx name n. (tt, none, suc n);
  close = some (λ n. (none, suc n));
}

abbrev pub settings : Config
settings = record {
  enabled = true;
  consul_addr = "consul:8500";
  advertise_addr = "pay.example.com";
  advertise_scheme = "https";
  advertise_port = pos 443;
  advertise_internal_addr = "";
  advertise_internal_scheme = "";
  advertise_internal_port = pos 0;
  prefer_view = "";
  workload = "blue";
  tls = false;
  tls_skip_verify = false;
  token = "";
  dial_timeout = pos 1;
  tls_handshake_timeout = pos 1;
  response_header_timeout = pos 1;
  seed_timeout = pos 1;
  watch_wait_time = pos 1;
  allow_stale = some true;
}

abbrev pub new_manager : Manager counting_backend
new_manager = record {
  config = settings;
  has_registry = true;
  backend = 0;
  workload = "blue";
  seed_timeout = pos 1;
  prefer_view = "";
  resolvers = [];
  closed = false;
  fresh = 1;
  cancelled = [];
  watches = [];
  dynamic_watches = [];
  close_done = false;
  close_err = none;
}

pub plain_platform-IsGo : IsGo plain_platform
unfolding atoi
plain_platform-IsGo = record {
  parse-IsInt = atoi-IsInt;
  parse-string = atoi-itoa;
  trim-string = λ d fits. trim_space-IsNumeral (itoa d) (itoa-IsNumeral d);
  parse_empty = refl;
  hostname_plain = λ s u h. refl;
}
