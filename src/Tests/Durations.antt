-- ===== src/Tests/Durations.antt =====
-- The theorems that read durations and URLs, applied.
use lib_service_discovery.Common.{
  String, ◌≡◌, refl, ◌⊎◌, false, true, none, some, is_empty, is_some,
}
use lib_service_discovery.Context.{background}
use lib_service_discovery.Errors.{ok, err, sentinel, wrap, invalid_ttl, no_endpoint}
use lib_service_discovery.Types.{HealthCheck, Service}
use lib_service_discovery.Platform.{trim_space}
use lib_service_discovery.Decimal.{atoi, itoa}
use lib_service_discovery.Config.{ttl_with_defaults}
use lib_service_discovery.Consul.Heartbeat.Interval.{Beaten, heartbeat_interval_bounds}
use lib_service_discovery.Config.Ttl.{IsSafeTtl, ttl_with_defaults_cases}
use lib_service_discovery.Manager.Registration.{register}
use lib_service_discovery.Manager.Publish.{IsBadTtl, HasAddress, IsPublished, register_cases}
use lib_service_discovery.Tests.Samples.{
  plain_platform, plain_platform-IsGo, payments, settings, counting_backend, new_manager,
}

ttl_with_defaults_cases_example :
    ((t : String) × (ttl_with_defaults plain_platform " 5000 " ≡ ok t)
      × IsSafeTtl plain_platform plain_platform-IsGo t
      × ((trim_space " 5000 " ≡ "") ⊎ (is_some (atoi (trim_space " 5000 ")) ≡ true)))
    ⊎ ((ttl_with_defaults plain_platform " 5000 "
          ≡ err (wrap (trim_space " 5000 ") (sentinel invalid_ttl)))
        × (is_empty (trim_space " 5000 ") ≡ false)
        × (atoi (trim_space " 5000 ") ≡ none))
ttl_with_defaults_cases_example =
    ttl_with_defaults_cases plain_platform plain_platform-IsGo " 5000 "

register_cases_example :
    ((is_empty settings.advertise_addr ≡ true)
      × (is_empty settings.advertise_internal_addr ≡ true)
      × (register plain_platform counting_backend background payments new_manager
          ≡ (some (sentinel no_endpoint), new_manager)))
    ⊎ ((hc : HealthCheck) × (payments.health_check ≡ some hc)
        × HasAddress plain_platform plain_platform-IsGo counting_backend new_manager
        × IsBadTtl plain_platform plain_platform-IsGo hc.ttl
        × (register plain_platform counting_backend background payments new_manager
            ≡ (some (wrap (trim_space hc.ttl) (sentinel invalid_ttl)), new_manager)))
    ⊎ ((s : Service) × HasAddress plain_platform plain_platform-IsGo counting_backend new_manager
        × IsPublished plain_platform plain_platform-IsGo counting_backend new_manager payments s
        × (register plain_platform counting_backend background payments new_manager
            ≡ (none, record new_manager { backend = 1 })))
register_cases_example =
    register_cases plain_platform plain_platform-IsGo counting_backend background payments
      new_manager refl

heartbeat_interval_bounds_example : Beaten plain_platform "30000000000"
unfolding atoi itoa trim_space ttl_with_defaults
heartbeat_interval_bounds_example =
    heartbeat_interval_bounds plain_platform plain_platform-IsGo " 30000000000" "30000000000" refl
