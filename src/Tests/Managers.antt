-- ===== src/Tests/Managers.antt =====
-- The theorems on manager.go and managed_resolver.go, applied.
use lib_service_discovery.Common.{◌≡◌, refl, true, false, none, [], ◌∷◌, All}
use lib_service_discovery.Context.{background, is_done, request}
use lib_service_discovery.Errors.{ok, err, foreign, wrap}
use lib_service_discovery.Types.{normalize_endpoints, external_view}
use lib_service_discovery.Platform.{trim_space}
use lib_service_discovery.Decimal.{atoi}
use lib_service_discovery.Config.{
  Config, parse_advertise_addrs, fill_defaults, parse_advertise, split_scheme_host, validate,
  with_defaults, ttl_with_defaults,
}
use lib_service_discovery.Manager.Made.{IsClientError, new-error}
use lib_service_discovery.Manager.{with_default_registry, apply_options, Manager, initial, new}
use lib_service_discovery.Manager.Advertise.{advertised_config_only}
use lib_service_discovery.Manager.Registration.{
  register_checked, advertised_external, advertised_internal, apply_health_check, check_mode,
  tagged, floored, advertised, register_async, Attempt, registered, register,
}
use lib_service_discovery.Manager.Retry.{register_async_recovers, delays}
use lib_service_discovery.Manager.Managed.{managed_resolver_for}
use lib_service_discovery.Manager.Resolve.{
  resolve_service, resolve_url, resolve_preferred_endpoint, resolve_preferred_url, resolve,
  resolve_endpoint,
}
use lib_service_discovery.Manager.Resolve.Answers.{Succeeds}
use lib_service_discovery.Manager.FailOpen.{resolve_idem, resolve_fail_open}
use lib_service_discovery.Manager.Lifecycle.{close}
use lib_service_discovery.Manager.Lifecycle.Soundness.{none_left, one_more, resolves}
use lib_service_discovery.Manager.Lifecycle.Shutdown.{close-inert}
use lib_service_discovery.Tests.Samples.{
  plain_platform, payments, settings, counting_backend, new_manager,
}

resolve_idem_example :
    resolve counting_backend background "payments" ""
      (resolve counting_backend (request 1) "payments" "" new_manager).1
    ≡ resolve counting_backend (request 1) "payments" "" new_manager
resolve_idem_example =
    (resolve_idem counting_backend (request 1) background "payments" "" new_manager).0

resolve_fail_open_example :
    Succeeds (resolve counting_backend background "payments" "pay:80" new_manager).0
    × Succeeds
        (resolve_service counting_backend background "payments"
          (record payments { address = "pay" })
          new_manager).0
    × Succeeds
        (resolve_endpoint counting_backend background "payments" external_view "pay:80" false
          new_manager).0
    × Succeeds
        (resolve_url counting_backend background "payments" external_view "pay:80" new_manager).0
    × Succeeds
        (resolve_preferred_endpoint counting_backend background "payments" "pay:80" new_manager).0
    × Succeeds (resolve_preferred_url counting_backend background "payments" "pay:80" new_manager).0
resolve_fail_open_example =
    resolve_fail_open counting_backend background "payments" "pay:80"
      (record payments { address = "pay" }) external_view new_manager refl refl

-- The manager after a first resolve.
abbrev seeded : Manager counting_backend
seeded = (managed_resolver_for counting_backend background "payments" new_manager).1

close-inert_example :
    All
      (λ w. is_done (close counting_backend seeded).1.cancelled w.ctx ≡ true)
      (close counting_backend seeded).1.watches
unfolding new with_default_registry apply_options initial validate with_defaults
    parse_advertise_addrs fill_defaults parse_advertise split_scheme_host
close-inert_example =
    (close-inert plain_platform counting_backend (λ c. ok 0) 0 settings [] new_manager seeded
      (close counting_backend seeded).1 refl (one_more none_left (resolves background "payments"))
      none_left).0

advertised_config_only_example :
    advertised settings (record payments { address = "10.0.0.7"; external = none; internal = none })
    ≡ advertised settings payments
advertised_config_only_example = (advertised_config_only settings payments "10.0.0.7" none none).0

abbrev no_address : Manager counting_backend
no_address = record new_manager { config = record settings { advertise_addr = "" } }

-- A first attempt of a manager without an address, which is refused.
abbrev refused : Attempt plain_platform counting_backend
refused = record { base_ended = false; manager = no_address; slept = true }

abbrev accepted : Attempt plain_platform counting_backend
accepted = record { base_ended = false; manager = new_manager; slept = true }

abbrev closed : Attempt plain_platform counting_backend
closed = record { base_ended = true; manager = new_manager; slept = true }

register_async_recovers_example :
    register_async plain_platform counting_backend background payments 0 (refused ∷ accepted ∷ [])
    ≡ (registered, delays plain_platform counting_backend background payments 0 (refused ∷ []))
unfolding register register_checked advertised advertised_external advertised_internal
    normalize_endpoints apply_health_check check_mode tagged ttl_with_defaults floored trim_space
    atoi
register_async_recovers_example =
    register_async_recovers plain_platform counting_backend background payments 0 (refused ∷ [])
      accepted [] ((refl, refl, refl), tt) refl refl

-- No server address, and a client that cannot be made.
abbrev unaddressed : Config
unaddressed = record settings { consul_addr = "" }

new-error_example :
    IsClientError counting_backend
      (λ c. err (foreign "bad address"))
      (with_defaults plain_platform unaddressed)
      (wrap "lib-service-discovery" (foreign "bad address"))
unfolding new with_default_registry apply_options initial validate with_defaults fill_defaults
    parse_advertise_addrs
new-error_example =
    new-error counting_backend plain_platform (λ c. err (foreign "bad address")) 0 unaddressed [] _
      refl
