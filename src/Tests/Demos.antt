-- ===== src/Tests/Demos.antt =====
-- The theorems on services/main.go, applied.
use lib_service_discovery.Common.{◌≡◌, refl, some, if◌then◌else◌}
use text.Mathlib.Text.{◌==◌}
use lib_service_discovery.Errors.{ok}
use lib_service_discovery.Common.Int.{pos}
use lib_service_discovery.Config.Env.{Env, config_from_env, any_env_true}
use lib_service_discovery.Demo.Listen.{listen_addr-ignores_external}
use lib_service_discovery.Config.{parse_advertise_addrs}
use lib_service_discovery.Demo.{Program, start_demo, listen_addr}
use lib_service_discovery.Demo.Life.{IsUp, demo_life}
use lib_service_discovery.Decimal.{atoi}
use lib_service_discovery.Tests.Samples.{plain_platform, counting_backend}

-- Only the preferred name of the external port is set.
abbrev external_only : Env
external_only key = if key == "SD_EXTERNAL_PORT" then "9000" else ""

listen_addr-ignores_external_example :
    (listen_addr external_only ≡ ":8080")
    × ((config_from_env plain_platform external_only).advertise_port ≡ pos 9000)
unfolding atoi
listen_addr-ignores_external_example =
    listen_addr-ignores_external plain_platform external_only (pos 9000) refl refl refl refl refl

-- A service with a downstream.
abbrev chained : Env
chained key = if key == "NEXT" then "payments" else if key == "SD_ENABLED" then "true" else ""

demo_life_example :
    (d : Program counting_backend) × (start_demo counting_backend plain_platform
        (λ c. ok 0)
        0
        chained
      ≡ some d)
    × IsUp counting_backend "payments" d
unfolding config_from_env any_env_true parse_advertise_addrs
demo_life_example =
    demo_life plain_platform counting_backend (λ c. ok 0) 0 chained 0 refl refl refl (λ ctx s. refl)
