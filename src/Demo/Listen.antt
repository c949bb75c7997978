-- ===== src/Demo/Listen.antt =====
-- The port that the demo of services/main.go listens on, against the advertised port of its configuration.
use lib_service_discovery.Common.{
  String, ◌≡◌, refl, ap, ◌∙◌, some, true, false, is_empty, arith, List, [], ◌∷◌,
}
use lib_service_discovery.Common.Int.{ℤ, is_zero, pos}
use lib_service_discovery.Decimal.{atoi}
use lib_service_discovery.Platform.{Platform}
use lib_service_discovery.Config.{parse_advertise_addrs}
use lib_service_discovery.Config.Env.{Env, config_from_env, first_env_int, parsed_env}
use lib_service_discovery.Config.Defaults.{parse_advertise-explicit}
use lib_service_discovery.Demo.{getenv, listen_addr}

first_external :
    (env : Env) (port : ℤ) (keys : List String)
    → is_empty (env "SD_EXTERNAL_PORT") ≡ false
    → atoi (env "SD_EXTERNAL_PORT") ≡ some port
    → first_env_int env (pos 0) ("SD_EXTERNAL_PORT" ∷ keys) ≡ port
unfolding first_env_int parsed_env
first_external env port keys set parsed = ground arith

-- Where `SD_EXTERNAL_PORT` is an integer other than zero, and neither `SD_ADVERTISE_PORT` nor
-- `SD_INTERNAL_PORT` is set, the advertised port of the configuration is that integer, and the demo
-- listens on 8080.
pub listen_addr-ignores_external :
    (p : Platform) (env : Env) (port : ℤ)
    → is_empty (env "SD_EXTERNAL_PORT") ≡ false
    → atoi (env "SD_EXTERNAL_PORT") ≡ some port
    → is_zero port ≡ false
    → is_empty (env "SD_ADVERTISE_PORT") ≡ true
    → is_empty (env "SD_INTERNAL_PORT") ≡ true
    → (listen_addr env ≡ ":8080") × ((config_from_env p env).advertise_port ≡ port)
unfolding listen_addr getenv config_from_env parse_advertise_addrs
listen_addr-ignores_external p env port set parsed nonzero unset internal =
    let read =
      first_external env port ("SD_ADVERTISE_PORT" ∷ "SERVICE_ADVERTISE_PORT" ∷ []) set parsed in
    (
      rw (unset, internal) refl,
      (parse_advertise-explicit p _ _ _).1 (ap is_zero read ∙ nonzero) ∙ read,
    )
