-- ===== src/Config/Env.antt =====
-- config.go: the configuration from the environment. A variable that is not set reads as the empty
-- text, as `os.Getenv` has it.
pub mod Precedence
use lib_service_discovery.Common.{
  String, Bool, true, false, ◌||◌, Option, none, some, List, [], ◌∷◌, ◌==◌, is_empty, if◌then◌else◌,
}
use lib_service_discovery.Common.Int.{ℤ, pos}
use lib_service_discovery.Decimal.{atoi}
use lib_service_discovery.Platform.{Platform, trim_space, parse_bool}
use lib_service_discovery.Types.{EndpointView, external_view, internal_view}
use lib_service_discovery.Config.{Config, parse_advertise_addrs}

-- `os.Getenv`
abbrev pub Env : Type 0
Env = String → String

module _ (env : Env) where
  unfoldable pub first_env : String → List String → String
  first_env fallback [] = fallback
  first_env fallback (k ∷ ks) = if is_empty (env k) then first_env fallback ks else env k

  -- The value, where the text is not empty and the parser takes it.
  unfoldable pub parsed_env {ℓ} : {A : Type ℓ} → (String → Option A) → String → Option A
  parsed_env parse k = if is_empty (env k) then none else parse (env k)

  unfoldable pub first_env_int : ℤ → List String → ℤ
  first_env_int fallback [] = fallback
  first_env_int fallback (k ∷ ks) = elim (parsed_env atoi k) [
    | none ↦ first_env_int fallback ks
    | some n ↦ n
  ]

  unfoldable pub any_env_true : List String → Bool
  any_env_true [] = false
  any_env_true (k ∷ ks) = if env k == "true" then true else any_env_true ks

  unfoldable pub env_bool_ptr : String → Option Bool
  env_bool_ptr key = let v = trim_space (env key) in if is_empty v then none else parse_bool v

module _ (p : Platform) where
  unfoldable pub parse_prefer_view : String → EndpointView
  parse_prefer_view raw =
      if p.to_lower (trim_space raw) == internal_view then internal_view else external_view

  module _ (env : Env) where
    unfoldable pub first_env_duration : List String → ℤ
    first_env_duration [] = pos 0
    first_env_duration (k ∷ ks) = elim (parsed_env env p.parse_duration k) [
      | none ↦ first_env_duration ks
      | some d ↦ d
    ]

    unfoldable pub config_from_env : Config
    unfolding first_env first_env_int first_env_duration parsed_env any_env_true env_bool_ptr
        parse_prefer_view
    config_from_env = parse_advertise_addrs p (record {
      enabled = any_env_true env ("SD_ENABLED" ∷ "SERVICE_DISCOVERY_ENABLED" ∷ []);
      consul_addr = first_env env "localhost:8500" ("SD_ADDRESS" ∷ "CONSUL_ADDR" ∷ []);
      advertise_addr =
          first_env env ""
            ("SD_EXTERNAL_ADDRESS" ∷ "SD_ADVERTISE_ADDRESS" ∷ "SERVICE_ADVERTISE_ADDR" ∷ []);
      advertise_scheme = "";
      advertise_port =
          first_env_int env (pos 0)
            ("SD_EXTERNAL_PORT" ∷ "SD_ADVERTISE_PORT" ∷ "SERVICE_ADVERTISE_PORT" ∷ []);
      advertise_internal_addr = first_env env "" ("SD_INTERNAL_ADDRESS" ∷ []);
      advertise_internal_scheme = env "SD_INTERNAL_SCHEME";
      advertise_internal_port = first_env_int env (pos 0) ("SD_INTERNAL_PORT" ∷ []);
      prefer_view = parse_prefer_view (env "SD_PREFER_VIEW");
      workload = first_env env "" ("SD_WORKLOAD" ∷ "WORKLOAD_ID" ∷ []);
      tls = env "SD_TLS" == "true";
      tls_skip_verify = env "SD_TLS_SKIP_VERIFY" == "true";
      token = env "SD_TOKEN";
      dial_timeout = first_env_duration ("SD_DIAL_TIMEOUT" ∷ []);
      tls_handshake_timeout = first_env_duration ("SD_TLS_HANDSHAKE_TIMEOUT" ∷ []);
      response_header_timeout = first_env_duration ("SD_RESPONSE_HEADER_TIMEOUT" ∷ []);
      seed_timeout = first_env_duration ("SD_SEED_TIMEOUT" ∷ []);
      watch_wait_time = first_env_duration ("SD_WATCH_WAIT_TIME" ∷ []);
      allow_stale = env_bool_ptr env "SD_ALLOW_STALE";
    })
