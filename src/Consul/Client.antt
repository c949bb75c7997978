-- ===== src/Consul/Client.antt =====
-- consul.go: the two clients of the backend, `newTunedConfig` and `newConsulRegistry`.
use lib_service_discovery.Common.{
  String, ◌≡◌, refl, Bool, true, false, none, some, is_empty, if◌then◌else◌,
}
use lib_service_discovery.Common.Int.{ℤ, pos, is_pos}
use lib_service_discovery.Errors.{Result, ok, err, wrap}
use lib_service_discovery.Platform.{Platform}
use lib_service_discovery.Config.{Config, with_defaults}
use lib_service_discovery.Config.Defaults.{with_defaults-IsComplete}

-- `api.Config` and its `http.Transport`, as far as they depend on the configuration. A timeout of
-- zero is none.
pub record ClientConfig : Type 0 where
  pub address : String
  pub scheme : String
  pub insecure_skip_verify : Bool
  pub token : String
  pub dial_timeout : ℤ
  pub tls_handshake_timeout : ℤ
  pub response_header_timeout : ℤ

-- `newTunedConfig`, from the SDK's own `api.DefaultConfig`.
unfoldable pub new_tuned_config : ClientConfig → Config → Bool → ClientConfig
new_tuned_config base c fast = record {
  address = c.consul_addr;
  scheme = if c.tls then "https" else base.scheme;
  insecure_skip_verify = if c.tls_skip_verify then true else base.insecure_skip_verify;
  token = if is_empty c.token then base.token else c.token;
  dial_timeout = c.dial_timeout;
  tls_handshake_timeout = c.tls_handshake_timeout;
  response_header_timeout = if fast then c.response_header_timeout else pos 0;
}

-- The settings of a registry: its two clients and the reads' options.
pub record Settings (Client : Type 0) : Type 0 where
  pub client : Client
  pub watch_client : Client
  pub allow_stale : Bool
  pub watch_wait_time : ℤ

-- `newConsulRegistry`; `new_client` is the SDK's `api.NewClient`.
unfoldable pub new_settings :
    {Client : Type 0}
    → (ClientConfig → Result Client)
    → ClientConfig
    → Config
    → Result (Settings Client)
new_settings new_client base c = elim (new_client (new_tuned_config base c true)) [
  | err e ↦ err (wrap "consul: create client" e)
  | ok client ↦ elim (new_client (new_tuned_config base c false)) [
    | err e ↦ err (wrap "consul: create watch client" e)
    | ok watch_client ↦ ok (record {
      client = client;
      watch_client = watch_client;
      allow_stale = elim c.allow_stale [ none ↦ true | some stale ↦ stale ];
      watch_wait_time = c.watch_wait_time;
    })
  ]
]

-- The two clients of a configuration with its defaults differ in the response-header timeout alone:
-- the fast one has a positive one and the watch client none, and both bound the connection.
pub new_tuned_config_timeouts :
    (p : Platform) (base : ClientConfig) (c : Config)
    → let d = with_defaults p c in
      let fast = new_tuned_config base d true in
      let watch = new_tuned_config base d false in
      (watch ≡ record fast { response_header_timeout = pos 0 })
      × (is_pos fast.response_header_timeout ≡ true)
      × (is_pos watch.dial_timeout ≡ true)
      × (is_pos watch.tls_handshake_timeout ≡ true)
unfolding new_tuned_config
new_tuned_config_timeouts p base c =
    let h = with_defaults-IsComplete p c in (refl, h.has_header, h.has_dial, h.has_handshake)
