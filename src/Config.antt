-- ===== src/Config.antt =====
-- config.go: the configuration, its defaults and its validation. The logger is not part of it here.
pub mod Env
pub mod Defaults
pub mod Ttl
use lib_service_discovery.Common.{
  String, ◌≡◌, refl, Bool, true, false, ◌||◌, Option, none, some, is_empty, is_some, if◌then◌else◌,
}
use lib_service_discovery.Common.Int.{ℤ, pos, is_zero, is_pos, ltb_ℤ}
use lib_service_discovery.Decimal.{atoi}
use lib_service_discovery.Errors.{
  Error, Result, ok, err, sentinel, wrap, empty_consul_addr, invalid_ttl,
}
use lib_service_discovery.Platform.{Platform, Url, trim_space}
use lib_service_discovery.Types.{EndpointView}

-- Durations are in nanoseconds.
pub record Config : Type 0 where
  pub enabled : Bool
  pub consul_addr : String
  pub advertise_addr : String
  pub advertise_scheme : String
  pub advertise_port : ℤ
  pub advertise_internal_addr : String
  pub advertise_internal_scheme : String
  pub advertise_internal_port : ℤ
  pub prefer_view : EndpointView
  pub workload : String
  pub tls : Bool
  pub tls_skip_verify : Bool
  pub token : String
  pub dial_timeout : ℤ
  pub tls_handshake_timeout : ℤ
  pub response_header_timeout : ℤ
  pub seed_timeout : ℤ
  pub watch_wait_time : ℤ
  pub allow_stale : Option Bool

abbrev pub default_dial_timeout : ℤ
default_dial_timeout = pos 5_000_000_000

abbrev pub default_tls_handshake_timeout : ℤ
default_tls_handshake_timeout = pos 5_000_000_000

abbrev pub default_response_header_timeout : ℤ
default_response_header_timeout = pos 10_000_000_000

abbrev pub ttl_floor : ℤ
ttl_floor = pos 15_000_000_000

abbrev pub default_ttl : ℤ
default_ttl = pos 30_000_000_000

abbrev pub default_seed_timeout : ℤ
default_seed_timeout = pos 3_000_000_000

abbrev pub default_watch_wait_time : ℤ
default_watch_wait_time = pos 30_000_000_000

-- `Config.Validate`; `none` is a nil error.
unfoldable pub validate : Config → Option Error
validate c =
    if c.enabled
    then (if is_empty c.consul_addr then some (sentinel empty_consul_addr) else none)
    else none

-- `if d <= 0 { d = def }`
or_default : ℤ → ℤ → ℤ
or_default def d = if is_pos d then d else def

-- `if c.AdvertisePort == 0 { if p, err := strconv.Atoi(port); err == nil { … } }`
port_of : ℤ → String → ℤ
port_of old text = if is_zero old then (elim (atoi text) [ none ↦ old | some n ↦ n ]) else old

-- The answer of `url.Parse`, and its parts: scheme, host and port.
split_url : String → Option Url → String × String × String
split_url addr none = ("", addr, "")
split_url addr (some u) =
    if is_empty u.scheme || is_empty u.host then ("", addr, "") else (u.scheme, u.hostname, u.port)

module _ (p : Platform) where
  unfoldable pub split_scheme_host : String → String × String × String
  unfolding split_url
  split_scheme_host addr =
      if is_empty addr then ("", addr, "") else split_url addr (p.parse_url addr)

  -- One of the two halves of `parseAdvertiseAddrs`: address, scheme and port.
  unfoldable pub parse_advertise : String → String → ℤ → String × String × ℤ
  unfolding port_of
  parse_advertise addr scheme port =
      let (s, host, text) = split_scheme_host addr in
      if is_empty s
      then (addr, scheme, port)
      else (host, if is_empty scheme then s else scheme, port_of port text)

  unfoldable pub parse_advertise_addrs : Config → Config
  parse_advertise_addrs c =
      let (addr, scheme, port) =
        parse_advertise c.advertise_addr c.advertise_scheme c.advertise_port in
      let (iaddr, ischeme, iport) =
        parse_advertise c.advertise_internal_addr c.advertise_internal_scheme
          c.advertise_internal_port in
      record c {
        advertise_addr = addr;
        advertise_scheme = scheme;
        advertise_port = port;
        advertise_internal_addr = iaddr;
        advertise_internal_scheme = ischeme;
        advertise_internal_port = iport;
      }

  -- The defaults, before the addresses are parsed.
  unfoldable pub fill_defaults : Config → Config
  unfolding or_default
  fill_defaults c = record c {
    consul_addr = if is_empty c.consul_addr then "localhost:8500" else c.consul_addr;
    dial_timeout = or_default default_dial_timeout c.dial_timeout;
    tls_handshake_timeout = or_default default_tls_handshake_timeout c.tls_handshake_timeout;
    response_header_timeout = or_default default_response_header_timeout c.response_header_timeout;
    seed_timeout = or_default default_seed_timeout c.seed_timeout;
    watch_wait_time = or_default default_watch_wait_time c.watch_wait_time;
    allow_stale = if is_some c.allow_stale then c.allow_stale else some true;
  }

  -- `Config.withDefaults`
  unfoldable pub with_defaults : Config → Config
  with_defaults c = parse_advertise_addrs (fill_defaults c)

  -- `ttlWithDefaults`
  unfoldable pub ttl_with_defaults : String → Result String
  ttl_with_defaults raw =
      let text = trim_space raw in
      if is_empty text then ok (p.duration_string default_ttl) else elim (p.parse_duration text) [
        | none ↦ err (wrap text (sentinel invalid_ttl))
        | some d ↦
            if ltb_ℤ d ttl_floor then ok (p.duration_string ttl_floor) else ok (p.duration_string d)
      ]
