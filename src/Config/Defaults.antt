-- ===== src/Config/Defaults.antt =====
-- What `withDefaults` of config.go guarantees.
use lib_service_discovery.Common.{
  String, ◌≡◌, refl, ◌∙◌, ap, ◌⊎◌, inl, inr, true, false, ◌||◌, Option, none, some, arith, is_empty,
  is_some, if◌then◌else◌, Bool-cases, Option-cases,
}
use lib_service_discovery.Common.Int.{ℤ, is_pos, is_zero}
use lib_service_discovery.Platform.{Platform, Url, IsGo, has_host}
use lib_service_discovery.Config.{
  Config, validate, split_url, split_scheme_host, parse_advertise, parse_advertise_addrs,
  fill_defaults, with_defaults,
}

-- No setting with a default is open.
pub record IsComplete (c : Config) : Type 0 where
  pub has_addr : is_empty c.consul_addr ≡ false
  pub has_dial : is_pos c.dial_timeout ≡ true
  pub has_handshake : is_pos c.tls_handshake_timeout ≡ true
  pub has_header : is_pos c.response_header_timeout ≡ true
  pub has_seed : is_pos c.seed_timeout ≡ true
  pub has_wait : is_pos c.watch_wait_time ≡ true
  pub has_stale : is_some c.allow_stale ≡ true

default_addr : (addr : String) → is_empty (if is_empty addr then "localhost:8500" else addr) ≡ false
default_addr String.[] = refl
default_addr (String.◌∷◌ c s) = refl

split_url-plain :
    (addr : String) (o : Option Url) → has_host o ≡ false → is_empty (split_url addr o).0 ≡ true
unfolding split_url
split_url-plain addr none h = refl
split_url-plain addr (some u) h = elim (Bool-cases (is_empty u.scheme || is_empty u.host)) [
  | inl bare ↦ rw bare
  | inr full ↦ absurd (not_plain u full h)
]
  where
    not_plain :
        (u : Url) → (is_empty u.scheme || is_empty u.host) ≡ false → has_host (some u) ≡ false → ⊥
    not_plain u full h = ground arith

split_url-hostname :
    (addr : String) (u : Url)
    → (is_empty (split_url addr (some u)).0 ≡ true) ⊎ ((split_url addr (some u)).1 ≡ u.hostname)
unfolding split_url
split_url-hostname addr u = elim (Bool-cases (is_empty u.scheme || is_empty u.host)) [
  | inl bare ↦ inl (rw bare)
  | inr full ↦ inr (rw full)
]

module _ (p : Platform) where
  fill_defaults-IsComplete : (c : Config) → IsComplete (fill_defaults p c)
  unfolding fill_defaults
  fill_defaults-IsComplete c = record {
    has_addr = default_addr c.consul_addr;
    has_dial = ground arith;
    has_handshake = ground arith;
    has_header = ground arith;
    has_seed = ground arith;
    has_wait = ground arith;
    has_stale = ground arith;
  }

  -- After `withDefaults` the server's address is not empty, all five timeouts are positive and the
  -- stale mode is decided, whatever the configuration was.
  pub with_defaults-IsComplete : (c : Config) → IsComplete (with_defaults p c)
  unfolding with_defaults parse_advertise_addrs
  with_defaults-IsComplete c =
      let h = fill_defaults-IsComplete c in
      record {
        has_addr = h.has_addr;
        has_dial = h.has_dial;
        has_handshake = h.has_handshake;
        has_header = h.has_header;
        has_seed = h.has_seed;
        has_wait = h.has_wait;
        has_stale = h.has_stale;
      }

  -- A configuration that has its defaults passes the validation.
  pub validate-with_defaults : (c : Config) → validate (with_defaults p c) ≡ none
  unfolding validate
  validate-with_defaults c = ground (arith, (with_defaults-IsComplete c).has_addr)

  fill_defaults_of_IsComplete : (c : Config) → IsComplete c → fill_defaults p c ≡ c
  unfolding fill_defaults
  fill_defaults_of_IsComplete c h = ground arith

  -- The address has no scheme to be split off.
  abbrev pub IsPlain : String → Type 0
  IsPlain addr = is_empty (split_scheme_host p addr).0 ≡ true

  IsPlain-of_no_host : (addr : String) → has_host (p.parse_url addr) ≡ false → IsPlain addr
  unfolding split_scheme_host
  IsPlain-of_no_host addr h = elim (Bool-cases (is_empty addr)) [
    | inl empty ↦ rw empty
    | inr given ↦ rw given (split_url-plain addr (p.parse_url addr) h)
  ]

  -- What is split off a URL has no scheme left.
  split_scheme_host-IsPlain :
      IsGo p → (addr : String) → IsPlain addr ⊎ IsPlain (split_scheme_host p addr).1
  unfolding split_scheme_host
  split_scheme_host-IsPlain go addr = elim (Bool-cases (is_empty addr)) [
    | inl empty ↦ inl (rw empty)
    | inr given ↦ elim (Option-cases (p.parse_url addr)) [
      | inl missing ↦ inl (rw (given, missing))
      | inr (u, found) ↦ elim (split_url-hostname addr u) [
        | inl bare ↦ inl (rw (given, found) bare)
        | inr named ↦ inr (
            rw given (
              rw found (rw named (IsPlain-of_no_host u.hostname (go.hostname_plain addr u found)))))
      ]
    ]
  ]

  parse_advertise-IsPlain :
      IsGo p → (addr scheme : String) (port : ℤ) → IsPlain (parse_advertise p addr scheme port).0
  unfolding parse_advertise
  parse_advertise-IsPlain go addr scheme port =
      elim (Bool-cases (is_empty (split_scheme_host p addr).0)) [
        | inl bare ↦ rw bare bare
        | inr full ↦ elim (split_scheme_host-IsPlain go addr) [
          | inl plain ↦ cc (full, plain)
          | inr plain ↦ rw full plain
        ]
      ]

  -- Where neither address has a scheme, parsing them changes nothing.
  parse_advertise_of_IsPlain :
      (addr scheme : String) (port : ℤ)
      → IsPlain addr
      → parse_advertise p addr scheme port ≡ (addr, scheme, port)
  unfolding parse_advertise
  parse_advertise_of_IsPlain addr scheme port h = rw h

  parse_advertise_idem :
      IsGo p
      → (addr scheme : String) (port : ℤ)
      → let (a, s, n) = parse_advertise p addr scheme port in parse_advertise p a s n ≡ (a, s, n)
  parse_advertise_idem go addr scheme port =
      let (a, s, n) = parse_advertise p addr scheme port in
      parse_advertise_of_IsPlain a s n (parse_advertise-IsPlain go addr scheme port)

  parse_advertise_addrs_idem :
      IsGo p
      → (c : Config)
      → parse_advertise_addrs p (parse_advertise_addrs p c) ≡ parse_advertise_addrs p c
  unfolding parse_advertise_addrs
  parse_advertise_addrs_idem go c = rw (
    parse_advertise_idem go c.advertise_addr c.advertise_scheme c.advertise_port,
    parse_advertise_idem go c.advertise_internal_addr c.advertise_internal_scheme
        c.advertise_internal_port,
  )

  -- Applying `withDefaults` a second time changes nothing.
  pub with_defaults_idem :
      IsGo p → (c : Config) → with_defaults p (with_defaults p c) ≡ with_defaults p c
  unfolding with_defaults
  with_defaults_idem go c =
      ap (parse_advertise_addrs p)
        (fill_defaults_of_IsComplete (with_defaults p c) (with_defaults-IsComplete c))
      ∙ parse_advertise_addrs_idem go (fill_defaults p c)

  -- A scheme or a port that is configured explicitly is never replaced by the URL's.
  pub parse_advertise-explicit :
      (addr scheme : String) (port : ℤ)
      → (is_empty scheme ≡ false → (parse_advertise p addr scheme port).1 ≡ scheme)
        × (is_zero port ≡ false → (parse_advertise p addr scheme port).2 ≡ port)
  unfolding parse_advertise
  parse_advertise-explicit addr scheme port = ground arith
