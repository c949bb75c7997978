-- ===== src/Consul/Heartbeat/Interval.antt =====
-- The interval of consul.go's heartbeats against the TTL that config.go lets through.
use lib_service_discovery.Common.{
  ℕ, suc, ◌*◌, ◌/◌, ◌≤◌, ◌<◌, String, ◌≡◌, ap, subst, ◌∙◌, arith, inl, inr, some,
}
use lib_service_discovery.Common.Int.{pos, negsuc}
use lib_service_discovery.Errors.{ok}
use lib_service_discovery.Platform.{Platform, IsGo}
use lib_service_discovery.Config.{ttl_with_defaults}
use lib_service_discovery.Config.Ttl.{IsSafeTtl, safe, ttl_with_defaults_cases}
use lib_service_discovery.Consul.Heartbeat.{heartbeat_interval}

-- A TTL of `n` nanoseconds whose heartbeats come twice in it.
pub record Beaten (p : Platform) (ttl : String) : Type 0 where
  pub duration : ℕ
  pub parsed : p.parse_duration ttl ≡ some (pos duration)
  pub twice : (2 * heartbeat_interval p ttl) ≤ duration
  pub half : duration < 2 * suc (heartbeat_interval p ttl)
  pub slow : 7_500_000_000 ≤ heartbeat_interval p ttl

interval_of_parsed :
    (p : Platform) (ttl : String) (n : ℕ)
    → p.parse_duration ttl ≡ some (pos n)
    → 15_000_000_000 ≤ n
    → heartbeat_interval p ttl ≡ n / 2
unfolding heartbeat_interval
interval_of_parsed p ttl n h k = ground arith

module _ (p : Platform) (go : IsGo p) where
  safe-Beaten : (t : String) → IsSafeTtl p go t → Beaten p t
  safe-Beaten t (safe (negsuc n) fits high e) = absurd (ground arith)
  safe-Beaten t (safe (pos n) fits high e) =
      let k : (15_000_000_000 ≤ n) = ground arith in
      let h : (p.parse_duration t ≡ some (pos n)) =
        ap p.parse_duration e ∙ go.parse-string (pos n) fits in
      let i = interval_of_parsed p t n h k in
      record {
        duration = n;
        parsed = h;
        twice = omega arith;
        half = omega arith;
        slow = omega arith;
      }

  -- A TTL that was accepted is a duration whose half, rounded down, is the interval of the
  -- heartbeats, so that two intervals fit in the TTL; and the interval is at least 7.5 seconds.
  pub heartbeat_interval_bounds :
      (raw ttl : String) → ttl_with_defaults p raw ≡ ok ttl → Beaten p ttl
  heartbeat_interval_bounds raw ttl accepted = elim (ttl_with_defaults_cases p go raw) [
    | inl (t, same, s, _) ↦ subst (Beaten p) (cc) (safe-Beaten t s)
    | inr (bad, _, _) ↦ absurd (cc)
  ]
