-- ===== src/Errors.antt =====
-- types.go, lines 11 to 55: the sentinel errors, and how the program wraps and matches them.
use lib_service_discovery.Common.{String, ◌≡◌, refl, Bool, true, false}
use mathlib.Core.Logic.{ite}

pub data Sentinel : Type 0 where
  nil_manager nil_registry empty_advertise_addr no_endpoint endpoint_view_unavailable : Sentinel
  empty_consul_addr no_healthy_instances discovery_disabled_no_fallback invalid_ttl : Sentinel

unfoldable pub Sentinel-discrete : Discrete Sentinel
Sentinel-discrete = hlevel

-- `wrap text e` is `fmt.Errorf` with `%w`; `foreign` is an error of other code, with its text.
pub data Error : Type 0 where
  sentinel : Sentinel → Error
  wrap : String → Error → Error
  foreign : String → Error

-- `errors.Is`
unfoldable pub is : Error → Sentinel → Bool
unfolding Sentinel-discrete
is (sentinel s) t = ite (Sentinel-discrete s t) true false
is (wrap _ e) t = is e t
is (foreign _) t = false

-- A call that returns a value and an error, of which one is the zero value.
pub data Result {ℓ} (A : Type ℓ) : Type ℓ where
  ok : A → Result A
  err : Error → Result A

infixl 5 ◌>>=◌
abbrev pub ◌>>=◌ {ℓ κ} : {A : Type ℓ} {B : Type κ} → Result A → (A → Result B) → Result B
ok a >>= f = f a
err e >>= f = err e

is_wrapped : is (wrap "svc" (sentinel no_healthy_instances)) no_healthy_instances ≡ true
unfolding is
is_wrapped = refl
