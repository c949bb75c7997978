-- ===== src/Resolver.antt =====
-- managed_resolver.go: the cache of one service name.
pub mod Cache
use lib_service_discovery.Common.{
  ℕ, Bool, true, false, Option, none, some, List, [], ◌∷◌, if◌then◌else◌,
}
use mathlib.Core.Option
use lib_service_discovery.Errors.{Error, Result, ok, err, sentinel, is, no_healthy_instances}
use lib_service_discovery.Types.{Service, zero_service}

pub record Resolver : Type 0 where
  pub current : Option Service
  -- the seed has run
  pub once : Bool
  pub seeded : Bool
  pub seed_err : Option Error
  pub auth_empty : Bool
  -- the token of the background watch's context
  pub cancel : Option ℕ

-- `&managedResolver{}`
abbrev pub new_resolver : Resolver
new_resolver = record {
  current = none;
  once = false;
  seeded = false;
  seed_err = none;
  auth_empty = false;
  cancel = none;
}

unfoldable pub store : Service → Resolver → Resolver
store svc mr = record mr { current = some svc; auth_empty = false; seeded = true }

unfoldable pub clear : Resolver → Resolver
clear mr = record mr { auth_empty = true; seeded = false }

unfoldable pub empty_err : Resolver → Error
empty_err mr =
    if mr.auth_empty
    then sentinel no_healthy_instances
    else Option.get_or mr.seed_err (sentinel no_healthy_instances)

-- `service`: the cached value, where one is present
unfoldable pub service : Resolver → Option Service
service mr = if mr.seeded then some (Option.get_or mr.current zero_service) else none

-- What the seed leaves of its resolve.
unfoldable pub seed_with : Result Service → Resolver → Resolver
unfolding store
seed_with (ok svc) mr = store svc mr
seed_with (err e) mr = record mr { seed_err = some e }

-- What the watch makes of a resolve, in one round of `runManagedUpdates`.
unfoldable pub refresh : Result Service → Resolver → Resolver
unfolding store clear
refresh (ok svc) mr = store svc mr
refresh (err e) mr = if is e no_healthy_instances then clear mr else mr

unfoldable pub refresh_all : List (Result Service) → Resolver → Resolver
refresh_all [] mr = mr
refresh_all (r ∷ rs) mr = refresh_all rs (refresh r mr)
