-- ===== src/Manager/Concurrent.antt =====
-- managed_resolver.go and `Manager.doClose`: the critical sections of first resolves and of `Close`,
-- run by any number of goroutines in any order. A resolver's pointer is a number. What a seed answers
-- and what a resolver caches is left out here.
pub mod Steps
pub mod First
pub mod Onces
pub mod Kept
pub mod Hanging
pub mod Later
pub mod Over
pub mod OneSeed
use lib_service_discovery.Common.{
  ℕ, suc, String, Bool, true, false, Option, none, some, List, [], ◌∷◌, ◌++◌, nat_eq, if◌then◌else◌,
}
use lib_service_discovery.Common.Dict.{Dict, lookup, insert}
use lib_service_discovery.Context.{Ctx, with_cancel}
use lib_service_discovery.Manager.{base_token, base_ctx}

-- `sync.Once`: unused, taken by a goroutine that runs its function, or finished.
pub data OnceState : Type 0 where
  unused : OnceState
  held : ℕ → OnceState
  finished : OnceState

-- Where a goroutine is in `managedResolverFor`, with its local name and pointer.
pub data Call : Type 0 where
  outside : Call
  -- the lookup under the read lock found nothing
  missed : String → Call
  -- before `once.Do`
  found : String → ℕ → Call
  -- in `seedManagedResolver`, before the resolve and behind it
  seeding : String → ℕ → Call
  starting : String → ℕ → Call
  -- in `startManagedWatch`, with the token that cancels the new context, and the context
  opening : String → ℕ → ℕ → Ctx → Call
  returned : String → ℕ → Call
  -- returned an unregistered resolver, after `Close`
  degraded : String → Call

pub record Shared : Type 0 where
  pub closed : Bool
  pub resolvers : Dict ℕ
  -- what the map of resolvers ever held
  pub born : Dict ℕ
  pub next : ℕ
  pub once : ℕ → OnceState
  pub cancel : ℕ → Option ℕ
  pub fresh : ℕ
  pub cancelled : List ℕ
  -- the seeds that were asked of the registry, by name and pointer
  pub seeds : List (String × ℕ)
  -- the contexts of the watches that were started, which `Watch` and `runManagedUpdates` have
  pub watches : List Ctx
  pub calls : ℕ → Call

abbrev pub quiet : Shared
quiet = record {
  closed = false;
  resolvers = [];
  born = [];
  next = 0;
  once = λ p. unused;
  cancel = λ p. none;
  fresh = 1;
  cancelled = [];
  seeds = [];
  watches = [];
  calls = λ i. outside;
}

-- A function with one value replaced.
abbrev pub put {ℓ} : {A : Type ℓ} → ℕ → A → (ℕ → A) → ℕ → A
put i a f j = if nat_eq i j then a else f j

-- The fast path's lookup.
unfoldable pub look_up : ℕ → String → Shared → Shared
look_up i name s = elim (lookup name s.resolvers) [
  | some p ↦ record s { calls = put i (found name p) s.calls }
  | none ↦ record s { calls = put i (missed name) s.calls }
]

-- The slow path's critical section.
unfoldable pub create : ℕ → String → Shared → Shared
create i name s =
    if s.closed
    then record s { calls = put i (degraded name) s.calls }
    else elim (lookup name s.resolvers) [
      | some p ↦ record s { calls = put i (found name p) s.calls }
      | none ↦ record s {
        resolvers = insert name s.next s.resolvers;
        born = insert name s.next s.born;
        next = suc s.next;
        calls = put i (found name s.next) s.calls;
      }
    ]

-- `once.Do`: the first goroutine runs the function, and one that finds it held waits.
unfoldable pub enter_once : ℕ → String → ℕ → Shared → Shared
enter_once i name p s = elim (s.once p) [
  | unused ↦ record s { once = put p (held i) s.once; calls = put i (seeding name p) s.calls }
  | held j ↦ s
  | finished ↦ record s { calls = put i (returned name p) s.calls }
]

-- The seed's resolve.
unfoldable pub seed : ℕ → String → ℕ → Shared → Shared
seed i name p s = record s { seeds = (name, p) ∷ s.seeds; calls = put i (starting name p) s.calls }

-- The derived context, and its cancellation in the resolver.
unfoldable pub derive : ℕ → String → ℕ → Shared → Shared
derive i name p s = record s {
  cancel = put p (some s.fresh) s.cancel;
  fresh = suc s.fresh;
  calls = put i (opening name p s.fresh (with_cancel s.fresh base_ctx)) s.calls;
}

-- The answer of the registry's `Watch`, and the end of the once.
unfoldable pub open_watch : ℕ → String → ℕ → ℕ → Ctx → Bool → Shared → Shared
open_watch i name p t ctx succeeds s =
    if succeeds
    then record s {
      watches = ctx ∷ s.watches;
      once = put p finished s.once;
      calls = put i (returned name p) s.calls;
    }
    else record s {
      cancelled = t ∷ s.cancelled;
      once = put p finished s.once;
      calls = put i (returned name p) s.calls;
    }

-- The tokens that `stop` cancels.
unfoldable pub stop_mapped : (ℕ → Option ℕ) → Dict ℕ → List ℕ
stop_mapped cancel [] = []
stop_mapped cancel ((name, p) ∷ rs) = elim (cancel p) [
  | none ↦ stop_mapped cancel rs
  | some t ↦ t ∷ stop_mapped cancel rs
]

-- The critical section of `doClose`.
unfoldable pub close_shared : Shared → Shared
close_shared s = record s {
  closed = true;
  cancelled = (base_token ∷ stop_mapped s.cancel s.resolvers) ++ s.cancelled;
  resolvers = [];
}
