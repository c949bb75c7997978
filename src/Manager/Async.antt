-- ===== src/Manager/Async.antt =====
-- manager.go: the loops of `RegisterAsync`, run by any number of goroutines between which `Close`
-- comes at any point. One function is what a goroutine does between two such points; a call of
-- `Register` is one of them. The log lines are left out.
pub mod Late
use lib_service_discovery.Common.{
  ℕ, suc, String, Bool, true, false, Option, none, some, is_some, nat_eq, if◌then◌else◌,
}
use lib_service_discovery.Context.{Ctx, is_done}
use lib_service_discovery.Errors.{Error}
use lib_service_discovery.Types.{Service}
use lib_service_discovery.Platform.{Platform}
use lib_service_discovery.Backend.{Backend}
use lib_service_discovery.Consul.Sleep.{AnySleepEnd, sleep_ctx_any}
use lib_service_discovery.Manager.{Manager, base_ctx}
use lib_service_discovery.Manager.Registration.{register}
use lib_service_discovery.Manager.Lifecycle.{close}
use lib_service_discovery.Manager.Concurrent.{put}

-- Where a goroutine is, with the number of its attempt: before the test of the base context, before
-- `Register`, in the sleep behind a failure, or returned.
pub data Place : Type 0 where
  idle : Place
  testing entering pausing : ℕ → Place
  done_registered done_stopped : Place

module _ (p : Platform) (B : Backend) (job : ℕ → Ctx × Service) where
  pub record Async : Type 0 where
    pub manager : Manager B
    pub places : ℕ → Place
    -- how often a goroutine has called `Register` while the base context was done
    pub late : ℕ → ℕ

  abbrev pub base_done : Async → Bool
  base_done a = is_done a.manager.cancelled base_ctx

  abbrev pub new_async : Manager B → Async
  new_async m = record { manager = m; places = λ i. idle; late = λ i. 0 }

  unfoldable pub launch : ℕ → Async → Async
  launch i a =
      if a.manager.config.enabled then record a { places = put i (testing 0) a.places } else a

  -- `if m.baseCtx.Err() != nil { return }`
  unfoldable pub test : ℕ → ℕ → Async → Async
  test i n a =
      if base_done a
      then record a { places = put i done_stopped a.places }
      else record a { places = put i (entering n) a.places }

  -- Behind the answer of `Register`.
  unfoldable pub answered_place : ℕ → Option Error → Place
  answered_place n none = done_registered
  answered_place n (some e) = pausing n

  unfoldable pub enter : ℕ → ℕ → Async → Async
  enter i n a =
      let (ctx, svc) = job i in
      let (e, m) = register p B ctx svc a.manager in
      record a {
        manager = m;
        places = put i (answered_place n e) a.places;
        late = if base_done a then put i (suc (a.late i)) a.late else a.late;
      }

  unfoldable pub pause : ℕ → ℕ → AnySleepEnd → Async → Async
  pause i n e a = record a {
    places = put i (if sleep_ctx_any e then testing (suc n) else done_stopped) a.places;
  }

  unfoldable pub close_async : Async → Async
  close_async a = record a { manager = (close B a.manager).1 }
