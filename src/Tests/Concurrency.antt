-- ===== src/Tests/Concurrency.antt =====
-- The theorems on first resolves and `Close` in any order, applied: two goroutines resolve a name,
-- and `Close` overtakes the second.
use lib_service_discovery.Common.{ℕ, ◌≡◌, refl, true}
use lib_service_discovery.Common.Dict.{lookup, insert}
use lib_service_discovery.Context.{with_cancel}
use lib_service_discovery.Manager.{base_ctx}
use lib_service_discovery.Manager.Concurrent.{
  Shared, finished, quiet, look_up, create, enter_once, seed, derive, open_watch, close_shared,
}
use lib_service_discovery.Manager.Concurrent.Steps.{
  Reach, start, next_step, looks_up, creates, enters, seeds, derives, opens, closes,
}
use lib_service_discovery.Manager.Concurrent.OneSeed.{one_seed, same_resolver, OncePerName}
use lib_service_discovery.Manager.Concurrent.Later.{Later, now, then_step, Later-Reach}
use lib_service_discovery.Manager.Concurrent.Over.{IsOver, close_shared-IsOver}

-- Both goroutines miss, one creates and enters, and the other then finds the pointer.
abbrev raced : Shared
raced = create 1 "payments" (
    enter_once 0 "payments" 0
      (create 0 "payments" (look_up 1 "payments" (look_up 0 "payments" quiet))))

raced-Reach : Reach raced
unfolding look_up create enter_once lookup insert
raced-Reach =
    next_step
      (next_step
        (next_step
          (next_step (next_step start (looks_up 0 "payments" refl)) (looks_up 1 "payments" refl))
          (creates 0 "payments" refl))
        (enters 0 "payments" 0 refl))
      (creates 1 "payments" refl)

-- The first goroutine seeds and derives its context.
abbrev seeded : Shared
seeded = derive 0 "payments" 0 (seed 0 "payments" 0 raced)

seeded-Reach : Reach seeded
unfolding look_up create enter_once seed derive lookup insert
seeded-Reach =
    next_step (next_step raced-Reach (seeds 0 "payments" 0 refl)) (derives 0 "payments" 0 refl)

-- `Close` comes before its watch.
abbrev overtaken : Shared
overtaken = open_watch 0 "payments" 0 1 (with_cancel 1 base_ctx) true (close_shared seeded)

-- The second goroutine leaves `once.Do` behind the first.
abbrev both : Shared
both = enter_once 1 "payments" 0 overtaken

both-Later : Later (close_shared seeded) both
unfolding look_up create enter_once seed derive open_watch close_shared lookup insert
both-Later =
    then_step (then_step now (opens 0 "payments" 0 1 (with_cancel 1 base_ctx) true refl))
      (enters 1 "payments" 0 refl)

both-Reach : Reach both
both-Reach = Later-Reach both-Later (next_step seeded-Reach closes)

one_seed_example : OncePerName both.seeds
one_seed_example = one_seed both-Reach

same_resolver_example : (◌≡◌ {A = ℕ} 0 0) × (both.once 0 ≡ finished)
unfolding look_up create enter_once seed derive open_watch close_shared lookup insert
same_resolver_example = same_resolver both-Reach 0 1 "payments" 0 0 refl refl

close_shared-IsOver_example : IsOver seeded both
close_shared-IsOver_example = close_shared-IsOver seeded-Reach both-Later
