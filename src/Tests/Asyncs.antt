-- ===== src/Tests/Asyncs.antt =====
-- The theorem on the loops of `RegisterAsync` and `Close` in any order, applied: `Close` comes between
-- a loop's test of the base context and its call of `Register`.
use lib_service_discovery.Common.{ℕ, ◌≤◌, refl}
use lib_service_discovery.Context.{Ctx, background, is_done}
use lib_service_discovery.Types.{Service}
use lib_service_discovery.Manager.Async.{Async, new_async, launch, test, enter, close_async}
use lib_service_discovery.Manager.Async.Late.{
  Run, here, after, launches, tests, enters, closes, late_once,
}
use lib_service_discovery.Tests.Samples.{payments, plain_platform, counting_backend, new_manager}

abbrev jobs : ℕ → Ctx × Service
jobs i = (background, payments)

abbrev Calls : Type 0
Calls = Async plain_platform counting_backend jobs

abbrev tested : Calls
tested = test plain_platform counting_backend jobs 3 0 (
    launch plain_platform counting_backend jobs 3
      (new_async plain_platform counting_backend jobs new_manager))

abbrev called_late : Calls
called_late =
    enter plain_platform counting_backend jobs 3 0
      (close_async plain_platform counting_backend jobs tested)

called_late-Run :
    Run plain_platform counting_backend jobs
      (new_async plain_platform counting_backend jobs new_manager)
      called_late
unfolding launch test close_async is_done
called_late-Run =
    after (after (after (after here (launches 3 refl)) (tests 3 0 refl)) closes) (enters 3 0 refl)

late_once_example : called_late.late 3 ≤ 1
late_once_example = late_once plain_platform counting_backend jobs new_manager called_late-Run 3
