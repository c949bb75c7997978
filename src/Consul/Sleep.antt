-- ===== src/Consul/Sleep.antt =====
-- consul.go: the sleeps that a context cuts short. What ends a sleep is the environment's choice.
use lib_service_discovery.Common.{Bool, true, false}

-- What `select` takes: the context that is done, or the timer.
pub data SleepEnd : Type 0 where
  context_first timer_first : SleepEnd

-- `sleepCtx`: whether the sleep ran to its end.
unfoldable pub sleep_ctx : SleepEnd → Bool
sleep_ctx context_first = false
sleep_ctx timer_first = true

-- The same with two contexts.
pub data AnySleepEnd : Type 0 where
  one_first other_first full_time : AnySleepEnd

-- `sleepCtxAny`
unfoldable pub sleep_ctx_any : AnySleepEnd → Bool
sleep_ctx_any one_first = false
sleep_ctx_any other_first = false
sleep_ctx_any full_time = true
