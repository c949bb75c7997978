-- ===== src/Context.antt =====
-- Go's `context.Context`, as far as the program derives and cancels contexts.
use lib_service_discovery.Common.{ℕ, Bool, true, false, List, contains, if◌then◌else◌}
use lib_service_discovery.Common.Int.{ℤ}

-- `request n` is a caller's context. `with_cancel n c` is cancelled by its token `n` or with `c`.
pub data Ctx : Type 0 where
  background : Ctx
  request : ℕ → Ctx
  with_timeout : ℤ → Ctx → Ctx
  with_cancel : ℕ → Ctx → Ctx

-- Whether a context is done for certain, by the tokens that were cancelled. A deadline, or the
-- caller, may end it earlier.
unfoldable pub is_done : List ℕ → Ctx → Bool
is_done cancelled background = false
is_done cancelled (request n) = false
is_done cancelled (with_timeout d c) = is_done cancelled c
is_done cancelled (with_cancel n c) = if contains cancelled n then true else is_done cancelled c
