-- ===== src/Tests/Logging.antt =====
-- The theorem on logger.go, applied: a field, a group, and a log call inside it.
use lib_service_discovery.Common.{ℕ, ◌≡◌, ◌⊎◌, false, some, List, [], ◌∷◌, ◌++◌}
use lib_service_discovery.Context.{background}
use lib_service_discovery.Logger.{
  level_warn, pointer_kind, Arg, key_arg, value_arg, Adapter, Logger, Reflected, no_op, adapted,
  to_obs_logger, log,
}
use lib_service_discovery.Logger.Reference.{
  fields_bound, group_bound, Binding, bind, deeper, qualified, all_qualified, pairs, described,
  method, IsNil, log-described,
}

-- A logger that keeps the arguments of its warnings.
abbrev keeper : Logger ℕ
keeper = record {
  Sink = List (Arg ℕ);
  info = λ ctx msg args s. s;
  warn = λ ctx msg args s. s ++ args;
  error = λ ctx msg args s. s;
  debug = λ ctx msg args s. s;
}

abbrev pointer : Reflected
pointer = record { kind = pointer_kind; value_is_nil = false }

abbrev bindings : List (Binding ℕ)
bindings =
    fields_bound (record { key = "team"; value = 1 } ∷ [])
    ∷ group_bound "consul"
    ∷ group_bound ""
    ∷ group_bound "watch"
    ∷ []

log-described_example :
    (IsNil (some pointer) × (to_obs_logger ℕ (some pointer) ≡ no_op))
    ⊎ ((¬ IsNil (some pointer))
        × ((a : Adapter ℕ) × (to_obs_logger ℕ (some pointer) ≡ adapted a)
            × (log ℕ keeper background level_warn "failed"
                  (record { key = "n"; value = 2 } ∷ [])
                  (bind ℕ bindings a)
                  []
                ≡ key_arg "team" ∷ value_arg 1 ∷ key_arg "consul.watch.n" ∷ value_arg 2 ∷ [])))
unfolding method pairs described qualified all_qualified deeper
log-described_example =
    log-described ℕ keeper (some pointer) background level_warn "failed" bindings
      (record { key = "n"; value = 2 } ∷ []) []
