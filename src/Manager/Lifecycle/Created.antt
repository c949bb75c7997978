-- ===== src/Manager/Lifecycle/Created.antt =====
-- What `New` makes is a sound manager.
use lib_service_discovery.Common.{true, none, some, List, [], ◌∷◌, Option-cases, inl, inr, if-All}
use lib_service_discovery.Errors.{Result, ok, err, wrap}
use lib_service_discovery.Platform.{Platform}
use lib_service_discovery.Backend.{Backend}
use lib_service_discovery.Config.{Config, validate, with_defaults}
use lib_service_discovery.Manager.{
  ManagerOption, with_registry, with_workload, apply_option, apply_options, initial,
  with_default_registry, new, Manager,
}
use lib_service_discovery.Manager.Lifecycle.Soundness.{IsSound}

module _ (p : Platform) (B : Backend) where
  initial-IsSound : (unset : B.State) (c : Config) → IsSound p B (initial B unset c)
  unfolding initial
  initial-IsSound unset c = record {
    on_base = tt;
    base_cancelled = λ h. cc;
    drained = λ h. cc;
    done_closed = λ h. cc;
  }

  apply_option-IsSound :
      (o : ManagerOption B) (m : Manager B) → IsSound p B m → IsSound p B (apply_option B o m)
  unfolding apply_option
  apply_option-IsSound (with_registry none) m h = h
  apply_option-IsSound (with_registry (some s)) m h = record {
    on_base = h.on_base;
    base_cancelled = h.base_cancelled;
    drained = h.drained;
    done_closed = h.done_closed;
  }
  apply_option-IsSound (with_workload id) m h = record {
    on_base = h.on_base;
    base_cancelled = h.base_cancelled;
    drained = h.drained;
    done_closed = h.done_closed;
  }

  apply_options-IsSound :
      (os : List (ManagerOption B)) (m : Manager B)
      → IsSound p B m
      → IsSound p B (apply_options B os m)
  unfolding apply_options
  apply_options-IsSound [] m h = h
  apply_options-IsSound (o ∷ os) m h =
      apply_options-IsSound os (apply_option B o m) (apply_option-IsSound o m h)

  -- A manager that was created, if it was.
  abbrev pub IsSoundResult : Result (Manager B) → Type 0
  IsSoundResult (ok m) = IsSound p B m
  IsSoundResult (err e) = Unit

  made-IsSound :
      (r : Result B.State) (m : Manager B)
      → IsSound p B m
      → IsSoundResult (elim r [
        | err e ↦ err (wrap "lib-service-discovery" e)
        | ok s ↦ ok (record m { has_registry = true; backend = s })
      ])
  made-IsSound (err e) m h = tt
  made-IsSound (ok s) m h = record {
    on_base = h.on_base;
    base_cancelled = h.base_cancelled;
    drained = h.drained;
    done_closed = h.done_closed;
  }

  with_default_registry-IsSound :
      (make : Config → Result B.State) (m : Manager B)
      → IsSound p B m
      → IsSoundResult (with_default_registry B make m)
  unfolding with_default_registry
  with_default_registry-IsSound make m h =
      if-All IsSoundResult m.config.enabled _ _
        (if-All IsSoundResult m.has_registry _ _ h (made-IsSound (make m.config) m h)) h

  pub new-IsSound :
      (make : Config → Result B.State) (unset : B.State) (c : Config) (os : List (ManagerOption B))
      → IsSoundResult (new B p make unset c os)
  unfolding new
  new-IsSound make unset c os = elim (Option-cases (validate (with_defaults p c))) [
    | inl fine ↦
        rw (new, fine)
          (with_default_registry-IsSound make
            (apply_options B os (initial B unset (with_defaults p c)))
            (apply_options-IsSound os (initial B unset (with_defaults p c))
              (initial-IsSound unset (with_defaults p c))))
    | inr (e, bad) ↦ rw (new, bad) tt
  ]
