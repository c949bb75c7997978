-- ===== src/Manager/Made.antt =====
-- How `New` of manager.go fails.
use lib_service_discovery.Common.{
  ◌≡◌, refl, sym, ap, ◌∙◌, true, false, Option, none, some, List, [], ◌∷◌, is_empty, Bool-cases,
  inl, inr, if_true, if_false,
}
use lib_service_discovery.Errors.{Error, Result, ok, err, wrap}
use lib_service_discovery.Platform.{Platform}
use lib_service_discovery.Config.{Config, with_defaults}
use lib_service_discovery.Config.Defaults.{with_defaults-IsComplete, validate-with_defaults}
use lib_service_discovery.Backend.{Backend}
use lib_service_discovery.Manager.{
  Manager, ManagerOption, with_registry, with_workload, apply_option, apply_options, initial,
  with_default_registry, new,
}

-- An error that the registry's client gave for a configuration with a server address.
pub record IsClientError (B : Backend) (make : Config → Result B.State) (c : Config) (e : Error)
    : Type 0 where
  pub enabled : c.enabled ≡ true
  pub has_addr : is_empty c.consul_addr ≡ false
  pub cause : Error
  pub made : make c ≡ err cause
  pub wrapped : e ≡ wrap "lib-service-discovery" cause

module _ (B : Backend) where
  apply_options-config :
      (os : List (ManagerOption B)) (m : Manager B) → (apply_options B os m).config ≡ m.config
  unfolding apply_options apply_option
  apply_options-config [] m = refl
  apply_options-config (with_registry none ∷ os) m = apply_options-config os m
  apply_options-config (with_registry (some s) ∷ os) m =
      apply_options-config os (record m { has_registry = true; backend = s })
  apply_options-config (with_workload id ∷ os) m =
      apply_options-config os (record m { workload = id })

  from_make :
      (m : Manager B) (r : Result B.State) (e : Error)
      → (elim r as (λ x. Result (Manager B)) [
        | err f ↦ err (wrap "lib-service-discovery" f)
        | ok s ↦ ok (record m { has_registry = true; backend = s })
      ])
        ≡ err e
      → (f : Error) × (r ≡ err f) × (e ≡ wrap "lib-service-discovery" f)
  from_make m (err f) e h = (f, refl, cc)
  from_make m (ok s) e h = absurd cc

  with_default_registry-error :
      (make : Config → Result B.State) (m : Manager B) (e : Error)
      → with_default_registry B make m ≡ err e
      → (m.config.enabled ≡ true)
        × ((f : Error) × (make m.config ≡ err f) × (e ≡ wrap "lib-service-discovery" f))
  unfolding with_default_registry
  with_default_registry-error make m e h = elim (Bool-cases m.config.enabled) [
    | inr off ↦ let bad : (ok m ≡ err e) = sym (if_false m.config.enabled _ off) ∙ h in absurd cc
    | inl on ↦ elim (Bool-cases m.has_registry) [
      | inl has ↦
          let bad : (ok m ≡ err e) =
            sym (if_true m.has_registry _ has) ∙ sym (if_true m.config.enabled _ on) ∙ h in
          absurd cc
      | inr bare ↦ (
        on,
        from_make m (make m.config) e
            (sym (if_false m.has_registry _ bare) ∙ sym (if_true m.config.enabled _ on) ∙ h),
      )
    ]
  ]

  -- `New` fails in one way: where discovery is enabled and the client of the registry cannot be made of
  -- the configuration with its defaults, whose server address is not empty; the error is the client's,
  -- wrapped. In particular no configuration is refused for its empty server address.
  pub new-error :
      (p : Platform) (make : Config → Result B.State) (unset : B.State) (cfg : Config)
      (os : List (ManagerOption B)) (e : Error)
      → new B p make unset cfg os ≡ err e
      → IsClientError B make (with_defaults p cfg) e
  unfolding new initial
  new-error p make unset cfg os e failed =
      let c : Config = with_defaults p cfg in
      let m : Manager B = apply_options B os (initial B unset c) in
      let same : (m.config ≡ c) = apply_options-config os (initial B unset c) in
      let h : (with_default_registry B make m ≡ err e) =
        sym (
          ap
            (λ (o : Option Error). elim o as (λ x. Result (Manager B)) [
              | some f ↦ err f
              | none ↦ with_default_registry B make m
            ])
            (validate-with_defaults p cfg))
        ∙ failed in
      let (on, (f, made, wrapped)) = with_default_registry-error make m e h in
      record {
        enabled = ap (λ (k : Config). k.enabled) (sym same) ∙ on;
        has_addr = (with_defaults-IsComplete p cfg).has_addr;
        cause = f;
        made = ap make (sym same) ∙ made;
        wrapped = wrapped;
      }
