-- ===== src/Consul/Ticker/Heal.antt =====
-- A heartbeat of consul.go heals a registration that the agent has lost.
use mathlib.Core.Bool.{true≢false}
use lib_service_discovery.Common.{
  String, ◌≡◌, refl, sym, ap, ◌∙◌, subst, inl, inr, Bool, true, false, none, some, ◌||◌, is_some,
  List, [], ◌∷◌, ◌++◌, Bool-cases, if_true, if_false, All,
}
use lib_service_discovery.Context.{Ctx}
use lib_service_discovery.Consul.Agent.{Registration}
use lib_service_discovery.Consul.Api.{Api}
use lib_service_discovery.Consul.Registration.{ttl_check_id}
use lib_service_discovery.Consul.Registry.{pass, is_unknown_check, contains_text}
use lib_service_discovery.Consul.Ticker.{Tick, fires, is_stopped, others, run_beats}

-- What Consul documents of an agent that can be reached, under a context that is not done, where `knows` says whether it has the check
-- of a service and `passes` whether the check passes. An update of a check that it knows makes it
-- pass; of one that it does not know it is refused with a text that says so. A registration is
-- accepted, and makes the check known.
pub record IsAgent (api : Api) (reg : Registration) (ctx : Ctx) (knows passes : api.State → Bool)
    : Type 0 where
  pub update_known :
      (s : api.State)
      → knows s ≡ true
      → ((api.update_ttl ctx (ttl_check_id reg.id) s).0 ≡ none)
        × (passes (api.update_ttl ctx (ttl_check_id reg.id) s).1 ≡ true)
  pub update_unknown :
      (s : api.State)
      → knows s ≡ false
      → (text : String) × ((api.update_ttl ctx (ttl_check_id reg.id) s).0 ≡ some text)
        × (contains_text text "Unknown check" ≡ true)
  pub register_known :
      (s : api.State)
      → ((api.register ctx reg s).0 ≡ none) × (knows (api.register ctx reg s).1 ≡ true)

or_true : (a b : Bool) → (a || b || true) ≡ true
or_true true b = refl
or_true false true = refl
or_true false false = refl

abbrev pub goes_on : (api : Api) → Tick api → Bool
goes_on api fires = true
goes_on api is_stopped = false
goes_on api (others f) = true

module _ (api : Api) (reg : Registration) (ctx : Ctx) (knows passes : api.State → Bool)
    (agent : IsAgent api reg ctx knows passes) where
  abbrev Passing : api.State → Type 0
  Passing s = passes s ≡ true

  lost_unknown :
      (s : api.State)
      → knows s ≡ false
      → is_unknown_check (api.update_ttl ctx (ttl_check_id reg.id) s).0 ≡ true
  unfolding is_unknown_check
  lost_unknown s lost =
      let (text, refused, says) = agent.update_unknown s lost in
      ap is_unknown_check refused
      ∙ ap (λ b. contains_text text "404" || contains_text text "does not exist" || b) says
      ∙ or_true (contains_text text "404") (contains_text text "does not exist")

  -- One pass makes the check pass, known or not.
  pass-Passing : (s : api.State) → Passing (pass api reg ctx s)
  unfolding pass is_unknown_check
  pass-Passing s = elim (Bool-cases (knows s)) [
    | inl known ↦
        let (fine, passing) = agent.update_known s known in
        subst (λ r. Passing r)
          (sym (
            if_false (is_unknown_check (api.update_ttl ctx (ttl_check_id reg.id) s).0) _
              (ap is_unknown_check fine)))
          passing
    | inr lost ↦
        let (fine, known) = agent.register_known (api.update_ttl ctx (ttl_check_id reg.id) s).1 in
        let again = (api.register ctx reg (api.update_ttl ctx (ttl_check_id reg.id) s).1).1 in
        subst (λ r. Passing r)
          (sym (if_true _ _ (lost_unknown s lost) ∙ if_false _ _ (ap is_some fine)))
          (agent.update_known again known).1
  ]

  run_beats-append :
      (ts us : List (Tick api)) (s : api.State)
      → All (λ t. goes_on api t ≡ true) ts
      → run_beats api reg ctx (ts ++ us) s ≡ run_beats api reg ctx us (run_beats api reg ctx ts s)
  unfolding run_beats
  run_beats-append [] us s live = refl
  run_beats-append (fires ∷ ts) us s (h, live) = run_beats-append ts us (pass api reg ctx s) live
  run_beats-append (is_stopped ∷ ts) us s (h, live) = absurd (true≢false (sym h))
  run_beats-append (others f ∷ ts) us s (h, live) = run_beats-append ts us (f s) live

  -- Take an agent that behaves as Consul documents. Whatever passes and changes of the agent's state
  -- came before, the loss of the registration included: where the ticker of a heartbeat that was not
  -- stopped fires, the check passes.
  pub fires-heals :
      (ts : List (Tick api)) (s : api.State)
      → All (λ t. goes_on api t ≡ true) ts
      → passes (run_beats api reg ctx (ts ++ (fires ∷ [])) s) ≡ true
  unfolding run_beats
  fires-heals ts s live =
      subst (λ r. Passing r) (sym (run_beats-append ts (fires ∷ []) s live))
        (pass-Passing (run_beats api reg ctx ts s))
