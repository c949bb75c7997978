-- ===== src/Consul/Registry.antt =====
-- consul.go: the operations of `consulRegistry`, each run from its call to its return. The log lines
-- are left out.
pub mod Laws
pub mod Resolve
use lib_service_discovery.Common.{
  ℕ, zero, suc, ◌%◌, String, ◌<>◌, Bool, true, false, ◌||◌, Option, none, some, List, [], ◌∷◌,
  is_some, if◌then◌else◌,
}
use text.Mathlib.Text.{find?}
use lib_service_discovery.Common.Int.{ℤ, pos, negsuc}
use lib_service_discovery.Context.{Ctx, background, with_cancel}
use lib_service_discovery.Errors.{
  Error, Result, ok, err, sentinel, wrap, foreign, nil_registry, no_healthy_instances,
}
use lib_service_discovery.Types.{Service, normalize_endpoints}
use lib_service_discovery.Consul.Agent.{Registration, Entry}
use lib_service_discovery.Consul.Api.{Api, Answer, failed, answered}
use lib_service_discovery.Consul.Registration.{registration_for, ttl_of, ttl_check_id}
use lib_service_discovery.Consul.Meta.{service_from_entry}
use lib_service_discovery.Consul.Heartbeat.{Beats, begin_beat, store_beat, drop_beat, close_beats}
use lib_service_discovery.Consul.RoundRobin.{next_index}

-- Whether a text occurs in another.
abbrev pub contains_text : String → String → Bool
contains_text s t = is_some (find? s t)

-- `isUnknownCheck`, of the error's text
unfoldable pub is_unknown_check : Option String → Bool
is_unknown_check none = false
is_unknown_check (some s) =
    contains_text s "404" || contains_text s "does not exist" || contains_text s "Unknown check"

-- What a resolve does: it returns, or it panics on an index out of range.
pub data Resolved : Type 0 where
  returned : Result Service → Resolved
  panicked : Resolved

-- `entries[i]`
unfoldable pub entry_at : List Entry → ℕ → Option Entry
entry_at [] i = none
entry_at (e ∷ es) zero = some e
entry_at (e ∷ es) (suc i) = entry_at es i

unfoldable pub count : List Entry → ℕ
count [] = 0
count (e ∷ es) = suc (count es)

resolved_at : List Entry → ℤ → Resolved
unfolding entry_at
resolved_at es (negsuc i) = panicked
resolved_at es (pos i) = elim (entry_at es i) [
  | none ↦ panicked
  | some e ↦ returned (ok (service_from_entry e))
]

module _ (api : Api) where
  pub record Registry : Type 0 where
    pub agent : api.State
    pub beats : Beats
    pub rr : ℕ
    pub allow_stale : Bool

  -- `queryOpts`: whether a stale read will do.
  abbrev pub query_opts : Option Registry → Bool
  query_opts none = false
  query_opts (some r) = r.allow_stale

  -- One heartbeat: it passes the check, and where the check is unknown it registers the service
  -- again and passes the new check.
  unfoldable pub pass : Registration → Ctx → api.State → api.State
  pass reg ctx s =
      let check = ttl_check_id reg.id in
      let (e, s₁) = api.update_ttl ctx check s in
      if is_unknown_check e
      then (let (e₂, s₂) = api.register ctx reg s₁ in
          if is_some e₂ then s₂ else (api.update_ttl ctx check s₂).1)
      else s₁

  -- `startHeartbeat`, with nothing between its two critical sections but the first pass. The context
  -- of the new heartbeat hangs on no caller.
  unfoldable pub start_heartbeat : Registration → Registry → Registry
  start_heartbeat reg r =
      let t = r.beats.fresh in
      if r.beats.closed then r else record r {
        agent = pass reg (with_cancel t background) r.agent;
        beats = store_beat reg.id t (begin_beat reg.id r.beats);
      }

  unfoldable pub register : Ctx → Service → Registry → Option Error × Registry
  register ctx svc r =
      let reg = registration_for svc in
      let (e, s) = api.register ctx reg r.agent in
      let r₁ : Registry = record r { agent = s } in
      elim e [
        | some text ↦ (some (wrap ("consul: register " <> svc.name) (foreign text)), r₁)
        | none ↦ (none, if is_some (ttl_of svc) then start_heartbeat reg r₁ else r₁)
      ]

  unfoldable pub deregister : Ctx → String → Registry → Option Error × Registry
  deregister ctx id r =
      let (e, s) = api.deregister ctx id r.agent in
      let r₁ : Registry = record r { agent = s; beats = drop_beat id r.beats } in
      elim e [
        | some text ↦ (some (wrap ("consul: deregister " <> id) (foreign text)), r₁)
        | none ↦ (none, r₁)
      ]

  unfoldable pub close : Registry → Option Error × Registry
  close r = (none, record r { beats = close_beats r.beats })

  unfoldable pub resolve : Ctx → String → String → Registry → Resolved × Registry
  unfolding resolved_at
  resolve ctx name tag r =
      let (a, s) = api.health ctx name tag true (query_opts (some r)) r.agent in
      let r₁ : Registry = record r { agent = s } in
      elim a [
        | failed text ↦ (returned (err (wrap ("consul: resolve " <> name) (foreign text))), r₁)
        | answered es index ↦ elim es [
          | [] ↦ (returned (err (wrap name (sentinel no_healthy_instances))), r₁)
          | e ∷ rest ↦
              let (i, rr) = next_index (count (e ∷ rest)) r.rr in
              (resolved_at (e ∷ rest) i, record r₁ { rr = rr })
        ]
      ]

  -- The test of a nil receiver.
  unfoldable pub on_registry {ℓ} :
      {A : Type ℓ} → (Error → A) → (Registry → A × Registry) → Option Registry → A × Option Registry
  on_registry fail f none = (fail (sentinel nil_registry), none)
  on_registry fail f (some r) = let (a, r₁) = f r in (a, some r₁)
