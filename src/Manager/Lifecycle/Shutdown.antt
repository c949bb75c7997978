-- ===== src/Manager/Lifecycle/Shutdown.antt =====
-- `Manager.Close`: what holds of a manager after it, whatever is called.
use lib_service_discovery.Common.{
  ℕ, String, ◌≡◌, subst, sym, ap, ◌∙◌, true, Option, List, [], ◌∷◌, Bool-cases, inl, inr, All,
  contains, if_true, if_false, if-All, ◌||◌, is_some,
}
use lib_service_discovery.Common.Dict.{lookup}
use lib_service_discovery.Context.{Ctx, is_done}
use lib_service_discovery.Errors.{Error, Result, ok, err}
use lib_service_discovery.Types.{Service}
use lib_service_discovery.Platform.{Platform}
use lib_service_discovery.Backend.{Backend}
use lib_service_discovery.Resolver.{new_resolver}
use lib_service_discovery.Config.{Config}
use lib_service_discovery.Manager.{ManagerOption, new, Manager, ManagedWatch, base_token}
use lib_service_discovery.Manager.Registration.{
  advertised, apply_health_check, tagged, register, register_checked,
}
use lib_service_discovery.Manager.Managed.{managed_resolver_for, managed_update}
use lib_service_discovery.Manager.Managed.Once.{managed_resolver_for_closed}
use lib_service_discovery.Manager.Lifecycle.{deregister, watch, do_close, close}
use lib_service_discovery.Manager.Lifecycle.Soundness.{
  IsSound, Step, registers, deregisters, watches_name, resolves, updates, closes, Steps, none_left,
  one_more, OnBase, do_close-IsSound, close-IsSound, Steps-IsSound,
}
use lib_service_discovery.Manager.Lifecycle.Created.{IsSoundResult, new-IsSound}

module _ (p : Platform) (B : Backend) where
  managed_resolver_for-IsSound_closed :
      (ctx : Ctx) (name : String) (m : Manager B)
      → IsSound p B m
      → m.closed ≡ true
      → managed_resolver_for B ctx name m ≡ (new_resolver, m)
  unfolding lookup
  managed_resolver_for-IsSound_closed ctx name m h closed =
      managed_resolver_for_closed B ctx name m (ap (lookup name) (h.drained closed)) closed

  -- The manager that a call leaves is closed.
  LeavesClosed {ℓ} : {A : Type ℓ} → A × Manager B → Type 0
  LeavesClosed x = x.1.closed ≡ true

  register_checked-closed :
      (ctx : Ctx) (r : Result Service) (m : Manager B)
      → m.closed ≡ true
      → (register_checked p B ctx r m).1.closed ≡ true
  unfolding register_checked
  register_checked-closed ctx (err e) m c = c
  register_checked-closed ctx (ok svc) m c = c

  close-closed : (m : Manager B) → IsSound p B m → (close B m).1.closed ≡ true
  unfolding close LeavesClosed
  close-closed m h = elim (Bool-cases m.close_done) [
    | inl done ↦ subst LeavesClosed (sym (if_true m.close_done _ done)) (h.done_closed done)
    | inr first ↦
        subst LeavesClosed (sym (if_false m.close_done _ first)) ((do_close-IsSound p B m h).1)
  ]

  Step-closed : {m n : Manager B} → Step p B m n → IsSound p B m → m.closed ≡ true → n.closed ≡ true
  unfolding register deregister watch managed_update LeavesClosed
  Step-closed {m} (registers ctx svc) h c =
      let s = advertised m.config svc in
      if-All LeavesClosed m.config.enabled _ _
        (if-All LeavesClosed (is_some s.external || is_some s.internal) _ _
          (register_checked-closed ctx (apply_health_check p (tagged p B m s)) m c) c)
        c
  Step-closed {m} (deregisters ctx id) h c = if-All LeavesClosed m.config.enabled _ _ c c
  Step-closed {m} (watches_name ctx name) h c = if-All LeavesClosed m.config.enabled _ _ c c
  Step-closed {m} (resolves ctx name) h c =
      ap (λ x. x.1.closed) (managed_resolver_for-IsSound_closed ctx name m h c) ∙ c
  Step-closed {m} (updates w) h c = c
  Step-closed {m} closes h c = close-closed m h

  Steps-closed :
      {m n : Manager B} → Steps p B m n → IsSound p B m → m.closed ≡ true → n.closed ≡ true
  Steps-closed none_left h c = c
  Steps-closed (one_more hs s) h c = Step-closed s (Steps-IsSound p B hs h) (Steps-closed hs h c)

  OnBase-is_done :
      (cancelled : List ℕ) (ws : List (ManagedWatch B))
      → contains cancelled base_token ≡ true
      → All (OnBase p B) ws
      → All (λ w. is_done cancelled w.ctx ≡ true) ws
  OnBase-is_done cancelled [] c h = tt
  OnBase-is_done cancelled (w ∷ ws) c h = (h.0 cancelled c, OnBase-is_done cancelled ws c h.1)

  -- Take a manager that `New` made, and any calls and events, a `Close`, and any calls and events
  -- again. Then every watch that was ever opened runs on a context that is done, and a resolve gets
  -- an empty resolver and asks the registry nothing.
  pub close-inert :
      (make : Config → Result B.State) (unset : B.State) (c : Config) (os : List (ManagerOption B))
      (m n k : Manager B)
      → new B p make unset c os ≡ ok m
      → Steps p B m n
      → Steps p B (close B n).1 k
      → All (λ w. is_done k.cancelled w.ctx ≡ true) k.watches
        × ((ctx : Ctx) (name : String) → managed_resolver_for B ctx name k ≡ (new_resolver, k))
  close-inert make unset c os m n k made before later =
      let created : IsSound p B m =
        subst (IsSoundResult p B) made (new-IsSound p B make unset c os) in
      let live : IsSound p B n = Steps-IsSound p B before created in
      let h : IsSound p B k = Steps-IsSound p B later (close-IsSound p B n live) in
      let closed : (k.closed ≡ true) =
        Steps-closed later (close-IsSound p B n live) (close-closed n live) in
      (
        OnBase-is_done k.cancelled k.watches (h.base_cancelled closed) h.on_base,
        λ ctx name. managed_resolver_for-IsSound_closed ctx name k h closed,
      )

  -- A second `Close` returns the error of the first and changes nothing: the registry is closed once.
  pub close_idem : (m : Manager B) → close B (close B m).1 ≡ close B m
  unfolding close
  close_idem m = elim (Bool-cases m.close_done) [
    | inl done ↦ ap (λ (x : Option Error × Manager B). close B x.1) (if_true m.close_done _ done)
    | inr first ↦
        let e = (do_close B m).0 in
        let n : Manager B = record (do_close B m).1 { close_done = true; close_err = e } in
        ap (λ (x : Option Error × Manager B). close B x.1) (if_false m.close_done _ first)
        ∙ sym (if_false m.close_done (m.close_err, m) {y = (e, n)} first)
  ]
