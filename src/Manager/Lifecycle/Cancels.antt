-- ===== src/Manager/Lifecycle/Cancels.antt =====
-- manager.go: no call takes the cancellation of a context back.
use lib_service_discovery.Common.{
  ℕ, String, ◌≡◌, refl, ap, ◌∙◌, true, Option, none, some, List, [], ◌∷◌, ◌++◌, arith, contains,
  if-All,
}
use lib_service_discovery.Context.{Ctx}
use lib_service_discovery.Errors.{Error, Result, ok, err}
use lib_service_discovery.Types.{Service}
use lib_service_discovery.Platform.{Platform}
use lib_service_discovery.Manager.Registration.{register, register_checked}
use lib_service_discovery.Backend.{Backend}
use lib_service_discovery.Manager.{Manager, base_token}
use lib_service_discovery.Manager.Lifecycle.{
  deregister, close, do_close, close_backend, drain, stop_all,
}

pub contains-append : (ms ns : List ℕ) (t : ℕ) → contains ns t ≡ true → contains (ms ++ ns) t ≡ true
contains-append [] ns t h = h
contains-append (m ∷ ms) ns t h = ground (arith, contains-append ms ns t h)

module _ (B : Backend) where
  -- No call takes a cancellation back.
  drain-cancelled :
      (m : Manager B) (t : ℕ)
      → contains m.cancelled t ≡ true
      → contains (drain B m).cancelled t ≡ true
  unfolding drain
  drain-cancelled m t h = contains-append (base_token ∷ stop_all m.resolvers) m.cancelled t h

  close_backend-cancelled :
      (f : Option (B.State → Option Error × B.State)) (m : Manager B)
      → (close_backend B f m).1.cancelled ≡ m.cancelled
  unfolding close_backend
  close_backend-cancelled none m = refl
  close_backend-cancelled (some f) m = refl

  pub close-cancelled :
      (m : Manager B) (t : ℕ)
      → contains m.cancelled t ≡ true
      → contains (close B m).1.cancelled t ≡ true
  unfolding close do_close
  close-cancelled m t h =
      if-All (λ (x : Option Error × Manager B). contains x.1.cancelled t ≡ true) m.close_done _ _ h
        (if-All (λ (x : Option Error × Manager B). contains x.1.cancelled t ≡ true) m.has_registry _
          _
          (ap (λ c. contains c t) (close_backend-cancelled B.close (drain B m))
            ∙ drain-cancelled m t h)
          (drain-cancelled m t h))

  pub deregister-cancelled :
      (ctx : Ctx) (id : String) (m : Manager B) → (deregister B ctx id m).1.cancelled ≡ m.cancelled
  unfolding deregister
  deregister-cancelled ctx id m = ground arith

  register_checked-cancelled :
      (p : Platform) (ctx : Ctx) (r : Result Service) (m : Manager B)
      → (register_checked p B ctx r m).1.cancelled ≡ m.cancelled
  unfolding register_checked
  register_checked-cancelled p ctx (err e) m = refl
  register_checked-cancelled p ctx (ok svc) m = refl

  pub register-cancelled :
      (p : Platform) (ctx : Ctx) (svc : Service) (m : Manager B)
      → (register p B ctx svc m).1.cancelled ≡ m.cancelled
  unfolding register
  register-cancelled p ctx svc m =
      if-All (λ (x : Option Error × Manager B). x.1.cancelled ≡ m.cancelled) m.config.enabled _ _
        (if-All (λ (x : Option Error × Manager B). x.1.cancelled ≡ m.cancelled) _ _ _
          (register_checked-cancelled p ctx _ m) refl)
        refl
