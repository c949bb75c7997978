-- ===== src/Manager/Lifecycle/Soundness.antt =====
-- The calls and events of a manager, and what they keep.
use lib_service_discovery.Common.{
  ℕ, String, ◌≡◌, refl, subst, sym, ap, true, false, Option, none, some, List, [], ◌∷◌, ◌++◌, arith,
  Bool-cases, Option-cases, inl, inr, All, contains, if_true, if_false, if-All, ◌||◌, is_some,
}
use lib_service_discovery.Common.Dict.{Dict, lookup}
use lib_service_discovery.Context.{Ctx, is_done}
use lib_service_discovery.Errors.{Error, Result, ok, err}
use lib_service_discovery.Types.{Service}
use lib_service_discovery.Platform.{Platform}
use lib_service_discovery.Backend.{Backend}
use lib_service_discovery.Resolver.{Resolver, new_resolver}
use lib_service_discovery.Manager.{new, Manager, ManagedWatch, base_ctx, base_token}
use lib_service_discovery.Manager.Registration.{
  advertised, apply_health_check, tagged, register, register_checked,
}
use lib_service_discovery.Manager.Managed.{
  watch_started, start_managed_watch, seed_managed_resolver, seed_once, managed_resolver_for,
  managed_update, refresh_named,
}
use lib_service_discovery.Manager.Managed.Once.{
  managed_resolver_for_first, managed_resolver_for_closed,
}
use lib_service_discovery.Manager.Lifecycle.{
  deregister, watch, drain, close_backend, do_close, close,
}

contains-app :
    (ts us : List ℕ) → contains us base_token ≡ true → contains (ts ++ us) base_token ≡ true
contains-app [] us h = h
contains-app (t ∷ ts) us h = ground (arith, contains-app ts us h)

module _ (p : Platform) (B : Backend) where
  -- The calls and the events that a manager meets. The one-shot resolvers act on it by
  -- `managed_resolver_for` alone.
  pub data Step (m : Manager B) : Manager B → Type 0 where
    registers : (ctx : Ctx) (svc : Service) → Step m (register p B ctx svc m).1
    deregisters : (ctx : Ctx) (id : String) → Step m (deregister B ctx id m).1
    watches_name : (ctx : Ctx) (name : String) → Step m (watch B ctx name m).1
    resolves : (ctx : Ctx) (name : String) → Step m (managed_resolver_for B ctx name m).1
    updates : (w : ManagedWatch B) → Step m (managed_update B w m)
    closes : Step m (close B m).1

  pub data Steps (m : Manager B) : Manager B → Type 0 where
    none_left : Steps m m
    one_more : {n k : Manager B} → Steps m n → Step n k → Steps m k

  -- Every watch runs on a context that hangs on the manager's base context.
  abbrev pub OnBase : ManagedWatch B → Type 0
  OnBase w =
      (cancelled : List ℕ) → contains cancelled base_token ≡ true → is_done cancelled w.ctx ≡ true

  pub record IsSound (m : Manager B) : Type 0 where
    pub on_base : All OnBase m.watches
    pub base_cancelled : m.closed ≡ true → contains m.cancelled base_token ≡ true
    pub drained : m.closed ≡ true → m.resolvers ≡ []
    pub done_closed : m.close_done ≡ true → m.closed ≡ true

  -- The manager that a call leaves is sound.
  Leaves {ℓ} : {A : Type ℓ} → A × Manager B → Type 0
  Leaves x = IsSound x.1

  base-OnBase :
      (t : ℕ) (cancelled : List ℕ)
      → contains cancelled base_token ≡ true
      → is_done cancelled (Ctx.with_cancel t base_ctx) ≡ true
  unfolding is_done
  base-OnBase t cancelled h = ground (arith, h)

  watch_started-IsSound :
      (name tag : String) (t : ℕ) (stream : B.Stream) (e : Option Error) (m : Manager B)
      → IsSound m
      → IsSound (watch_started B name tag t stream e m)
  unfolding watch_started
  watch_started-IsSound name tag t stream none m h = record {
    on_base = (base-OnBase t, h.on_base);
    base_cancelled = h.base_cancelled;
    drained = h.drained;
    done_closed = h.done_closed;
  }
  watch_started-IsSound name tag t stream (some e) m h = record {
    on_base = h.on_base;
    base_cancelled = λ c. contains-app (t ∷ []) m.cancelled (h.base_cancelled c);
    drained = h.drained;
    done_closed = h.done_closed;
  }

  -- A change of the registry, of the tokens and, in an open manager, of the resolvers.
  open-IsSound :
      (m : Manager B) (s : B.State) (t : ℕ) (rs : Dict Resolver)
      → IsSound m
      → m.closed ≡ false
      → IsSound (record m { backend = s; fresh = t; resolvers = rs })
  open-IsSound m s t rs h live = record {
    on_base = h.on_base;
    base_cancelled = h.base_cancelled;
    drained = λ c. cc;
    done_closed = h.done_closed;
  }

  backend-IsSound : (m : Manager B) (s : B.State) → IsSound m → IsSound (record m { backend = s })
  backend-IsSound m s h = record {
    on_base = h.on_base;
    base_cancelled = h.base_cancelled;
    drained = h.drained;
    done_closed = h.done_closed;
  }

  seed_once-IsSound :
      (ctx : Ctx) (name : String) (mr : Resolver) (m : Manager B)
      → IsSound m
      → m.closed ≡ false
      → IsSound (seed_once B ctx name mr m).1
  unfolding Leaves seed_once seed_managed_resolver start_managed_watch
  seed_once-IsSound ctx name mr m h live = elim (Bool-cases mr.once) [
    | inl done ↦ subst Leaves (sym (if_true mr.once _ done)) h
    | inr new ↦
        subst Leaves (sym (if_false mr.once _ new))
          (watch_started-IsSound name _ m.fresh _ _ _ (open-IsSound m _ _ _ h live))
  ]

  managed_resolver_for-IsSound :
      (ctx : Ctx) (name : String) (m : Manager B)
      → IsSound m
      → IsSound (managed_resolver_for B ctx name m).1
  unfolding Leaves managed_resolver_for lookup
  managed_resolver_for-IsSound ctx name m h = elim (Bool-cases m.closed) [
    | inr live ↦ elim (Option-cases (lookup name m.resolvers)) [
      | inr (mr, found) ↦ rw (managed_resolver_for, found) (seed_once-IsSound ctx name mr m h live)
      | inl missing ↦ subst Leaves (sym (managed_resolver_for_first B ctx name m missing live)) (
          seed_once-IsSound ctx name new_resolver _ (open-IsSound m m.backend m.fresh _ h live)
            live)
    ]
    | inl closed ↦
        subst Leaves
          (sym
            (managed_resolver_for_closed B ctx name m (ap (lookup name) (h.drained closed)) closed))
          h
  ]

  managed_update-IsSound :
      (w : ManagedWatch B) (m : Manager B) → IsSound m → IsSound (managed_update B w m)
  unfolding managed_update refresh_named lookup
  managed_update-IsSound w m h =
      let (answer, s) = B.resolve w.ctx w.name w.tag m.backend in
      record {
        on_base = h.on_base;
        base_cancelled = h.base_cancelled;
        drained = λ c. ap (refresh_named B w.name answer) (h.drained c);
        done_closed = h.done_closed;
      }

  drain-IsSound : (m : Manager B) → IsSound m → IsSound (drain B m)
  unfolding drain
  drain-IsSound m h = record {
    on_base = h.on_base;
    base_cancelled = λ c. refl;
    drained = λ c. refl;
    done_closed = λ c. refl;
  }

  close_backend-closed :
      (f : Option (B.State → Option Error × B.State)) (m : Manager B)
      → (close_backend B f m).1.closed ≡ m.closed
  unfolding close_backend
  close_backend-closed none m = refl
  close_backend-closed (some f) m = refl

  close_backend-IsSound :
      (f : Option (B.State → Option Error × B.State)) (m : Manager B)
      → IsSound m
      → IsSound (close_backend B f m).1
  unfolding close_backend
  close_backend-IsSound none m h = h
  close_backend-IsSound (some f) m h = backend-IsSound m (f m.backend).1 h

  pub do_close-IsSound :
      (m : Manager B) → IsSound m → IsSound (do_close B m).1 × ((do_close B m).1.closed ≡ true)
  unfolding do_close drain
  do_close-IsSound m h = elim (Bool-cases m.has_registry) [
    | inl set ↦
        subst (λ (x : Option Error × Manager B). IsSound x.1 × (x.1.closed ≡ true))
          (sym (if_true m.has_registry _ set))
          (
            close_backend-IsSound B.close (drain B m) (drain-IsSound m h),
            close_backend-closed B.close (drain B m),
          )
    | inr unset ↦
        subst (λ (x : Option Error × Manager B). IsSound x.1 × (x.1.closed ≡ true))
          (sym (if_false m.has_registry _ unset)) (drain-IsSound m h, refl)
  ]

  pub close-IsSound : (m : Manager B) → IsSound m → IsSound (close B m).1
  unfolding close Leaves
  close-IsSound m h = elim (Bool-cases m.close_done) [
    | inl done ↦ subst Leaves (sym (if_true m.close_done _ done)) h
    | inr first ↦
        let (k, closed) = do_close-IsSound m h in
        subst Leaves (sym (if_false m.close_done _ first)) (record {
          on_base = k.on_base;
          base_cancelled = k.base_cancelled;
          drained = k.drained;
          done_closed = λ d. closed;
        })
  ]

  register_checked-IsSound :
      (ctx : Ctx) (r : Result Service) (m : Manager B)
      → IsSound m
      → IsSound (register_checked p B ctx r m).1
  unfolding register_checked
  register_checked-IsSound ctx (err e) m h = h
  register_checked-IsSound ctx (ok svc) m h = backend-IsSound m (B.register ctx svc m.backend).1 h

  register-IsSound :
      (ctx : Ctx) (svc : Service) (m : Manager B) → IsSound m → IsSound (register p B ctx svc m).1
  unfolding register Leaves
  register-IsSound ctx svc m h =
      let s = advertised m.config svc in
      if-All Leaves m.config.enabled _ _
        (if-All Leaves (is_some s.external || is_some s.internal) _ _
          (register_checked-IsSound ctx (apply_health_check p (tagged p B m s)) m h) h)
        h

  deregister-IsSound :
      (ctx : Ctx) (id : String) (m : Manager B) → IsSound m → IsSound (deregister B ctx id m).1
  unfolding deregister Leaves
  deregister-IsSound ctx id m h = if-All Leaves m.config.enabled _ _ (backend-IsSound m _ h) h

  watch-IsSound :
      (ctx : Ctx) (name : String) (m : Manager B) → IsSound m → IsSound (watch B ctx name m).1
  unfolding watch Leaves
  watch-IsSound ctx name m h = if-All Leaves m.config.enabled _ _ (backend-IsSound m _ h) h

  Step-IsSound : {m n : Manager B} → Step m n → IsSound m → IsSound n
  Step-IsSound {m} (resolves ctx name) h = managed_resolver_for-IsSound ctx name m h
  Step-IsSound {m} (updates w) h = managed_update-IsSound w m h
  Step-IsSound {m} closes h = close-IsSound m h
  Step-IsSound {m} (registers ctx svc) h = register-IsSound ctx svc m h
  Step-IsSound {m} (deregisters ctx id) h = deregister-IsSound ctx id m h
  Step-IsSound {m} (watches_name ctx name) h = watch-IsSound ctx name m h

  pub Steps-IsSound : {m n : Manager B} → Steps m n → IsSound m → IsSound n
  Steps-IsSound none_left h = h
  Steps-IsSound (one_more hs s) h = Step-IsSound s (Steps-IsSound hs h)
