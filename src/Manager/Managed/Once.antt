-- ===== src/Manager/Managed/Once.antt =====
-- managed_resolver.go: a name's resolver is seeded once.
use lib_service_discovery.Common.{
  ℕ, String, ◌≡◌, refl, subst, ◌∙◌, ap, sym, ◌⊎◌, inl, inr, true, false, Option, none, some,
  if◌then◌else◌, Bool-cases, Option-cases, eq_refl,
}
use lib_service_discovery.Common.Dict.{lookup, insert, lookup-insert}
use lib_service_discovery.Context.{Ctx}
use lib_service_discovery.Errors.{Error, Result, ok, err}
use lib_service_discovery.Types.{Service}
use lib_service_discovery.Backend.{Backend}
use lib_service_discovery.Resolver.{Resolver, new_resolver, seed_with}
use lib_service_discovery.Manager.{Manager}
use lib_service_discovery.Manager.Managed.{
  watch_started, start_managed_watch, seed_managed_resolver, seed_once, managed_resolver_for,
}

seed_with-once : (r : Result Service) (mr : Resolver) → (seed_with r mr).once ≡ mr.once
unfolding seed_with
seed_with-once (ok svc) mr = refl
seed_with-once (err e) mr = refl

module _ (B : Backend) where
  watch_started-resolvers :
      (name tag : String) (t : ℕ) (stream : B.Stream) (e : Option Error) (m : Manager B)
      → (watch_started B name tag t stream e m).resolvers ≡ m.resolvers
  unfolding watch_started
  watch_started-resolvers name tag t stream none m = refl
  watch_started-resolvers name tag t stream (some e) m = refl

  start_managed_watch-once :
      (name tag : String) (mr : Resolver) (m : Manager B)
      → (start_managed_watch B name tag mr m).0.once ≡ mr.once
  unfolding start_managed_watch
  start_managed_watch-once name tag mr m = refl

  start_managed_watch-lookup :
      (name tag : String) (mr : Resolver) (m : Manager B)
      → lookup name (start_managed_watch B name tag mr m).1.resolvers
        ≡ some (start_managed_watch B name tag mr m).0
  unfolding start_managed_watch
  start_managed_watch-lookup name tag mr m =
      let (stream, e, s) = B.watch _ name m.backend in
      ap (lookup name) (watch_started-resolvers name tag m.fresh stream e _)
      ∙ lookup-insert name name _ m.resolvers
      ∙ (rw (eq_refl name))

  -- The resolver stands in the map, and its seed has run.
  abbrev pub Seeded : String → Resolver × Manager B → Type 0
  Seeded name used = (lookup name used.1.resolvers ≡ some used.0) × (used.0.once ≡ true)

  seed_managed_resolver-Seeded :
      (ctx : Ctx) (name : String) (mr : Resolver) (m : Manager B)
      → mr.once ≡ true
      → Seeded name (seed_managed_resolver B ctx name mr m)
  unfolding seed_managed_resolver
  seed_managed_resolver-Seeded ctx name mr m h =
      let (answer, s) = B.resolve _ name _ m.backend in
      (
        start_managed_watch-lookup name _ (seed_with answer mr) (record m { backend = s }),
        start_managed_watch-once name _ (seed_with answer mr) (record m { backend = s })
            ∙ seed_with-once answer mr
            ∙ h,
      )

  seed_once-Seeded :
      (ctx : Ctx) (name : String) (mr : Resolver) (m : Manager B)
      → lookup name m.resolvers ≡ some mr
      → Seeded name (seed_once B ctx name mr m)
  unfolding seed_once
  seed_once-Seeded ctx name mr m found = elim (Bool-cases mr.once) [
    | inl done ↦ simp done (found, refl)
    | inr new ↦ simp new (seed_managed_resolver-Seeded ctx name (record mr { once = true }) m refl)
  ]

  pub managed_resolver_for_first :
      (ctx : Ctx) (name : String) (m : Manager B)
      → lookup name m.resolvers ≡ none
      → m.closed ≡ false
      → managed_resolver_for B ctx name m
        ≡ seed_once B ctx name new_resolver
            (record m { resolvers = insert name new_resolver m.resolvers })
  unfolding managed_resolver_for
  managed_resolver_for_first ctx name m missing live =
      rw (managed_resolver_for, missing)
        (ap
          (λ c.
            if c
            then (new_resolver, m)
            else seed_once B ctx name new_resolver
                (record m { resolvers = insert name new_resolver m.resolvers }))
          live)

  -- What a resolver that is used leaves: a seeded one in the map, or none in a closed manager.
  managed_resolver_for_cases :
      (ctx : Ctx) (name : String) (m : Manager B)
      → Seeded name (managed_resolver_for B ctx name m)
        ⊎ ((lookup name m.resolvers ≡ none)
            × (m.closed ≡ true)
            × (managed_resolver_for B ctx name m ≡ (new_resolver, m)))
  unfolding managed_resolver_for
  managed_resolver_for_cases ctx name m = elim (Option-cases (lookup name m.resolvers)) [
    | inr (mr, found) ↦
        inl (rw (managed_resolver_for, found) (seed_once-Seeded ctx name mr m found))
    | inl missing ↦ elim (Bool-cases m.closed) [
      | inl closed ↦ inr (missing, closed, rw (managed_resolver_for, missing) (simp closed refl))
      | inr live ↦ inl (
          subst (Seeded name) (sym (managed_resolver_for_first ctx name m missing live)) (
            seed_once-Seeded ctx name new_resolver
              (record m { resolvers = insert name new_resolver m.resolvers })
              (lookup-insert name name new_resolver m.resolvers ∙ (rw (eq_refl name)))))
    ]
  ]

  managed_resolver_for-cached :
      (ctx : Ctx) (name : String) (m : Manager B) (mr : Resolver)
      → lookup name m.resolvers ≡ some mr
      → mr.once ≡ true
      → managed_resolver_for B ctx name m ≡ (mr, m)
  unfolding managed_resolver_for seed_once
  managed_resolver_for-cached ctx name m mr found done =
      rw (managed_resolver_for, found) (simp done refl)

  pub managed_resolver_for_closed :
      (ctx : Ctx) (name : String) (m : Manager B)
      → lookup name m.resolvers ≡ none
      → m.closed ≡ true
      → managed_resolver_for B ctx name m ≡ (new_resolver, m)
  unfolding managed_resolver_for
  managed_resolver_for_closed ctx name m missing closed =
      rw (managed_resolver_for, missing) (simp closed refl)

  -- Asking for a resolver a second time, from any context, answers with the same resolver and changes
  -- nothing: the registry is asked for a name at most once.
  pub managed_resolver_for_idem :
      (ctx later : Ctx) (name : String) (m : Manager B)
      → let used = managed_resolver_for B ctx name m in
        managed_resolver_for B later name used.1 ≡ used
  managed_resolver_for_idem ctx later name m = elim (managed_resolver_for_cases ctx name m) [
    | inl (found, done) ↦ managed_resolver_for-cached later name _ _ found done
    | inr (missing, closed, same) ↦
        rw same (managed_resolver_for_closed later name m missing closed)
  ]

  watch_started-config :
      (name tag : String) (t : ℕ) (stream : B.Stream) (e : Option Error) (m : Manager B)
      → (watch_started B name tag t stream e m).config ≡ m.config
  unfolding watch_started
  watch_started-config name tag t stream none m = refl
  watch_started-config name tag t stream (some e) m = refl

  seed_once-config :
      (ctx : Ctx) (name : String) (mr : Resolver) (m : Manager B)
      → (seed_once B ctx name mr m).1.config ≡ m.config
  unfolding seed_once seed_managed_resolver start_managed_watch
  seed_once-config ctx name mr m = elim (Bool-cases mr.once) [
    | inl done ↦ rw done refl
    | inr new ↦
        let (answer, s) = B.resolve _ name _ m.backend in
        let (stream, e, s₁) = B.watch _ name s in
        rw new (watch_started-config name _ m.fresh stream e _)
  ]

  pub managed_resolver_for-config :
      (ctx : Ctx) (name : String) (m : Manager B)
      → (managed_resolver_for B ctx name m).1.config ≡ m.config
  unfolding managed_resolver_for
  managed_resolver_for-config ctx name m = elim (Option-cases (lookup name m.resolvers)) [
    | inr (mr, found) ↦ rw (managed_resolver_for, found) (seed_once-config ctx name mr m)
    | inl missing ↦ elim (Bool-cases m.closed) [
      | inl closed ↦ ap (λ x. x.1.config) (managed_resolver_for_closed ctx name m missing closed)
      | inr live ↦
          ap (λ x. x.1.config) (managed_resolver_for_first ctx name m missing live)
          ∙ seed_once-config ctx name new_resolver _
    ]
  ]
