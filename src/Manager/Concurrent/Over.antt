-- ===== src/Manager/Concurrent/Over.antt =====
-- What `Close` ends, in every order of it and first resolves.
use lib_service_discovery.Common.{
  ℕ, String, ◌≡◌, refl, sym, subst, inl, inr, true, Option, none, some, List, [], ◌∷◌, ◌++◌, arith,
  nat_eq, All, contains, Bool-cases, if◌then◌else◌,
}
use lib_service_discovery.Common.Dict.{Dict}
use lib_service_discovery.Context.{Ctx, is_done}
use lib_service_discovery.Manager.{base_token}
use lib_service_discovery.Manager.Concurrent.{Shared, close_shared, stop_mapped}
use lib_service_discovery.Consul.Heartbeat.Steps.{All-map}
use lib_service_discovery.Manager.Lifecycle.Cancels.{contains-append}
use lib_service_discovery.Manager.Concurrent.Steps.{Reach, closes, next_step, Inv}
use lib_service_discovery.Manager.Concurrent.Kept.{Reach-Inv}
use lib_service_discovery.Manager.Concurrent.Hanging.{OnBase, Reach-OnBase}
use lib_service_discovery.Manager.Concurrent.Later.{
  Later, Later-Reach, Later-closed, Later-cancelled,
}

-- A resolver's own `cancel` was called, if it has one.
abbrev pub IsStopped : List ℕ → Option ℕ → Type 0
IsStopped cancelled none = Unit
IsStopped cancelled (some t) = contains cancelled t ≡ true

-- More cancelled tokens stop no less.
IsStopped-contains :
    (before after : List ℕ) (o : Option ℕ)
    → ((t : ℕ) → contains before t ≡ true → contains after t ≡ true)
    → IsStopped before o
    → IsStopped after o
IsStopped-contains before after none keeps h = tt
IsStopped-contains before after (some t) keeps h = keeps t h

stop_mapped-IsStopped :
    (cancel : ℕ → Option ℕ) (rs : Dict ℕ)
    → All (λ (r : String × ℕ). IsStopped (stop_mapped cancel rs) (cancel r.1)) rs
unfolding stop_mapped
stop_mapped-IsStopped cancel [] = tt
stop_mapped-IsStopped cancel ((name, p) ∷ rs) = go (cancel p) (stop_mapped-IsStopped cancel rs)
  where
    go :
        (o : Option ℕ)
        → All (λ (r : String × ℕ). IsStopped (stop_mapped cancel rs) (cancel r.1)) rs
        → IsStopped (elim o [ none ↦ stop_mapped cancel rs | some t ↦ t ∷ stop_mapped cancel rs ]) o
          × All
              (λ (r : String × ℕ).
                IsStopped
                  (elim o [ none ↦ stop_mapped cancel rs | some t ↦ t ∷ stop_mapped cancel rs ])
                  (cancel r.1))
              rs
    go none rest = (tt, rest)
    go (some t) rest = (
      ground arith,
      All-map _ _ rs
          (λ r.
            IsStopped-contains (stop_mapped cancel rs) (t ∷ stop_mapped cancel rs) (cancel r.1)
              (contains-append (t ∷ []) (stop_mapped cancel rs)))
          rest,
    )

contains-prefix : (xs ys : List ℕ) (t : ℕ) → contains xs t ≡ true → contains (xs ++ ys) t ≡ true
contains-prefix [] ys t h = ground (arith, h)
contains-prefix (x ∷ xs) ys t h = elim (Bool-cases (nat_eq x t)) [
  | inl same ↦ ground (arith, same)
  | inr other ↦
      rw other
        (contains-prefix xs ys t (subst (λ b. (if b then true else contains xs t) ≡ true) other h))
]

All-done :
    (cancelled : List ℕ) (ctxs : List Ctx)
    → contains cancelled base_token ≡ true
    → All OnBase ctxs
    → All (λ ctx. is_done cancelled ctx ≡ true) ctxs
unfolding is_done
All-done cancelled [] h hs = tt
All-done cancelled (ctx ∷ ctxs) h ((t, same), hs) = (
  subst (λ c. is_done cancelled c ≡ true) (sym same) (ground (arith, h)),
  All-done cancelled ctxs h hs,
)

-- Behind a `Close` that met the state `s`.
pub record IsOver (s u : Shared) : Type 0 where
  pub drained : u.resolvers ≡ []
  pub ended : All (λ ctx. is_done u.cancelled ctx ≡ true) u.watches
  pub stopped : All (λ (r : String × ℕ). IsStopped u.cancelled (s.cancel r.1)) s.resolvers

-- In every order of concurrent first resolves, of `Close` and of the steps behind it: the map of
-- resolvers is empty and stays empty, the context of every watch that was started is done, also of one
-- that was started behind `Close`, and the own cancellation of every resolver that `Close` found in the
-- map was called, where it has one.
pub close_shared-IsOver : {s u : Shared} → Reach s → Later (close_shared s) u → IsOver s u
unfolding close_shared
close_shared-IsOver {s} {u} r later =
    let reached : Reach u = Later-Reach later (next_step r closes) in
    let inv : Inv u = Reach-Inv reached in
    let closed : (u.closed ≡ true) = Later-closed later refl in
    let stopped : List ℕ = stop_mapped s.cancel s.resolvers in
    record {
      drained = inv.drained closed;
      ended = All-done u.cancelled u.watches (inv.ended closed) ((Reach-OnBase reached).opened);
      stopped =
          All-map _ _ s.resolvers
            (λ q. IsStopped-contains stopped u.cancelled (s.cancel q.1) (λ t h.
              Later-cancelled t later (
                contains-prefix (base_token ∷ stopped) s.cancelled t
                  (contains-append (base_token ∷ []) stopped t h))))
            (stop_mapped-IsStopped s.cancel s.resolvers);
    }
