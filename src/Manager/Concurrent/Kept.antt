-- ===== src/Manager/Concurrent/Kept.antt =====
-- The critical sections behind `once.Do`, and that of `Close`.
use lib_service_discovery.Common.{
  ℕ, String, ◌≡◌, ◌≢◌, refl, sym, ap, ◌∙◌, subst, inl, inr, Bool, true, false, List, ◌∷◌, arith,
  nat_eq, contains, Bool-cases, if_false,
}
use lib_service_discovery.Context.{Ctx, with_cancel}
use lib_service_discovery.Manager.{base_token, base_ctx}
use lib_service_discovery.Manager.Concurrent.{
  OnceState, unused, held, finished, found, seeding, starting, opening, returned, Shared, put,
  enter_once, seed, derive, open_watch, close_shared,
}
use lib_service_discovery.Manager.Concurrent.Steps.{
  Step, looks_up, creates, enters, seeds, derives, opens, closes, Reach, start, next_step, At,
  Holds, is_seeding, was_seeded, Inv, Inv-quiet, eq_of_nat_eq, put-All, move-Inv,
}
use lib_service_discovery.Manager.Concurrent.First.{look_up-Inv, create-Inv}
use lib_service_discovery.Manager.Concurrent.Onces.{
  nat_eq_self, put_self, is_unused, is_held_by, Holds-put, not_seeding, put-used, held-used,
  finished-used,
}

module _ (s : Shared) (inv : Inv s) where
  -- A seeded pointer is not one whose once is unused.
  not_late : (p : ℕ) → s.once p ≡ unused → was_seeded p s.seeds ≡ false
  not_late p new = elim (Bool-cases (was_seeded p s.seeds)) [
    | inl old ↦ absurd ((inv.late p old).0 new)
    | inr fresh_one ↦ fresh_one
  ]

  take-Inv :
      (i : ℕ) (name : String) (p : ℕ)
      → s.calls i ≡ found name p
      → s.once p ≡ unused
      → Inv (record s { once = put p (held i) s.once; calls = put i (seeding name p) s.calls })
  unfolding is_unused
  take-Inv i name p at new = record {
    mapped = inv.mapped;
    drained = inv.drained;
    ended = inv.ended;
    placed =
        put-All (λ j d. At s.born d) i (seeding name p) s.calls
          (subst (At s.born) at (inv.placed i)) (λ j other. inv.placed j);
    holds =
        put-All (Holds (put p (held i) s.once)) i (seeding name p) s.calls
          (put_self p (held i) s.once)
          (λ j other.
            Holds-put is_unused s.once p j (held i) (s.calls j) (ap is_unused new) refl refl
              (inv.holds j));
    born_seeds = inv.born_seeds;
    late = λ q h. (
      put-used s.once p q (held i) (held-used i) (inv.late q h).0,
      put-All (λ j d. is_seeding q d ≡ false) i (seeding name p) s.calls (apart q h)
          (λ j other. (inv.late q h).1 j),
    );
    once_each = inv.once_each;
  }
    where
      apart : (q : ℕ) → was_seeded q s.seeds ≡ true → nat_eq q p ≡ false
      apart q h = elim (Bool-cases (nat_eq q p)) [
        | inr other ↦ other
        | inl same ↦ absurd ((inv.late q h).0 (ap s.once (eq_of_nat_eq q p same) ∙ new))
      ]

  enter_once-Inv :
      (i : ℕ) (name : String) (p : ℕ) → s.calls i ≡ found name p → Inv (enter_once i name p s)
  unfolding enter_once
  enter_once-Inv i name p at = go (s.once p) refl
    where
      go :
          (o : OnceState)
          → s.once p ≡ o
          → Inv (elim o [
            | unused ↦ record s {
              once = put p (held i) s.once;
              calls = put i (seeding name p) s.calls;
            }
            | held j ↦ s
            | finished ↦ record s { calls = put i (returned name p) s.calls }
          ])
      go unused h = take-Inv i name p at h
      go (held j) h = inv
      go finished h =
          move-Inv s inv i (returned name p) (subst (At s.born) at (inv.placed i)) h (λ q. refl)

  seed-Inv : (i : ℕ) (name : String) (p : ℕ) → s.calls i ≡ seeding name p → Inv (seed i name p s)
  unfolding seed
  seed-Inv i name p at =
      let here : (s.once p ≡ held i) = subst (Holds s.once i) at (inv.holds i) in
      record {
        mapped = inv.mapped;
        drained = inv.drained;
        ended = inv.ended;
        placed =
            put-All (λ j d. At s.born d) i (starting name p) s.calls
              (subst (At s.born) at (inv.placed i)) (λ j other. inv.placed j);
        holds = put-All (Holds s.once) i (starting name p) s.calls here (λ j other. inv.holds j);
        born_seeds = (subst (At s.born) at (inv.placed i), inv.born_seeds);
        late = λ q h. elim (Bool-cases (nat_eq q p)) [
          | inl same ↦
              let e : (q ≡ p) = eq_of_nat_eq q p same in
              (
                subst (λ n. s.once n ≢ unused) (sym e) (λ new. held-used i (sym here ∙ new)),
                put-All (λ j d. is_seeding q d ≡ false) i (starting name p) s.calls refl
                    (λ j other.
                      not_seeding s.once q i j (s.calls j) (ap s.once e ∙ here) other
                        (inv.holds j)),
              )
          | inr other ↦
              let old : (was_seeded q s.seeds ≡ true) = sym (if_false (nat_eq q p) _ other) ∙ h in
              (
                (inv.late q old).0,
                put-All (λ j d. is_seeding q d ≡ false) i (starting name p) s.calls refl
                    (λ j apart. (inv.late q old).1 j),
              )
        ];
        once_each = (first_seed i name p at, inv.once_each);
      }
    where
      first_seed :
          (i : ℕ) (name : String) (p : ℕ)
          → s.calls i ≡ seeding name p
          → was_seeded p s.seeds ≡ false
      first_seed i name p at = elim (Bool-cases (was_seeded p s.seeds)) [
        | inr new ↦ new
        | inl old ↦ cc (sym ((inv.late p old).1 i) ∙ ap (is_seeding p) at ∙ nat_eq_self p)
      ]

  derive-Inv :
      (i : ℕ) (name : String) (p : ℕ) → s.calls i ≡ starting name p → Inv (derive i name p s)
  unfolding derive
  derive-Inv i name p at = record {
    mapped = inv.mapped;
    drained = inv.drained;
    ended = inv.ended;
    placed =
        put-All (λ j d. At s.born d) i (opening name p s.fresh (with_cancel s.fresh base_ctx))
          s.calls (subst (At s.born) at (inv.placed i)) (λ j other. inv.placed j);
    holds =
        put-All (Holds s.once) i (opening name p s.fresh (with_cancel s.fresh base_ctx)) s.calls
          (subst (Holds s.once i) at (inv.holds i)) (λ j other. inv.holds j);
    born_seeds = inv.born_seeds;
    late = λ q h. (
      (inv.late q h).0,
      put-All (λ j d. is_seeding q d ≡ false) i
          (opening name p s.fresh (with_cancel s.fresh base_ctx)) s.calls refl
          (λ j other. (inv.late q h).1 j),
    );
    once_each = inv.once_each;
  }

  -- The end of a once that the goroutine holds.
  finish-Inv :
      (i : ℕ) (name : String) (p t : ℕ) (ctx : Ctx) (watches : List Ctx) (cancelled : List ℕ)
      → s.calls i ≡ opening name p t ctx
      → (contains s.cancelled base_token ≡ true → contains cancelled base_token ≡ true)
      → Inv (record s {
        watches = watches;
        cancelled = cancelled;
        once = put p finished s.once;
        calls = put i (returned name p) s.calls;
      })
  unfolding is_held_by
  finish-Inv i name p t ctx watches cancelled at more =
      let here : (s.once p ≡ held i) = subst (Holds s.once i) at (inv.holds i) in
      record {
        mapped = inv.mapped;
        drained = inv.drained;
        ended = λ h. more (inv.ended h);
        placed =
            put-All (λ j d. At s.born d) i (returned name p) s.calls
              (subst (At s.born) at (inv.placed i)) (λ j other. inv.placed j);
        holds =
            put-All (Holds (put p finished s.once)) i (returned name p) s.calls
              (put_self p finished s.once)
              (λ j other.
                Holds-put (is_held_by i) s.once p j finished (s.calls j)
                  (ap (is_held_by i) here ∙ nat_eq_self i) other refl (inv.holds j));
        born_seeds = inv.born_seeds;
        late = λ q h. (
          put-used s.once p q finished finished-used (inv.late q h).0,
          put-All (λ j d. is_seeding q d ≡ false) i (returned name p) s.calls refl
              (λ j other. (inv.late q h).1 j),
        );
        once_each = inv.once_each;
      }

  open_watch-Inv :
      (i : ℕ) (name : String) (p t : ℕ) (ctx : Ctx) (succeeds : Bool)
      → s.calls i ≡ opening name p t ctx
      → Inv (open_watch i name p t ctx succeeds s)
  unfolding open_watch
  open_watch-Inv i name p t ctx true at =
      finish-Inv i name p t ctx (ctx ∷ s.watches) s.cancelled at (λ h. h)
  open_watch-Inv i name p t ctx false at =
      finish-Inv i name p t ctx s.watches (t ∷ s.cancelled) at (λ h. ground (arith, h))

  close_shared-Inv : Inv (close_shared s)
  unfolding close_shared
  close_shared-Inv = record {
    mapped = λ h. cc;
    drained = λ h. refl;
    ended = λ h. refl;
    placed = inv.placed;
    holds = inv.holds;
    born_seeds = inv.born_seeds;
    late = inv.late;
    once_each = inv.once_each;
  }

Step-Inv : {s t : Shared} → Step s t → Inv s → Inv t
Step-Inv {s} (looks_up i name at) inv = look_up-Inv s inv i name
Step-Inv {s} (creates i name at) inv = create-Inv s inv i name
Step-Inv {s} (enters i name p at) inv = enter_once-Inv s inv i name p at
Step-Inv {s} (seeds i name p at) inv = seed-Inv s inv i name p at
Step-Inv {s} (derives i name p at) inv = derive-Inv s inv i name p at
Step-Inv {s} (opens i name p t ctx succeeds at) inv =
    open_watch-Inv s inv i name p t ctx succeeds at
Step-Inv {s} closes inv = close_shared-Inv s inv

pub Reach-Inv : {s : Shared} → Reach s → Inv s
Reach-Inv start = Inv-quiet
Reach-Inv (next_step r st) = Step-Inv st (Reach-Inv r)
