-- ===== src/Manager/Concurrent/First.antt =====
-- The critical sections of `managedResolverFor` in front of `once.Do`.
use lib_service_discovery.Common.{
  ℕ, suc, String, ◌≡◌, refl, sym, ap, ◌∙◌, subst, inl, inr, false, none, some, List, [], ◌∷◌, arith,
  if◌then◌else◌, All, Bool-cases, Option-cases, if_true, if_false, ◌==◌, eq_iff, eq_refl,
}
use lib_service_discovery.Common.Dict.{lookup, insert, lookup-insert}
use lib_service_discovery.Manager.Concurrent.{
  Call, outside, missed, found, seeding, starting, opening, returned, degraded, Shared, put,
  look_up, create,
}
use lib_service_discovery.Manager.Concurrent.Steps.{At, Holds, is_seeding, Inv, put-All, move-Inv}

module _ (s : Shared) (inv : Inv s) where
  mapped-born :
      (name : String) (p : ℕ) → lookup name s.resolvers ≡ some p → lookup name s.born ≡ some p
  unfolding lookup
  mapped-born name p h = elim (Bool-cases s.closed) [
    | inr open_ ↦ sym (inv.mapped open_ name) ∙ h
    | inl closed ↦ cc (ap (lookup name) (inv.drained closed))
  ]

  pub look_up-Inv : (i : ℕ) (name : String) → Inv (look_up i name s)
  unfolding look_up
  look_up-Inv i name = elim (Option-cases (lookup name s.resolvers)) [
    | inl missing ↦ rw (look_up, missing) (move-Inv s inv i (missed name) tt tt (λ p. refl))
    | inr (p, there) ↦
        rw (look_up, there)
          (move-Inv s inv i (found name p) (mapped-born name p there) tt (λ q. refl))
  ]

  lookup-insert_new :
      (name other : String) (p q : ℕ)
      → lookup name s.born ≡ none
      → lookup other s.born ≡ some q
      → lookup other (insert name p s.born) ≡ some q
  lookup-insert_new name other p q new old =
      ground (arith, lookup-insert name other p s.born, eq_iff name other)

  At-insert :
      (name : String) (p : ℕ) (c : Call)
      → lookup name s.born ≡ none
      → At s.born c
      → At (insert name p s.born) c
  At-insert name p outside new h = tt
  At-insert name p (missed other) new h = tt
  At-insert name p (found other q) new h = lookup-insert_new name other p q new h
  At-insert name p (seeding other q) new h = lookup-insert_new name other p q new h
  At-insert name p (starting other q) new h = lookup-insert_new name other p q new h
  At-insert name p (opening other q t ctx) new h = lookup-insert_new name other p q new h
  At-insert name p (returned other q) new h = lookup-insert_new name other p q new h
  At-insert name p (degraded other) new h = tt

  All-insert :
      (name : String) (p : ℕ) (qs : List (String × ℕ))
      → lookup name s.born ≡ none
      → All (λ (q : String × ℕ). lookup q.0 s.born ≡ some q.1) qs
      → All (λ (q : String × ℕ). lookup q.0 (insert name p s.born) ≡ some q.1) qs
  All-insert name p [] new h = tt
  All-insert name p (q ∷ qs) new (h, hs) =
      (lookup-insert_new name q.0 p q.1 new h, All-insert name p qs new hs)

  -- A new resolver, in an open manager.
  fresh-Inv :
      (i : ℕ) (name : String)
      → s.closed ≡ false
      → lookup name s.resolvers ≡ none
      → Inv (record s {
        resolvers = insert name s.next s.resolvers;
        born = insert name s.next s.born;
        next = suc s.next;
        calls = put i (found name s.next) s.calls;
      })
  fresh-Inv i name open_ missing =
      let new : (lookup name s.born ≡ none) = sym (inv.mapped open_ name) ∙ missing in
      record {
        mapped = λ h other.
            lookup-insert name other s.next s.resolvers
            ∙ ap (λ o. if name == other then some s.next else o) (inv.mapped open_ other)
            ∙ sym (lookup-insert name other s.next s.born);
        drained = λ h. cc;
        ended = inv.ended;
        placed =
            put-All (λ j d. At (insert name s.next s.born) d) i (found name s.next) s.calls
              (lookup-insert name name s.next s.born ∙ (rw (eq_refl name)))
              (λ j other. At-insert name s.next (s.calls j) new (inv.placed j));
        holds = put-All (Holds s.once) i (found name s.next) s.calls tt (λ j other. inv.holds j);
        born_seeds = All-insert name s.next s.seeds new inv.born_seeds;
        late = λ p h. (
          (inv.late p h).0,
          put-All (λ j d. is_seeding p d ≡ false) i (found name s.next) s.calls refl
              (λ j other. (inv.late p h).1 j),
        );
        once_each = inv.once_each;
      }

  pub create-Inv : (i : ℕ) (name : String) → Inv (create i name s)
  unfolding create
  create-Inv i name = elim (Bool-cases s.closed) [
    | inl closed ↦
        subst Inv (sym (if_true s.closed _ closed))
          (move-Inv s inv i (degraded name) tt tt (λ p. refl))
    | inr open_ ↦ subst Inv (sym (if_false s.closed _ open_)) (go open_)
  ]
    where
      go :
          s.closed ≡ false
          → Inv (elim (lookup name s.resolvers) [
            | some p ↦ record s { calls = put i (found name p) s.calls }
            | none ↦ record s {
              resolvers = insert name s.next s.resolvers;
              born = insert name s.next s.born;
              next = suc s.next;
              calls = put i (found name s.next) s.calls;
            }
          ])
      go open_ = elim (Option-cases (lookup name s.resolvers)) [
        | inr (p, there) ↦
            rw there (move-Inv s inv i (found name p) (mapped-born name p there) tt (λ q. refl))
        | inl missing ↦ rw missing (fresh-Inv i name open_ missing)
      ]
