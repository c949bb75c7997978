-- ===== src/Manager/Concurrent/Hanging.antt =====
-- What the contexts of the watches of Manager/Concurrent hang on, and what stays cancelled.
use lib_service_discovery.Common.{
  ℕ, suc, String, Option, ◌≡◌, refl, subst, Bool, none, some, List, All, if-All,
}
use lib_service_discovery.Common.Dict.{lookup, insert}
use lib_service_discovery.Context.{Ctx, with_cancel}
use lib_service_discovery.Manager.{base_ctx}
use lib_service_discovery.Manager.Concurrent.{
  OnceState, unused, held, finished, Call, outside, missed, found, seeding, starting, opening,
  returned, degraded, Shared, put, look_up, create, enter_once, seed, derive, open_watch,
  close_shared,
}
use lib_service_discovery.Manager.Concurrent.Steps.{
  Step, looks_up, creates, enters, seeds, derives, opens, closes, Reach, start, next_step, put-All,
}

-- A context that the manager's base context ends.
abbrev pub OnBase : Ctx → Type 0
OnBase ctx = (t : ℕ) × (ctx ≡ with_cancel t base_ctx)

-- The context that a goroutine is about to open a watch with.
abbrev Hangs : Call → Type 0
Hangs outside = Unit
Hangs (missed name) = Unit
Hangs (found name p) = Unit
Hangs (seeding name p) = Unit
Hangs (starting name p) = Unit
Hangs (opening name p t ctx) = OnBase ctx
Hangs (returned name p) = Unit
Hangs (degraded name) = Unit

pub record AreOnBase (watches : List Ctx) (calls : ℕ → Call) : Type 0 where
  pub opened : All OnBase watches
  pub to_open : (i : ℕ) → Hangs (calls i)

abbrev pub HangOnBase : Shared → Type 0
HangOnBase s = AreOnBase s.watches s.calls

module _ (s : Shared) (h : HangOnBase s) where
  -- A goroutine moves to a place without a context, or with one on the base context.
  move-AreOnBase : (i : ℕ) (c : Call) → Hangs c → AreOnBase s.watches (put i c s.calls)
  move-AreOnBase i c hangs = record {
    opened = h.opened;
    to_open = put-All (λ j d. Hangs d) i c s.calls hangs (λ j other. h.to_open j);
  }

  look_up-OnBase : (i : ℕ) (name : String) → HangOnBase (look_up i name s)
  unfolding look_up
  look_up-OnBase i name = go (lookup name s.resolvers)
    where
      go :
          (o : Option ℕ)
          → HangOnBase (elim o [
            | some p ↦ record s { calls = put i (found name p) s.calls }
            | none ↦ record s { calls = put i (missed name) s.calls }
          ])
      go (some p) = move-AreOnBase i (found name p) tt
      go none = move-AreOnBase i (missed name) tt

  create-OnBase : (i : ℕ) (name : String) → HangOnBase (create i name s)
  unfolding create
  create-OnBase i name =
      if-All HangOnBase s.closed _ _ (move-AreOnBase i (degraded name) tt)
        (go (lookup name s.resolvers))
    where
      go :
          (o : Option ℕ)
          → HangOnBase (elim o [
            | some p ↦ record s { calls = put i (found name p) s.calls }
            | none ↦ record s {
              resolvers = insert name s.next s.resolvers;
              born = insert name s.next s.born;
              next = suc s.next;
              calls = put i (found name s.next) s.calls;
            }
          ])
      go (some p) = move-AreOnBase i (found name p) tt
      go none = move-AreOnBase i (found name s.next) tt

  enter_once-OnBase : (i : ℕ) (name : String) (p : ℕ) → HangOnBase (enter_once i name p s)
  unfolding enter_once
  enter_once-OnBase i name p = go (s.once p)
    where
      go :
          (o : OnceState)
          → HangOnBase (elim o [
            | unused ↦ record s {
              once = put p (held i) s.once;
              calls = put i (seeding name p) s.calls;
            }
            | held j ↦ s
            | finished ↦ record s { calls = put i (returned name p) s.calls }
          ])
      go unused = move-AreOnBase i (seeding name p) tt
      go (held j) = h
      go finished = move-AreOnBase i (returned name p) tt

  open_watch-OnBase :
      (i : ℕ) (name : String) (p t : ℕ) (ctx : Ctx) (succeeds : Bool)
      → s.calls i ≡ opening name p t ctx
      → HangOnBase (open_watch i name p t ctx succeeds s)
  unfolding open_watch
  open_watch-OnBase i name p t ctx succeeds at =
      let back : AreOnBase s.watches (put i (returned name p) s.calls) =
        move-AreOnBase i (returned name p) tt in
      if-All HangOnBase succeeds _ _
        (record { opened = (subst Hangs at (h.to_open i), h.opened); to_open = back.to_open }) back

Step-OnBase : {s t : Shared} → Step s t → HangOnBase s → HangOnBase t
unfolding seed derive close_shared
Step-OnBase {s} (looks_up i name at) h = look_up-OnBase s h i name
Step-OnBase {s} (creates i name at) h = create-OnBase s h i name
Step-OnBase {s} (enters i name p at) h = enter_once-OnBase s h i name p
Step-OnBase {s} (seeds i name p at) h = move-AreOnBase s h i (starting name p) tt
Step-OnBase {s} (derives i name p at) h =
    move-AreOnBase s h i (opening name p s.fresh (with_cancel s.fresh base_ctx)) (s.fresh, refl)
Step-OnBase {s} (opens i name p t ctx succeeds at) h =
    open_watch-OnBase s h i name p t ctx succeeds at
Step-OnBase closes h = h

pub Reach-OnBase : {s : Shared} → Reach s → HangOnBase s
Reach-OnBase start = record { opened = tt; to_open = λ i. tt }
Reach-OnBase (next_step r st) = Step-OnBase st (Reach-OnBase r)
