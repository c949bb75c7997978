-- ===== src/Manager/Concurrent/Later.antt =====
-- What no step of Manager/Concurrent takes back: that the manager is closed, and the cancellation of a
-- token.
use lib_service_discovery.Common.{ℕ, String, ◌≡◌, refl, ◌∙◌, ap, Bool, true, ◌∷◌, arith, contains}
use lib_service_discovery.Context.{Ctx}
use lib_service_discovery.Manager.{base_token}
use lib_service_discovery.Manager.Lifecycle.Cancels.{contains-append}
use lib_service_discovery.Manager.Concurrent.{
  Shared, look_up, create, enter_once, seed, derive, open_watch, close_shared, stop_mapped,
}
use lib_service_discovery.Manager.Concurrent.Steps.{
  Step, looks_up, creates, enters, seeds, derives, opens, closes, Reach, next_step,
}

-- Steps from a state on.
pub data Later (s : Shared) : Shared → Type 0 where
  now : Later s s
  then_step : {t u : Shared} → Later s t → Step t u → Later s u

pub Later-Reach : {s t : Shared} → Later s t → Reach s → Reach t
Later-Reach now r = r
Later-Reach (then_step l st) r = next_step (Later-Reach l r) st

record Keeps (s u : Shared) : Type 0 where
  pub closed : s.closed ≡ true → u.closed ≡ true
  pub cancelled : (t : ℕ) → contains s.cancelled t ≡ true → contains u.cancelled t ≡ true

-- Both fields are the same.
same-Keeps : {s u : Shared} → u.closed ≡ s.closed → u.cancelled ≡ s.cancelled → Keeps s u
same-Keeps c k = record { closed = λ h. c ∙ h; cancelled = λ t h. ap (λ xs. contains xs t) k ∙ h }

look_up-Keeps : (i : ℕ) (name : String) (s : Shared) → Keeps s (look_up i name s)
unfolding look_up
look_up-Keeps i name s = same-Keeps (ground arith) (ground arith)

create-Keeps : (i : ℕ) (name : String) (s : Shared) → Keeps s (create i name s)
unfolding create
create-Keeps i name s = same-Keeps (ground arith) (ground arith)

enter_once-Keeps : (i : ℕ) (name : String) (p : ℕ) (s : Shared) → Keeps s (enter_once i name p s)
unfolding enter_once
enter_once-Keeps i name p s = same-Keeps (ground arith) (ground arith)

open_watch-Keeps :
    (i : ℕ) (name : String) (p t : ℕ) (ctx : Ctx) (succeeds : Bool) (s : Shared)
    → Keeps s (open_watch i name p t ctx succeeds s)
unfolding open_watch
open_watch-Keeps i name p t ctx succeeds s = record {
  closed = λ h. ground (arith, h);
  cancelled = λ u h. ground (arith, h);
}

close_shared-Keeps : (s : Shared) → Keeps s (close_shared s)
unfolding close_shared
close_shared-Keeps s = record {
  closed = λ h. refl;
  cancelled = contains-append (base_token ∷ stop_mapped s.cancel s.resolvers) s.cancelled;
}

Step-Keeps : {s u : Shared} → Step s u → Keeps s u
unfolding seed derive
Step-Keeps {s} (looks_up i name at) = look_up-Keeps i name s
Step-Keeps {s} (creates i name at) = create-Keeps i name s
Step-Keeps {s} (enters i name p at) = enter_once-Keeps i name p s
Step-Keeps (seeds i name p at) = same-Keeps refl refl
Step-Keeps (derives i name p at) = same-Keeps refl refl
Step-Keeps {s} (opens i name p t ctx succeeds at) = open_watch-Keeps i name p t ctx succeeds s
Step-Keeps {s} closes = close_shared-Keeps s

pub Later-closed : {s u : Shared} → Later s u → s.closed ≡ true → u.closed ≡ true
Later-closed now h = h
Later-closed (then_step l st) h = (Step-Keeps st).closed (Later-closed l h)

pub Later-cancelled :
    {s u : Shared} (t : ℕ)
    → Later s u
    → contains s.cancelled t ≡ true
    → contains u.cancelled t ≡ true
Later-cancelled t now h = h
Later-cancelled t (then_step l st) h = (Step-Keeps st).cancelled t (Later-cancelled t l h)
