-- ===== src/Manager/Async/Late.antt =====
-- How far a loop of `RegisterAsync` comes once the manager is closed.
use mathlib.Core.Bool.{true≢false}
use lib_service_discovery.Common.{
  ℕ, suc, ◌≤◌, ◌≡◌, refl, sym, ap, ◌∙◌, subst, ◌⊎◌, inl, inr, Bool, true, false, Option, none, some,
  List, arith, nat_eq, if◌then◌else◌, if-All, if_true, if_false, Bool-cases, contains,
}
use lib_service_discovery.Context.{Ctx, is_done}
use lib_service_discovery.Errors.{Error}
use lib_service_discovery.Types.{Service}
use lib_service_discovery.Platform.{Platform}
use lib_service_discovery.Backend.{Backend}
use lib_service_discovery.Consul.Sleep.{AnySleepEnd, sleep_ctx_any}
use lib_service_discovery.Manager.{Manager, base_ctx, base_token}
use lib_service_discovery.Manager.Lifecycle.Cancels.{close-cancelled, register-cancelled}
use lib_service_discovery.Manager.Concurrent.{put}
use lib_service_discovery.Manager.Concurrent.Steps.{eq_of_nat_eq}
use lib_service_discovery.Manager.Async.{
  Place, idle, testing, entering, pausing, done_registered, done_stopped, Async, base_done,
  new_async, launch, test, answered_place, enter, pause, close_async,
}

abbrev pub is_entering : Place → Bool
is_entering idle = false
is_entering (testing n) = false
is_entering (entering n) = true
is_entering (pausing n) = false
is_entering done_registered = false
is_entering done_stopped = false

module _ (p : Platform) (B : Backend) (job : ℕ → Ctx × Service) where
  -- One goroutine moves, or `Close` runs.
  pub data Step (a : Async p B job) : Async p B job → Type 0 where
    launches : (i : ℕ) → a.places i ≡ idle → Step a (launch p B job i a)
    tests : (i n : ℕ) → a.places i ≡ testing n → Step a (test p B job i n a)
    enters : (i n : ℕ) → a.places i ≡ entering n → Step a (enter p B job i n a)
    pauses : (i n : ℕ) (e : AnySleepEnd) → a.places i ≡ pausing n → Step a (pause p B job i n e a)
    closes : Step a (close_async p B job a)

  pub data Run (a : Async p B job) : Async p B job → Type 0 where
    here : Run a a
    after : {b c : Async p B job} → Run a b → Step b c → Run a c

  -- A goroutine that made a late call is not before another one, and the base context is done.
  pub record Spent (a : Async p B job) (i : ℕ) : Type 0 where
    pub once : a.late i ≤ 1
    pub over : a.late i ≡ 0 ⊎ ((base_done p B job a ≡ true) × (is_entering (a.places i) ≡ false))

  -- Once the base context is done it stays so.
  is_done-base : (c : List ℕ) → is_done c base_ctx ≡ true → contains c base_token ≡ true
  unfolding is_done
  is_done-base c h = ground arith

  base-is_done : (c : List ℕ) → contains c base_token ≡ true → is_done c base_ctx ≡ true
  unfolding is_done
  base-is_done c h = ground arith

  close-base_done :
      (a : Async p B job)
      → base_done p B job a ≡ true
      → base_done p B job (close_async p B job a) ≡ true
  unfolding close_async
  close-base_done a h =
      base-is_done _ (close-cancelled B a.manager base_token (is_done-base a.manager.cancelled h))

  enter-base_done :
      (i n : ℕ) (a : Async p B job) → base_done p B job (enter p B job i n a) ≡ base_done p B job a
  unfolding enter
  enter-base_done i n a =
      ap (λ c. is_done c base_ctx) (register-cancelled B p (job i).0 (job i).1 a.manager)

  answered-not_entering :
      (n : ℕ) (e : Option Error) → is_entering (answered_place p B job n e) ≡ false
  unfolding answered_place
  answered-not_entering n none = refl
  answered-not_entering n (some e) = refl

  -- A move that makes no call.
  move-Spent :
      (a : Async p B job) (i j : ℕ) (c : Place)
      → (base_done p B job a ≡ true → is_entering c ≡ false)
      → Spent a j
      → Spent (record a { places = put i c a.places }) j
  move-Spent a i j c quiet s = elim (Bool-cases (nat_eq i j)) [
    | inr other ↦ record {
      once = s.once;
      over =
          subst (λ q. (a.late j ≡ 0) ⊎ ((base_done p B job a ≡ true) × (is_entering q ≡ false)))
            (sym (if_false (nat_eq i j) c other)) s.over;
    }
    | inl same ↦ record {
      once = s.once;
      over = elim s.over [
        | inl none_yet ↦ inl none_yet
        | inr (done, apart) ↦ inr (done, ap is_entering (if_true (nat_eq i j) _ same) ∙ quiet done)
      ];
    }
  ]

  test-Spent : (a : Async p B job) (i n j : ℕ) → Spent a j → Spent (test p B job i n a) j
  unfolding test
  test-Spent a i n j s = elim (Bool-cases (base_done p B job a)) [
    | inl done ↦
        subst (λ b. Spent b j) (sym (if_true (base_done p B job a) _ done))
          (move-Spent a i j done_stopped (λ h. refl) s)
    | inr live ↦
        subst (λ b. Spent b j) (sym (if_false (base_done p B job a) _ live))
          (move-Spent a i j (entering n) (λ h. cc (sym live ∙ h)) s)
  ]

  pause-Spent :
      (a : Async p B job) (i n j : ℕ) (e : AnySleepEnd)
      → Spent a j
      → Spent (pause p B job i n e a) j
  unfolding pause
  pause-Spent a i n j e s =
      move-Spent a i j (if sleep_ctx_any e then testing (suc n) else done_stopped)
        (λ h. if-All (λ c. is_entering c ≡ false) (sleep_ctx_any e) _ _ refl refl) s

  launch-Spent : (a : Async p B job) (i j : ℕ) → Spent a j → Spent (launch p B job i a) j
  unfolding launch
  launch-Spent a i j s =
      if-All (λ b. Spent b j) a.manager.config.enabled _ _
        (move-Spent a i j (testing 0) (λ h. refl) s) s

  close-Spent : (a : Async p B job) (j : ℕ) → Spent a j → Spent (close_async p B job a) j
  unfolding close_async
  close-Spent a j s = record {
    once = s.once;
    over = elim s.over [
      | inl none_yet ↦ inl none_yet
      | inr (done, apart) ↦ inr (close-base_done a done, apart)
    ];
  }

  -- The goroutine that calls has made no late call yet.
  caller_unspent :
      (a : Async p B job) (i n : ℕ) → a.places i ≡ entering n → Spent a i → a.late i ≡ 0
  caller_unspent a i n at s = elim s.over [
    | inl none_yet ↦ none_yet
    | inr (done, apart) ↦ absurd (true≢false (sym (ap is_entering at) ∙ apart))
  ]

  -- The count behind a call.
  counted : Bool → ℕ → (ℕ → ℕ) → ℕ → ℕ
  counted b i late = if b then put i (suc (late i)) late else late

  enter-Spent :
      (a : Async p B job) (i n j : ℕ)
      → a.places i ≡ entering n
      → Spent a i
      → Spent a j
      → Spent (enter p B job i n a) j
  unfolding enter counted
  enter-Spent a i n j at caller s = elim (Bool-cases (nat_eq i j)) [
    | inr other ↦ record {
      once = subst (λ k. k ≤ 1) (sym (counted_other other)) s.once;
      over = elim s.over [
        | inl none_yet ↦ inl (counted_other other ∙ none_yet)
        | inr (done, apart) ↦
            inr
              (enter-base_done i n a ∙ done, ap is_entering (if_false (nat_eq i j) _ other) ∙ apart)
      ];
    }
    | inl same ↦ elim (Bool-cases (base_done p B job a)) [
      | inl done ↦ record {
        once =
            let k = counted_self done same in
            let z = caller_unspent a i n at caller in omega (arith, k, z);
        over = inr (
          enter-base_done i n a ∙ done,
          ap is_entering (if_true (nat_eq i j) _ same) ∙ answered-not_entering n _,
        );
      }
      | inr live ↦ record {
        once = let k = counted_live live in let z = s.once in omega (arith, k, z);
        over = inl (
            counted_live live
            ∙ ap a.late (sym (eq_of_nat_eq i j same))
            ∙ caller_unspent a i n at caller);
      }
    ]
  ]
    where
      counted_other : nat_eq i j ≡ false → counted (base_done p B job a) i a.late j ≡ a.late j
      counted_other other = ground (arith, other)

      counted_self :
          base_done p B job a ≡ true
          → nat_eq i j ≡ true
          → counted (base_done p B job a) i a.late j ≡ suc (a.late i)
      counted_self done same =
          ap (λ (f : ℕ → ℕ). f j) (if_true (base_done p B job a) a.late done)
          ∙ if_true (nat_eq i j) _ same

      counted_live :
          base_done p B job a ≡ false → counted (base_done p B job a) i a.late j ≡ a.late j
      counted_live live =
          ap (λ (f : ℕ → ℕ). f j)
            (if_false (base_done p B job a) (put i (suc (a.late i)) a.late) live)

  Step-Spent : {a b : Async p B job} → Step a b → ((j : ℕ) → Spent a j) → (j : ℕ) → Spent b j
  Step-Spent {a} (launches i at) s j = launch-Spent a i j (s j)
  Step-Spent {a} (tests i n at) s j = test-Spent a i n j (s j)
  Step-Spent {a} (enters i n at) s j = enter-Spent a i n j at (s i) (s j)
  Step-Spent {a} (pauses i n e at) s j = pause-Spent a i n j e (s j)
  Step-Spent {a} closes s j = close-Spent a j (s j)

  Run-Spent :
      (m : Manager B) {a : Async p B job} → Run (new_async p B job m) a → (j : ℕ) → Spent a j
  Run-Spent m here j = record { once = omega arith; over = inl refl }
  Run-Spent m (after r s) j = Step-Spent s (Run-Spent m r) j

  -- In every order of the loops of `RegisterAsync` and of `Close`, each loop calls `Register` at most
  -- once on a manager whose base context is done.
  pub late_once :
      (m : Manager B) {a : Async p B job} → Run (new_async p B job m) a → (i : ℕ) → a.late i ≤ 1
  late_once m r i = (Run-Spent m r i).once
