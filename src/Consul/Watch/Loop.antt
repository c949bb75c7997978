-- ===== src/Consul/Watch/Loop.antt =====
-- What the watch loop of consul.go announces, and how it waits.
use lib_service_discovery.Common.{
  ℕ, zero, suc, ◌+◌, ◌<◌, String, ◌≡◌, refl, ◌∙◌, ap, true, false, none, List, [], ◌∷◌, ◌++◌, arith,
}
use mathlib.Core.List.{map, append_assoc, append-nil}
use native.Mathlib.Nat.{add-suc, suc-add, add-zero}
use lib_service_discovery.Common.Int.{pos}
use lib_service_discovery.Consul.Agent.{Entry}
use lib_service_discovery.Consul.Api.{failed, answered}
use lib_service_discovery.Consul.Backoff.{backoff_duration}
use lib_service_discovery.Consul.Watch.{
  Round, Watch, event_of, emit_entries, watch_round, watch_loop,
}

-- A round in which the context stays live and the channel takes every event.
abbrev pub IsLive : Round → Type 0
IsLive r = (r.stopped ≡ false) × (r.cancelled ≡ false) × (r.woken ≡ false) × (r.room ≡ none)

emit_entries_all : (es : List Entry) → emit_entries none es ≡ (map event_of es, true)
unfolding emit_entries
emit_entries_all [] = refl
emit_entries_all (e ∷ es) = rw (emit_entries_all es)

-- The delays of `n` failures in a row, the first of them the `a`-th.
pub delays_from : ℕ → ℕ → List ℕ
delays_from a zero = []
delays_from a (suc n) = backoff_duration (pos a) ∷ delays_from (suc a) n

-- The rounds are live and every query fails.
pub data Outage : List Round → ℕ → Type 0 where
  over : Outage [] 0
  down :
      {r : Round} {rs : List Round} {n : ℕ} (text : String)
      → IsLive r
      → r.answer ≡ failed text
      → Outage rs n
      → Outage (r ∷ rs) (suc n)

watch_round_failed :
    (r : Round) (w : Watch) (text : String)
    → IsLive r
    → r.answer ≡ failed text
    → w.ended ≡ false
    → watch_round r w ≡ record w {
      attempt = suc w.attempt;
      delays = w.delays ++ (backoff_duration (pos w.attempt) ∷ []);
    }
unfolding watch_round
watch_round_failed r w text live bad on = ground arith

-- An outage of `n` failed polls changes neither the index nor what was announced, keeps the loop
-- running, and waits for the backoff of each attempt, one longer than the last.
pub watch_loop-Outage :
    {rs : List Round} {n : ℕ}
    → Outage rs n
    → (w : Watch) → w.ended ≡ false
    → watch_loop rs w
      ≡ record w { attempt = w.attempt + n; delays = w.delays ++ delays_from w.attempt n }
unfolding watch_loop delays_from
watch_loop-Outage over w on = rw (add-zero, append-nil)
watch_loop-Outage (down {r} {rs} {n} text live bad o) w on =
    let w₁ : Watch = record w {
      attempt = suc w.attempt;
      delays = w.delays ++ (backoff_duration (pos w.attempt) ∷ []);
    } in
    rw (watch_round_failed r w text live bad on)
      (watch_loop-Outage o w₁ on ∙ rw (suc-add, add-suc, append_assoc))

-- A poll whose index is above the last one announces every entry, in order, and resets the count of
-- failures; one whose index is the last one announces nothing; one whose index is below it
-- announces nothing and starts again from index 0.
pub watch_round_answered :
    (r : Round) (es : List Entry) (index : ℕ) (w : Watch)
    → IsLive r
    → r.answer ≡ answered es index
    → w.ended ≡ false
    → (w.last_index < index
        → watch_round r w
          ≡ record w { attempt = 0; last_index = index; events = w.events ++ map event_of es })
      × (index ≡ w.last_index → watch_round r w ≡ record w { attempt = 0 })
      × (index < w.last_index → watch_round r w ≡ record w { attempt = 0; last_index = 0 })
unfolding watch_round
watch_round_answered r es index w live good on =
    (λ above. ground (arith, emit_entries_all es), λ same. ground arith, λ below. ground arith)

watch_loop-append :
    (rs ss : List Round) (w : Watch) → watch_loop (rs ++ ss) w ≡ watch_loop ss (watch_loop rs w)
unfolding watch_loop
watch_loop-append [] ss w = refl
watch_loop-append (r ∷ rs) ss w = watch_loop-append rs ss (watch_round r w)

-- After Consul's index was rewound, the first poll with an index other than 0 announces every entry,
-- however low its index is and however many polls failed in between.
pub watch_loop_rewound :
    (r s : Round) (rs : List Round) (n : ℕ) (es fs : List Entry) (i j : ℕ) (w : Watch)
    → IsLive r
    → IsLive s
    → r.answer ≡ answered es i
    → s.answer ≡ answered fs j
    → Outage rs n
    → w.ended ≡ false
    → i < w.last_index
    → 0 < j
    → (watch_loop (r ∷ (rs ++ (s ∷ []))) w).events ≡ w.events ++ map event_of fs
unfolding watch_loop
watch_loop_rewound r s rs n es fs i j w live live' a b o on low later =
    let w₁ : Watch = record w { attempt = 0; last_index = 0 } in
    let w₂ : Watch = record w₁ { attempt = 0 + n; delays = w.delays ++ delays_from 0 n } in
    ap (λ v. (watch_loop (rs ++ (s ∷ [])) v).events)
      ((watch_round_answered r es i w live a on).2 low)
    ∙ ap (λ (v : Watch). v.events)
        (watch_loop-append rs (s ∷ []) w₁
          ∙ ap (watch_round s) (watch_loop-Outage o w₁ on)
          ∙ (watch_round_answered s fs j w₂ live' b on).0 later)

-- Once the loop has returned it announces nothing more.
pub watch_loop_ended : (rs : List Round) (w : Watch) → w.ended ≡ true → watch_loop rs w ≡ w
unfolding watch_loop watch_round
watch_loop_ended [] w h = refl
watch_loop_ended (r ∷ rs) w h = simp h (watch_loop_ended rs w h)
