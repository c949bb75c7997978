-- ===== src/Resolver/Cache.antt =====
-- The cache of managed_resolver.go against its specification: the last answer that decides.
use lib_service_discovery.Common.{
  ◌≡◌, refl, true, false, Option, none, some, List, [], ◌∷◌, if◌then◌else◌, Bool-cases, inl, inr,
}
use mathlib.Core.Option
use lib_service_discovery.Errors.{Error, Result, ok, err, sentinel, is, no_healthy_instances}
use lib_service_discovery.Types.{Service}
use lib_service_discovery.Resolver.{
  Resolver, new_resolver, empty_err, service, seed_with, refresh, refresh_all,
}

-- What is known of a name: nothing but the seed's error, a service, or that there is none.
pub data Knowledge : Type 0 where
  unknown : Option Error → Knowledge
  known : Service → Knowledge
  empty : Knowledge

-- A service replaces what was known, an empty catalog clears it, and any other failure is ignored.
pub learn : Result Service → Knowledge → Knowledge
learn (ok svc) k = known svc
learn (err e) k = if is e no_healthy_instances then empty else k

pub learn_all : List (Result Service) → Knowledge → Knowledge
learn_all [] k = k
learn_all (r ∷ rs) k = learn_all rs (learn r k)

-- The service that is served, and the error where there is none.
pub serves : Knowledge → Option Service
serves (unknown e) = none
serves (known svc) = some svc
serves empty = none

pub blames : Knowledge → Error
blames (unknown e) = Option.get_or e (sentinel no_healthy_instances)
blames (known svc) = sentinel no_healthy_instances
blames empty = sentinel no_healthy_instances

-- A resolver stands for what is known. An error of the seed is remembered behind it.
pub data Stands (mr : Resolver) : Knowledge → Type 0 where
  at_unknown :
      {e : Option Error}
      → mr.seeded ≡ false
      → mr.auth_empty ≡ false
      → mr.seed_err ≡ e
      → Stands mr (unknown e)
  at_known :
      {svc : Service}
      → mr.seeded ≡ true
      → mr.auth_empty ≡ false
      → mr.current ≡ some svc
      → Stands mr (known svc)
  at_empty : mr.seeded ≡ false → mr.auth_empty ≡ true → Stands mr empty

-- The seed's answer as knowledge.
pub seed_knowledge : Result Service → Knowledge
seed_knowledge (ok svc) = known svc
seed_knowledge (err e) = unknown (some e)

seed_with-Stands :
    (r : Result Service) (mr : Resolver)
    → mr.seeded ≡ false
    → mr.auth_empty ≡ false
    → Stands (seed_with r mr) (seed_knowledge r)
unfolding seed_with seed_knowledge
seed_with-Stands (ok svc) mr s a = at_known refl refl refl
seed_with-Stands (err e) mr s a = at_unknown s a refl

refresh-Stands :
    (r : Result Service) (mr : Resolver) (k : Knowledge)
    → Stands mr k
    → Stands (refresh r mr) (learn r k)
unfolding refresh learn
refresh-Stands (ok svc) mr k s = at_known refl refl refl
refresh-Stands (err e) mr k s = elim (Bool-cases (is e no_healthy_instances)) [
  | inl none_left ↦ rw none_left (at_empty refl refl)
  | inr blip ↦ rw blip s
]

refresh_all-Stands :
    (rs : List (Result Service)) (mr : Resolver) (k : Knowledge)
    → Stands mr k
    → Stands (refresh_all rs mr) (learn_all rs k)
unfolding refresh_all learn_all
refresh_all-Stands [] mr k s = s
refresh_all-Stands (r ∷ rs) mr k s =
    refresh_all-Stands rs (refresh r mr) (learn r k) (refresh-Stands r mr k s)

service-Stands : (mr : Resolver) (k : Knowledge) → Stands mr k → service mr ≡ serves k
unfolding service serves
service-Stands mr (unknown e) (at_unknown s a c) = rw s
service-Stands mr (known svc) (at_known s a c) = rw (s, c)
service-Stands mr empty (at_empty s a) = rw s

empty_err-Stands :
    (mr : Resolver) (k : Knowledge) → Stands mr k → serves k ≡ none → empty_err mr ≡ blames k
unfolding empty_err serves blames
empty_err-Stands mr (unknown e) (at_unknown s a c) h = rw (a, c)
empty_err-Stands mr (known svc) (at_known s a c) h = cc
empty_err-Stands mr empty (at_empty s a) h = rw a

-- After the seed and any answers that the watch got, a resolver serves what the last answer that
-- decides left known: the last service, unless an empty catalog was confirmed after it; and where it
-- serves nothing, its error is `ErrNoHealthyInstances` if the emptiness was confirmed, and the
-- seed's own error if no answer has decided yet.
pub refresh_all-refines :
    (seed : Result Service) (rs : List (Result Service))
    → let mr = refresh_all rs (seed_with seed new_resolver) in
      let k = learn_all rs (seed_knowledge seed) in
      (service mr ≡ serves k) × (serves k ≡ none → empty_err mr ≡ blames k)
refresh_all-refines seed rs =
    let mr : Resolver = refresh_all rs (seed_with seed new_resolver) in
    let k : Knowledge = learn_all rs (seed_knowledge seed) in
    let s : Stands mr k =
      refresh_all-Stands rs (seed_with seed new_resolver) (seed_knowledge seed)
        (seed_with-Stands seed new_resolver refl refl) in
    (service-Stands mr k s, empty_err-Stands mr k s)
