-- ===== src/Dynamic/Latest.antt =====
-- What a dynamic resolver of resolver.go holds after its updates.
use lib_service_discovery.Common.{
  ◌≡◌, refl, ap, ◌∙◌, Option, none, some, List, [], ◌∷◌, ◌++◌, All, is_empty, if◌then◌else◌, arith,
}
use lib_service_discovery.Errors.{Result, ok, err}
use lib_service_discovery.Types.{Service, endpoint_for}
use lib_service_discovery.Dynamic.{Snapshot, DynamicResolver, address_of, scheme_of, store_snapshot}
use lib_service_discovery.Dynamic.Seed.{fallback_snapshot, snapshot_of}
use lib_service_discovery.Dynamic.Track.{update_view, update, update_all}

-- The pair that a reader gets.
unfoldable pub current : DynamicResolver → Snapshot
current dr = record { address = address_of dr; scheme = scheme_of dr }

-- Two resolvers of the same view and fallback.
pub record SameTarget (dr base : DynamicResolver) : Type 0 where
  pub same_view : dr.view ≡ base.view
  pub same_fallback : dr.fallback ≡ base.fallback
  pub same_scheme : dr.fallback_scheme ≡ base.fallback_scheme

-- What an answer of the registry decides: the endpoint of the view, or nothing without one; and of
-- a failure the fallback, or nothing without one.
unfoldable pub decides : DynamicResolver → Result Service → Option Snapshot
decides dr (ok svc) = elim (endpoint_for svc dr.view) [ ok e ↦ some (snapshot_of e) | err e ↦ none ]
decides dr (err e) = if is_empty dr.fallback then none else some (fallback_snapshot dr)

update-SameTarget : (r : Result Service) (dr : DynamicResolver) → SameTarget (update r dr) dr
unfolding update update_view store_snapshot
update-SameTarget r dr = record {
  same_view = ground arith;
  same_fallback = ground arith;
  same_scheme = ground arith;
}

SameTarget-trans : {a b c : DynamicResolver} → SameTarget a b → SameTarget b c → SameTarget a c
SameTarget-trans p q = record {
  same_view = p.same_view ∙ q.same_view;
  same_fallback = p.same_fallback ∙ q.same_fallback;
  same_scheme = p.same_scheme ∙ q.same_scheme;
}

pub update_all-SameTarget :
    (rs : List (Result Service)) (dr : DynamicResolver) → SameTarget (update_all rs dr) dr
unfolding update_all
update_all-SameTarget [] dr = record { same_view = refl; same_fallback = refl; same_scheme = refl }
update_all-SameTarget (r ∷ rs) dr =
    SameTarget-trans (update_all-SameTarget rs (update r dr)) (update-SameTarget r dr)

decides-SameTarget :
    {a b : DynamicResolver} → SameTarget a b → (r : Result Service) → decides a r ≡ decides b r
unfolding decides fallback_snapshot
decides-SameTarget s (ok svc) = rw (s.same_view)
decides-SameTarget s (err e) = ground (arith, s.same_fallback, s.same_scheme)

update-undecided :
    (r : Result Service) (dr : DynamicResolver) → decides dr r ≡ none → update r dr ≡ dr
unfolding update update_view decides
update-undecided r dr h = ground arith

update-decided :
    (r : Result Service) (dr : DynamicResolver) (s : Snapshot)
    → decides dr r ≡ some s
    → current (update r dr) ≡ s
unfolding update update_view decides current store_snapshot address_of scheme_of
update-decided r dr s h = ground arith

update_all-undecided :
    (rs : List (Result Service)) (dr : DynamicResolver)
    → All (λ r. decides dr r ≡ none) rs
    → update_all rs dr ≡ dr
unfolding update_all
update_all-undecided [] dr h = refl
update_all-undecided (r ∷ rs) dr (h, hs) =
    ap (update_all rs) (update-undecided r dr h) ∙ update_all-undecided rs dr hs

update_all-append :
    (rs ts : List (Result Service)) (dr : DynamicResolver)
    → update_all (rs ++ ts) dr ≡ update_all ts (update_all rs dr)
unfolding update_all
update_all-append [] ts dr = refl
update_all-append (r ∷ rs) ts dr = update_all-append rs ts (update r dr)

All-undecided :
    {a b : DynamicResolver}
    → SameTarget a b
    → (rs : List (Result Service)) → All (λ r. decides b r ≡ none) rs
    → All (λ r. decides a r ≡ none) rs
All-undecided s [] h = tt
All-undecided s (r ∷ rs) (h, hs) = (decides-SameTarget s r ∙ h, All-undecided s rs hs)

-- After any updates a dynamic resolver reads as what the last answer decided that decides anything,
-- address and scheme together, and as before where none does.
pub update_all-latest :
    (dr : DynamicResolver) (before after : List (Result Service)) (r : Result Service)
    (s : Snapshot)
    → All (λ q. decides dr q ≡ none) after
    → decides dr r ≡ some s
    → (current (update_all (before ++ (r ∷ after)) dr) ≡ s) × (update_all after dr ≡ dr)
unfolding update_all
update_all-latest dr before after r s h decided =
    let seen : DynamicResolver = update_all before dr in
    let base : SameTarget seen dr = update_all-SameTarget before dr in
    let new : SameTarget (update r seen) dr = SameTarget-trans (update-SameTarget r seen) base in
    (
      ap current (update_all-append before (r ∷ after) dr)
          ∙ ap current (update_all-undecided after (update r seen) (All-undecided new after h))
          ∙ update-decided r seen s (decides-SameTarget base r ∙ decided),
      update_all-undecided after dr h,
    )
