-- ===== src/Demo/Chain.antt =====
-- A request that walks a chain of demo services.
use lib_service_discovery.Common.{
  String, ◌<>◌, ◌≡◌, refl, sym, ◌∙◌, Bool, true, false, List, [], ◌∷◌, is_empty,
}
use lib_service_discovery.Errors.{Error, Result, ok}
use lib_service_discovery.Logger.{join}
use lib_service_discovery.Demo.{Response, responded, relayed, requested, ping}

-- A service of the chain: its name, and the address that its caller's resolver has of it.
pub record Hop : Type 0 where
  pub name : String
  pub addr : String

-- The name and the address of the next service, or none.
abbrev pub next_name : List Hop → String
next_name [] = ""
next_name (h ∷ hs) = h.name

abbrev pub next_addr : List Hop → String
next_addr [] = ""
next_addr (h ∷ hs) = h.addr

abbrev pub names : List Hop → List String
names [] = []
names (h ∷ hs) = h.name ∷ names hs

-- The response that names all services of a chain.
abbrev pub walked : List String → Response
walked ns = record { status = 200; body = join " -> " ns }

module _ (makes : String → Bool) (call : String → Result String) (text : Error → String) where
  -- A call of each service after the first reaches that service, which answers it by its handler.
  abbrev pub Reached : List Hop → Type 0
  Reached [] = Unit
  Reached (h ∷ hs) =
      (is_empty h.name ≡ false)
      × (is_empty h.addr ≡ false)
      × (makes ("http://" <> h.addr <> "/ping") ≡ true)
      × ((r : Response) × (ping makes call text h.name (next_name hs) (next_addr hs) ≡ responded r)
          × (call ("http://" <> h.addr <> "/ping") ≡ ok r.body))
      × Reached hs

  -- Where the resolvers of a chain of services have addresses that make requests, and at which the next service answers, a
  -- request to the first walks the whole chain: it succeeds, with the names of all the services.
  pub ping_chain :
      (name : String) (hs : List Hop)
      → Reached hs
      → ping makes call text name (next_name hs) (next_addr hs)
        ≡ responded (walked (name ∷ names hs))
  unfolding ping requested relayed join
  ping_chain name [] reached = refl
  ping_chain name (h ∷ hs) (named, placed, made, (r, handled, answered), reached) =
      let e : (responded r ≡ responded (walked (h.name ∷ names hs))) =
        sym handled ∙ ping_chain h.name hs reached in
      let same : (r ≡ walked (h.name ∷ names hs)) = cc in
      rw (named, placed, made, answered, same) refl
