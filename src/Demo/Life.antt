-- ===== src/Demo/Life.antt =====
-- The demo of services/main.go from its start to its end.
use lib_service_discovery.Common.{
  String, ◌<>◌, ◌≡◌, refl, sym, ap, ◌∙◌, subst, Bool, true, false, Option, none, some, [], ◌∷◌,
  is_empty, if_false, if◌then◌else◌,
}
use lib_service_discovery.Context.{background, is_done}
use lib_service_discovery.Errors.{Error, Result, ok, err}
use lib_service_discovery.Types.{zero_service}
use lib_service_discovery.Platform.{Platform}
use lib_service_discovery.Config.{Config, with_defaults, fill_defaults, parse_advertise_addrs}
use lib_service_discovery.Config.Defaults.{validate-with_defaults}
use lib_service_discovery.Config.Env.{Env, config_from_env}
use lib_service_discovery.Backend.{Backend}
use lib_service_discovery.Manager.{
  Manager, DynamicWatch, new, initial, apply_options, with_default_registry,
}
use lib_service_discovery.Dynamic.{DynamicResolver, address_of, read_address}
use lib_service_discovery.Dynamic.Track.{watch_resolve}
use lib_service_discovery.Dynamic.Opened.{Tracks, Watches, Returns, watch_resolve_fail_open}
use lib_service_discovery.Demo.{
  responded, panicked, http_error, relayed, requested, ping, started, start_resolver, shut_down,
  Program, start_demo, getenv, listen_addr, handle_ping,
}
use lib_service_discovery.Demo.Stopped.{start_resolver-Tracks, shut_down_stops}

-- The program serves from the cache of its resolver, and its watch ends with it.
pub record IsUp (B : Backend) (next : String) (d : Program B) : Type 0 where
  pub resolver : DynamicResolver
  pub has_resolver : d.resolver ≡ some resolver
  pub serves :
      (makes : String → Bool) (call : String → Result String) (text : Error → String)
      → handle_ping B makes call text d ≡ (
          let url = "http://" <> address_of resolver <> "/ping" in
          if is_empty (address_of resolver)
          then responded (http_error ("downstream " <> next <> " not resolved yet") 503)
          else if makes url
          then responded (relayed d.name next (call url) text)
          else panicked)
  -- the one goroutine of updates, on the stream and the context of the registry's `Watch`
  pub watch : DynamicWatch B
  pub asked : B.State
  pub listed : d.manager.dynamic_watches ≡ watch ∷ []
  pub same_stream : watch.stream ≡ (B.watch watch.ctx next asked).0
  pub same_backend : d.manager.backend ≡ (B.watch watch.ctx next asked).2
  pub stops : (k : Manager B) → is_done (shut_down B d.name d.resolver k).cancelled watch.ctx ≡ true

module _ (p : Platform) (B : Backend) (make : Config → Result B.State) (unset : B.State) where
  -- The manager that `New` makes of a configuration with discovery enabled.
  made : Config → B.State → Manager B
  made cfg s = record (initial B unset (with_defaults p cfg)) { has_registry = true; backend = s }

  default_registry-made :
      (c : Config) (s : B.State)
      → c.enabled ≡ true
      → make c ≡ ok s
      → with_default_registry B make (initial B unset c)
        ≡ ok (record (initial B unset c) { has_registry = true; backend = s })
  unfolding with_default_registry initial
  default_registry-made c s on given = rw (given, on) refl

  new-made :
      (cfg : Config) (s : B.State)
      → (with_defaults p cfg).enabled ≡ true
      → make (with_defaults p cfg) ≡ ok s
      → new B p make unset cfg [] ≡ ok (made cfg s)
  unfolding new apply_options made
  new-made cfg s on given =
      ap
        (λ (o : Option Error). elim o as (λ x. Result (Manager B)) [
          | some e ↦ err e
          | none ↦ with_default_registry B make (initial B unset (with_defaults p cfg))
        ])
        (validate-with_defaults p cfg)
      ∙ default_registry-made (with_defaults p cfg) s on given

  started-ok :
      (x : Result DynamicResolver × Manager B) (dr : DynamicResolver)
      → x.0 ≡ ok dr
      → (started B x).0 ≡ some dr
  unfolding started
  started-ok (ok d, m) dr h = cc
  started-ok (err e, m) dr h = cc

  resolver_started :
      (next : String) (m : Manager B)
      → m.config.enabled ≡ true
      → is_empty next ≡ false
      → Watches B next
      → (dr : DynamicResolver) × ((start_resolver B next m).0 ≡ some dr)
  unfolding start_resolver Returns
  resolver_started next m on named watches =
      let (dr, found) =
        (watch_resolve_fail_open B background next "" zero_service [] m on watches).0 in
      (
        dr,
        ap (λ (x : Option DynamicResolver × Manager B). x.0) (if_false (is_empty next) _ named)
            ∙ started-ok (watch_resolve B background next "" [] m) dr found,
      )

  -- The program that is up.
  up : Env → B.State → Program B
  up env s =
      let cfg = config_from_env p env in
      let (dr, m) = start_resolver B (env "NEXT") (made cfg s) in
      record {
        name = getenv env "SERVICE_NAME" "svc-a";
        next = env "NEXT";
        listen = listen_addr env;
        prefer_view = cfg.prefer_view;
        manager = m;
        resolver = dr;
      }

  start_demo-up :
      (env : Env) (s : B.State)
      → (with_defaults p (config_from_env p env)).enabled ≡ true
      → make (with_defaults p (config_from_env p env)) ≡ ok s
      → start_demo B p make unset env ≡ some (up env s)
  unfolding start_demo up
  start_demo-up env s on given = rw (start_demo, new-made (config_from_env p env) s on given) refl

  with_defaults-enabled : (cfg : Config) → (with_defaults p cfg).enabled ≡ cfg.enabled
  unfolding with_defaults fill_defaults parse_advertise_addrs
  with_defaults-enabled cfg = refl

  -- /ping reads the resolver's cache alone.
  up_serves :
      (env : Env) (s : B.State) (dr : DynamicResolver) (makes : String → Bool)
      (call : String → Result String) (text : Error → String)
      → is_empty (env "NEXT") ≡ false
      → (up env s).resolver ≡ some dr
      → handle_ping B makes call text (up env s) ≡ (
          let url = "http://" <> address_of dr <> "/ping" in
          if is_empty (address_of dr)
          then responded (http_error ("downstream " <> env "NEXT" <> " not resolved yet") 503)
          else if makes url
          then responded (relayed (up env s).name (env "NEXT") (call url) text)
          else panicked)
  unfolding handle_ping ping requested up read_address
  up_serves env s dr makes call text named found =
      if_false (is_empty (env "NEXT")) _ named
      ∙ ap
          (λ (o : Option DynamicResolver).
            let url = "http://" <> read_address o <> "/ping" in
            if is_empty (read_address o)
            then responded (http_error ("downstream " <> env "NEXT" <> " not resolved yet") 503)
            else if makes url
            then responded (relayed (up env s).name (env "NEXT") (call url) text)
            else panicked)
          found

  -- With discovery enabled, a client that can be made, a downstream, and a registry whose `Watch` of
  -- the downstream does not fail, the demo starts, whatever the registry's resolve answers, and has a
  -- resolver; /ping calls the address that the resolver has cached, answers 503 without one, and panics
  -- where the address makes no request; one goroutine updates the resolver, on the stream that the
  -- registry's `Watch` gave and on the context that it was given, and whatever the manager went through
  -- in between, that context is done once the demo has shut down.
  pub demo_life :
      (env : Env) (s : B.State)
      → (config_from_env p env).enabled ≡ true
      → make (with_defaults p (config_from_env p env)) ≡ ok s
      → is_empty (env "NEXT") ≡ false
      → Watches B (env "NEXT")
      → (d : Program B) × (start_demo B p make unset env ≡ some d) × IsUp B (env "NEXT") d
  unfolding initial made
  demo_life env s enabled given named watches =
      let on = with_defaults-enabled (config_from_env p env) ∙ enabled in
      let m : Manager B = made (config_from_env p env) s in
      let (dr, found) = resolver_started (env "NEXT") m on named watches in
      let held : ((up env s).resolver ≡ some dr) = unfold up in found in
      let tracks : Tracks B background (env "NEXT") m.fresh m dr (up env s).manager =
        unfold up in start_resolver-Tracks B (env "NEXT") m dr on named found in
      (
        up env s,
        start_demo-up env s on given,
        record {
          resolver = dr;
          has_resolver = held;
          serves = λ makes call text. up_serves env s dr makes call text named held;
          watch = tracks.watch;
          asked = tracks.asked;
          listed = tracks.listed;
          same_stream = tracks.same_stream;
          same_backend = tracks.same_backend;
          stops = λ k.
              subst
                (λ (o : Option DynamicResolver).
                  is_done (shut_down B (up env s).name o k).cancelled tracks.watch.ctx ≡ true)
                (sym held)
                (shut_down_stops B (up env s).name (env "NEXT") m (up env s).manager k dr tracks);
        },
      )
