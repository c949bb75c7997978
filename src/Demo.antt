-- ===== src/Demo.antt =====
-- services/main.go: the demo service. The HTTP client, the HTTP server and the log lines are not
-- part of the repository: a call of the downstream is a parameter, and a handler is a function.
pub mod Chain
pub mod Stopped
pub mod Listen
pub mod Life
use lib_service_discovery.Common.{
  ℕ, String, ◌<>◌, Bool, Option, none, some, [], ◌∷◌, is_empty, if◌then◌else◌,
}
use lib_service_discovery.Common.Int.{pos}
use lib_service_discovery.Context.{Ctx, background, with_timeout}
use lib_service_discovery.Errors.{Error, Result, ok, err}
use lib_service_discovery.Types.{HealthCheck, Service, zero_service}
use lib_service_discovery.Platform.{Platform}
use lib_service_discovery.Config.{Config}
use lib_service_discovery.Config.Env.{Env, config_from_env}
use lib_service_discovery.Backend.{Backend}
use lib_service_discovery.Manager.{Manager, new}
use lib_service_discovery.Manager.Lifecycle.{deregister, close}
use lib_service_discovery.Dynamic.{DynamicResolver, stop, read_address}
use lib_service_discovery.Dynamic.Track.{watch_resolve}

unfoldable pub getenv : Env → String → String → String
getenv env key fallback = if is_empty (env key) then fallback else env key

-- The address that the server listens on.
unfoldable pub listen_addr : Env → String
listen_addr env = ":" <> getenv env "SD_ADVERTISE_PORT" (getenv env "SD_INTERNAL_PORT" "8080")

-- The service that is registered.
unfoldable pub demo_service : String → Service
demo_service name = record zero_service {
  id = name <> "-1";
  name = name;
  health_check = some (record { http = ""; interval = ""; timeout = ""; path = ""; ttl = "15s" });
}

-- What a handler writes.
pub record Response : Type 0 where
  pub status : ℕ
  pub body : String

-- `http.Error`
unfoldable pub http_error : String → ℕ → Response
http_error text status = record { status = status; body = text <> "\n" }

-- An answer of the downstream: the text of the client's error, or the body.
unfoldable pub relayed : String → String → Result String → (Error → String) → Response
relayed name next (err e) text = http_error ("call " <> next <> ": " <> text e) 502
relayed name next (ok body) text = record { status = 200; body = name <> " -> " <> body }

-- How a handler ends: with an answer, or in a panic, after which the server drops the connection.
pub data Handled : Type 0 where
  responded : Response → Handled
  panicked : Handled

-- The call of the downstream. Where the URL makes no request the error is dropped, and the client
-- panics on the nil request.
unfoldable pub requested :
    (String → Bool)
    → (String → Result String)
    → (Error → String)
    → String
    → String
    → String
    → Handled
requested makes call text name next url =
    if makes url then responded (relayed name next (call url) text) else panicked

-- The handler of /ping, over the address that the dynamic resolver has. `makes` tells whether
-- `http.NewRequestWithContext` makes a request of a URL, and `call` is the client's answer to it.
unfoldable pub ping :
    (String → Bool)
    → (String → Result String)
    → (Error → String)
    → String
    → String
    → String
    → Handled
ping makes call text name next addr =
    if is_empty next
    then responded (record { status = 200; body = name })
    else if is_empty addr
    then responded (http_error ("downstream " <> next <> " not resolved yet") 503)
    else requested makes call text name next ("http://" <> addr <> "/ping")

module _ (B : Backend) where
  -- The resolver of the downstream, if there is one; an error leaves a nil resolver.
  unfoldable pub started : Result DynamicResolver × Manager B → Option DynamicResolver × Manager B
  started (ok dr, m) = (some dr, m)
  started (err e, m) = (none, m)

  unfoldable pub start_resolver : String → Manager B → Option DynamicResolver × Manager B
  start_resolver next m =
      if is_empty next then (none, m) else started (watch_resolve B background next "" [] m)

  -- The end of `main`: Stop, Deregister and Close.
  unfoldable pub shut_down : String → Option DynamicResolver → Manager B → Manager B
  shut_down name dr m =
      let ctx = with_timeout (pos 5_000_000_000) background in
      let m₁ : Manager B = record m { cancelled = stop dr m.cancelled } in
      let (e, m₂) = deregister B ctx (name <> "-1") m₁ in let (e₂, m₃) = close B m₂ in m₃

  -- What `main` has at hand once it is up.
  pub record Program : Type 0 where
    pub name : String
    pub next : String
    pub listen : String
    pub prefer_view : String
    pub manager : Manager B
    pub resolver : Option DynamicResolver

  -- The start of `main`, without the registration, which runs beside it: `none` is `os.Exit(1)`.
  unfoldable pub start_demo : Platform → (Config → Result B.State) → B.State → Env → Option Program
  start_demo p make unset env =
      let cfg = config_from_env p env in
      let next = env "NEXT" in
      elim (new B p make unset cfg []) [
        | err e ↦ none
        | ok m ↦
            let (dr, m₁) = start_resolver next m in
            some (record {
              name = getenv env "SERVICE_NAME" "svc-a";
              next = next;
              listen = listen_addr env;
              prefer_view = cfg.prefer_view;
              manager = m₁;
              resolver = dr;
            })
      ]

  -- The two handlers, over what they read of the program. `quote` is the verb %q of `fmt`.
  unfoldable pub handle_ping :
      (String → Bool) → (String → Result String) → (Error → String) → Program → Handled
  handle_ping makes call text d = ping makes call text d.name d.next (read_address d.resolver)

  unfoldable pub whoami : (String → String) → Program → Response
  whoami quote d = record {
    status = 200;
    body =
        "service="
        <> d.name
        <> " listen="
        <> d.listen
        <> " next="
        <> quote d.next
        <> " prefer_view="
        <> d.prefer_view
        <> " next_addr="
        <> quote (read_address d.resolver)
        <> "\n";
  }
