-- ===== src/Mux/Registration.antt =====
-- New, Handle, Use, UsePreflight, Start and Stop of pkg/eventmux/mux.go: wiring the router, and
-- the freeze at its first start. A method returns the new mux; a panic leaves the mux as it was.
pub mod Chains
pub mod Wired
pub mod Reached
use event_driven.Prelude.{
  ◌≡◌, ℕ, ◌==◌, Bytes, str, is_empty, List, [], ◌∷◌, ◌++◌, map, Option, none, some, Bool, not, true,
  false, any, Called, returned, panicked, Outside, if◌then◌else◌,
}
use event_driven.Error.{
  Err, sentinel, decode, already_started, non_retryable, errorf, verb, lit, done, wrap, Result, ok,
  err,
}
use event_driven.Event.CloudEvents.{CloudEvents}
use event_driven.Event.Message.{Context}
use event_driven.Mux.Types.{
  Mux, Config, Publisher, Filter, Observer, Route, HandlerFunc, Middleware, Local, Reply, chain,
  Runtime,
}

-- The type parameter of Handle: how a payload is unmarshalled into T (encoding/json/v2, with T's
-- own methods), and a T as a value of type any.
pub record PayloadType (S A : Type 0) : Type 1 where
  pub T : Type 0
  pub type_name : Bytes
  pub unmarshal : Bytes → Outside S (Result T)
  pub to_any : T → A
  pub from_any : A → Option T
  -- %T of a value.
  pub name_of : A → Bytes
  pub from_any-to_any : (v : T) → from_any (to_any v) ≡ some v

module _ {S A : Type 0} where
  unfoldable pub noop_handler : HandlerFunc S A
  noop_handler ctx payload l = (returned (none, none), l)

  -- A nil HandlerFunc, as a chain is before it is built.
  abbrev pub nil_handler : HandlerFunc S A
  nil_handler ctx payload l =
      (panicked (str "runtime error: invalid memory address or nil pointer dereference"), l)

  abbrev pub wrap_decoded : (t : PayloadType S A) → Called (Result t.T) × S → Called (Result A) × S
  wrap_decoded t (returned (ok v), s) = (returned (ok (t.to_any v)), s)
  wrap_decoded t (returned (err e), s) = (
    returned (
        err (
          errorf (
            verb (sentinel decode)
              (lit (str ": unmarshal into " ++ t.type_name ++ str ": ") (verb e done))))),
    s,
  )
  wrap_decoded t (panicked v, s) = (panicked v, s)

  unfoldable pub route_decode : PayloadType S A → Bytes → Outside S (Result A)
  route_decode t bytes s = wrap_decoded t (t.unmarshal bytes s)

  abbrev pub run_typed :
      (t : PayloadType S A) (fn : Context → t.T → Local S → Called Reply × Local S)
      → Context
      → A
      → Option t.T
      → Local S
      → Called Reply × Local S
  run_typed t fn ctx payload (some v) l = fn ctx v l
  run_typed t fn ctx payload none l = (
    returned (
      none,
      some (
          non_retryable (
            errorf (
              lit
                (str "eventmux: route expects " ++ t.type_name ++ str ", got " ++ t.name_of payload)
                done))),
    ),
    l,
  )

  unfoldable pub route_handler :
      (t : PayloadType S A) (fn : Context → t.T → Local S → Called Reply × Local S)
      → HandlerFunc S A
  route_handler t fn ctx payload l = run_typed t fn ctx payload (t.from_any payload) l

abbrev pub same_identity : Option ℕ → Option ℕ → Bool
same_identity (some a) (some b) = a == b
same_identity _ _ = false

module _ {sdk : CloudEvents} {S : Type 0} where
  -- identical, on the filters of two routes; a nil filter is identical to a nil filter only.
  unfoldable pub identical : Option (Filter sdk S) → Option (Filter sdk S) → Bool
  identical none none = true
  identical (some f) (some g) = same_identity f.identity g.identity
  identical _ _ = false

  -- observePublishers, on one publisher.
  unfoldable pub observe_publisher :
      Option (Observer sdk S) → Option (Publisher sdk S) → Option (Publisher sdk S)
  observe_publisher none p = p
  observe_publisher (some o) none = none
  observe_publisher (some o) (some p) = some (record p { observed = true })

module _ {sdk : CloudEvents} {S A : Type 0} where
  abbrev pub new_mux_of : Runtime sdk S → Config sdk S → Mux sdk S A
  new_mux_of runtime cfg = record {
    cfg = cfg;
    runtime = runtime;
    routes = [];
    middlewares = [];
    preflight_middlewares = [];
    started = false;
    frozen = false;
    preflight = nil_handler;
  }

  -- New. `subscribed` tells whether the subscription is not nil.
  unfoldable pub new_mux : Bool → Runtime sdk S → Config sdk S → Result (Mux sdk S A)
  new_mux subscribed runtime cfg =
      if not subscribed
      then err (errorf (lit (str "eventmux: Config.Subscription is nil") done))
      else ok (new_mux_of runtime cfg)

  unfoldable pub mux_name : Mux sdk S A → Bytes
  mux_name mux = if is_empty mux.cfg.name then str "eventmux" else mux.cfg.name

  -- mustBeOpen
  abbrev pub must_be_open : Bytes → Mux sdk S A → Called (Mux sdk S A) → Called (Mux sdk S A)
  must_be_open method mux rest =
      if mux.frozen then panicked (str "eventmux: " ++ method ++ str " after Start") else rest

  unfoldable pub is_duplicate : Option (Filter sdk S) → List (Route sdk S A) → Bool
  unfolding identical
  is_duplicate filter routes = any (λ existing. identical existing.filter filter) routes

  abbrev pub typed_route :
      (t : PayloadType S A)
      → Option (Publisher sdk S)
      → Option (Filter sdk S)
      → (Context → t.T → Local S → Called Reply × Local S)
      → Route sdk S A
  typed_route t p filter fn = record {
    publisher = p;
    filter = filter;
    decode = route_decode t;
    handler = route_handler t fn;
    chained = nil_handler;
  }

  abbrev pub add_route : Route sdk S A → Mux sdk S A → Mux sdk S A
  add_route rt mux = record mux { routes = mux.routes ++ rt ∷ [] }

  unfoldable pub handle_route :
      (t : PayloadType S A)
      → Option (Publisher sdk S)
      → Option (Filter sdk S)
      → (Context → t.T → Local S → Called Reply × Local S)
      → Mux sdk S A
      → Called (Mux sdk S A)
  handle_route t p filter fn mux = must_be_open (str "Handle") mux (
      if is_duplicate filter mux.routes
      then panicked (str "eventmux: duplicate route")
      else returned (add_route (typed_route t p filter fn) mux))

  unfoldable pub use_middlewares : List (Middleware S A) → Mux sdk S A → Called (Mux sdk S A)
  use_middlewares mws mux =
      must_be_open (str "Use") mux (returned (record mux { middlewares = mux.middlewares ++ mws }))

  unfoldable pub use_preflight : List (Middleware S A) → Mux sdk S A → Called (Mux sdk S A)
  use_preflight mws mux =
      must_be_open (str "UsePreflight") mux
        (returned (record mux { preflight_middlewares = mux.preflight_middlewares ++ mws }))

  -- The chain of one route: a panic leaves it and the routes after it as they were.
  abbrev pub chain_route :
      Route sdk S A
      → List (Route sdk S A)
      → Called (Unit {0}) × List (Route sdk S A)
      → Called (HandlerFunc S A)
      → Called (Unit {0}) × List (Route sdk S A)
  chain_route rt rts rest (returned h) = (rest.0, record rt { chained = h } ∷ rest.1)
  chain_route rt rts rest (panicked v) = (panicked v, rt ∷ rts)

  -- The loop of Start over the routes.
  unfoldable pub chain_routes :
      List (Middleware S A) → List (Route sdk S A) → Called (Unit {0}) × List (Route sdk S A)
  chain_routes mws [] = (returned tt, [])
  chain_routes mws (rt ∷ rts) =
      let rest = chain_routes mws rts in chain_route rt rts rest (chain rt.handler mws)

  abbrev pub observe_route : Option (Observer sdk S) → Route sdk S A → Route sdk S A
  observe_route observer rt = record rt { publisher = observe_publisher observer rt.publisher }

  unfoldable pub observe_publishers : Mux sdk S A → Mux sdk S A
  observe_publishers mux = record mux {
    routes = map (observe_route mux.cfg.observer) mux.routes;
    cfg = record (mux.cfg) { dead_letter = observe_publisher mux.cfg.observer mux.cfg.dead_letter };
  }

  abbrev pub with_routes :
      Mux sdk S A → Called (Unit {0}) × List (Route sdk S A) → Called (Unit {0}) × Mux sdk S A
  with_routes mux (returned a, rts) =
      (returned tt, observe_publishers (record mux { routes = rts }))
  with_routes mux (panicked v, rts) = (panicked v, record mux { routes = rts })

  abbrev pub with_preflight :
      Mux sdk S A → Called (HandlerFunc S A) → Called (Unit {0}) × Mux sdk S A
  with_preflight mux (returned h) =
      with_routes (record mux { preflight = h }) (chain_routes mux.middlewares mux.routes)
  with_preflight mux (panicked v) = (panicked v, mux)

  -- The chains of the first Start, which freezes the mux before it builds them.
  unfoldable pub build_chains : Mux sdk S A → Called (Unit {0}) × Mux sdk S A
  build_chains mux =
      with_preflight (record mux { frozen = true }) (chain noop_handler mux.preflight_middlewares)

  unfoldable pub freeze : Mux sdk S A → Called (Unit {0}) × Mux sdk S A
  freeze mux = if mux.frozen then (returned tt, mux) else build_chains mux

  -- What Start and Stop make of the answer of the subscription.
  abbrev pub finish_start :
      Mux sdk S A → Called (Option Err) × S → Called (Option Err) × Mux sdk S A × S
  finish_start mux (returned none, s) = (returned none, record mux { started = true }, s)
  finish_start mux (returned (some e), s) =
      (returned (some (wrap (str "eventmux " ++ mux_name mux ++ str ": start: ") e)), mux, s)
  finish_start mux (panicked v, s) = (panicked v, mux, s)

  abbrev pub start_frozen :
      S → Called (Unit {0}) × Mux sdk S A → Called (Option Err) × Mux sdk S A × S
  start_frozen s (returned a, mux) = finish_start mux (mux.cfg.subscription.start s)
  start_frozen s (panicked v, mux) = (panicked v, mux, s)

  unfoldable pub start : Mux sdk S A → S → Called (Option Err) × Mux sdk S A × S
  start mux s =
      if mux.started
      then (returned (some (sentinel already_started)), mux, s)
      else start_frozen s (freeze mux)

  abbrev pub finish_stop :
      Mux sdk S A → Called (Option Err) × S → Called (Option Err) × Mux sdk S A × S
  finish_stop mux (returned none, s) = (returned none, record mux { started = false }, s)
  finish_stop mux (returned (some e), s) =
      (returned (some (wrap (str "eventmux " ++ mux_name mux ++ str ": stop: ") e)), mux, s)
  finish_stop mux (panicked v, s) = (panicked v, mux, s)

  unfoldable pub stop : Mux sdk S A → S → Called (Option Err) × Mux sdk S A × S
  stop mux s =
      if mux.started then finish_stop mux (mux.cfg.subscription.stop s) else (returned none, mux, s)
