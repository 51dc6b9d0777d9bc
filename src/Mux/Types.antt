-- ===== src/Mux/Types.antt =====
-- pkg/eventmux/interfaces.go, handler.go, middleware.go, observer.go and the records of mux.go.
use event_driven.Prelude.{
  ℕ, Bytes, List, [], ◌∷◌, Option, Bool, Outside, Called, returned, panicked,
}
use event_driven.Error.{Err, Result}
use event_driven.Event.CloudEvents.{CloudEvents}
use event_driven.Event.DeadLetter.{DeadLetterReason}
use event_driven.Event.Message.{Context, Outcome}

-- pkg/eventmux/metadata: the entries of a Store.
abbrev pub Metadata : Type 0
Metadata = List (Bytes × Bytes)

-- What a handler can change: the outside world, and the metadata store of its context.
pub record Local (S : Type 0) : Type 0 where
  pub outside : S
  pub store : Metadata

-- The result value (nil is `none`) and the error (nil is `none`).
abbrev pub Reply : Type 0
Reply = Option Bytes × Option Err

-- S is the state of the outside world, A the values that a payload can have (Go's any).
abbrev pub HandlerFunc : Type 0 → Type 0 → Type 0
HandlerFunc S A = Context → A → Local S → Called Reply × Local S

-- It may panic, when the router wraps a handler in it.
abbrev pub Middleware : Type 0 → Type 0 → Type 0
Middleware S A = HandlerFunc S A → Called (HandlerFunc S A)

-- A middleware that does not panic when it wraps, as those of pkg/middleware.
abbrev pub TotalMiddleware : Type 0 → Type 0 → Type 0
TotalMiddleware S A = HandlerFunc S A → HandlerFunc S A

module _ {S A : Type 0} where
  abbrev pub wrap_in : Middleware S A → Called (HandlerFunc S A) → Called (HandlerFunc S A)
  wrap_in mw (returned h) = mw h
  wrap_in mw (panicked v) = panicked v

  -- Chain(handler, mws...): the last middleware wraps first, and a panic of one ends it.
  unfoldable pub chain : HandlerFunc S A → List (Middleware S A) → Called (HandlerFunc S A)
  chain handler [] = returned handler
  chain handler (mw ∷ mws) = wrap_in mw (chain handler mws)

-- A filter's `identity` stands for its value where that is comparable; without one it is no
-- duplicate of any filter.
pub record Filter (sdk : CloudEvents) (S : Type 0) : Type 0 where
  pub identity : Option ℕ
  pub match : sdk.Event → Outside S Bool

pub record Observer (sdk : CloudEvents) (S : Type 0) : Type 0 where
  pub on_message : sdk.Event → Outcome → Option DeadLetterReason → Outside S (Unit {0})
  pub on_publish : sdk.Event → Option Err → Outside S (Unit {0})

-- `observed` tells whether Start wrapped it in an observedPublisher.
pub record Publisher (sdk : CloudEvents) (S : Type 0) : Type 0 where
  pub publish : Context → sdk.Event → Outside S (Option Err)
  pub observed : Bool

pub record Subscription (S : Type 0) : Type 0 where
  pub start : Outside S (Option Err)
  pub stop : Outside S (Option Err)

pub record Route (sdk : CloudEvents) (S A : Type 0) : Type 0 where
  pub publisher : Option (Publisher sdk S)
  pub filter : Option (Filter sdk S)
  pub decode : Bytes → Outside S (Result A)
  pub handler : HandlerFunc S A
  pub chained : HandlerFunc S A

-- `max_retries` is a uint64; 0 disables the limit.
pub record Config (sdk : CloudEvents) (S : Type 0) : Type 0 where
  pub name : Bytes
  pub subscription : Subscription S
  pub max_retries : ℕ
  pub dead_letter : Option (Publisher sdk S)
  pub publish_after_ack : Bool
  pub observer : Option (Observer sdk S)

-- What the router takes from Go's runtime: a new UUID and the clock.
pub record Runtime (sdk : CloudEvents) (S : Type 0) : Type 0 where
  pub new_uuid : S → Bytes × S
  pub now : S → sdk.Time × S

pub record Mux (sdk : CloudEvents) (S A : Type 0) : Type 0 where
  pub cfg : Config sdk S
  pub runtime : Runtime sdk S
  pub routes : List (Route sdk S A)
  pub middlewares : List (Middleware S A)
  pub preflight_middlewares : List (Middleware S A)
  pub started : Bool
  pub frozen : Bool
  pub preflight : HandlerFunc S A
