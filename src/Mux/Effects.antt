-- ===== src/Mux/Effects.antt =====
-- The state in which the router handles one message, and the monad of its steps: a step changes
-- the state, and returns or panics. `trace` lists what the router did, the latest first.
use event_driven.Prelude.{Bytes, List, ◌∷◌, Option, Bool, Outside, Called, returned, panicked}
use event_driven.Error.{Err}
use event_driven.Event.CloudEvents.{CloudEvents}
use event_driven.Event.DeadLetter.{DeadLetterReason}
use event_driven.Event.Message.{Message, Outcome}
use event_driven.Mux.Types.{Metadata}

-- The records that the router logs at WARN, INFO and ERROR.
pub data Log : Type 0 where
  no_delivery_count ack_failed no_route_matched message_processed result_publish_failed : Log
  reserved_extension_ignored panic_after_decision panic_while_settling observer_panicked : Log
  handling_failed message_discarded message_dead_lettered dead_letter_publish_failed : Log

pub data Target : Type 0 where
  to_result to_dead_letter : Target

pub data Effect (sdk : CloudEvents) : Type 0 where
  logged : Log → Effect sdk
  -- The preflight chain, or the handler chain of the route, was called.
  preflight_called handler_called : Effect sdk
  published : Target → sdk.Event → Effect sdk
  observed_message : Outcome → Option DeadLetterReason → Effect sdk
  observed_publish : sdk.Event → Option Err → Effect sdk

-- `warned` is the sync.Once of the mux's delivery-count warning.
pub record World (sdk : CloudEvents) (S : Type 0) : Type 0 where
  pub outside : S
  pub store : Metadata
  pub msg : Message sdk S
  pub trace : List (Effect sdk)
  pub warned : Bool

abbrev pub M : CloudEvents → Type 0 → Type 0 → Type 0
M sdk S A = World sdk S → Called A × World sdk S

module _ {sdk : CloudEvents} {S A B : Type 0} where
  abbrev pub continue : (A → M sdk S B) → Called A × World sdk S → Called B × World sdk S
  continue f (returned a, w) = f a w
  continue f (panicked v, w) = (panicked v, w)

  infixl 5 ◌>>=◌
  abbrev pub ◌>>=◌ : M sdk S A → (A → M sdk S B) → M sdk S B
  ◌>>=◌ m f w = continue f (m w)

module _ {sdk : CloudEvents} {S B : Type 0} where
  infixl 5 ◌>>◌
  abbrev pub ◌>>◌ : M sdk S (Unit {0}) → M sdk S B → M sdk S B
  ◌>>◌ m k w = continue (λ _. k) (m w)

module _ {sdk : CloudEvents} {S A : Type 0} where
  abbrev pub pure : A → M sdk S A
  pure a w = (returned a, w)

  -- A deferred function that recovers, and what it then does.
  abbrev pub on_panic : (Bytes → M sdk S A) → Called A × World sdk S → Called A × World sdk S
  on_panic f (returned a, w) = (returned a, w)
  on_panic f (panicked v, w) = f v w

  abbrev pub recovering : M sdk S A → (Bytes → M sdk S A) → M sdk S A
  recovering m f w = on_panic f (m w)

  abbrev pub back : World sdk S → Called A × S → Called A × World sdk S
  back w (r, s) = (r, record w { outside = s })

  -- A call of outside code.
  abbrev pub call : Outside S A → M sdk S A
  call f w = back w (f w.outside)

module _ {sdk : CloudEvents} {S : Type 0} where
  abbrev pub emit : Effect sdk → M sdk S (Unit {0})
  emit e w = (returned tt, record w { trace = e ∷ w.trace })

  abbrev pub get_msg : M sdk S (Message sdk S)
  get_msg w = (returned w.msg, w)
