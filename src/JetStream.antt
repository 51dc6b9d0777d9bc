-- ===== src/JetStream.antt =====
-- pkg/transport/nats/jetstream: delivery.go, and the messages of subscriber.go, over the codec of Nats.
-- The JetStream client is a parameter.
pub mod Deliveries
pub mod Consumer
pub mod Publisher
pub mod Health
use event_driven.Prelude.{
  ℕ, ltb_ℤ, ℤ, pos, to_ℕ, Bytes, str, ◌++◌, Option, none, some, Called, returned, if◌then◌else◌,
}
use event_driven.Error.{Err, Result, ok, err, wrap}
use event_driven.Event.CloudEvents.{CloudEvents}
use event_driven.Event.Message.{Context, Message, Delivery, new_message, new_undecodable}
use event_driven.Envelope.{Formats}
use event_driven.Nats.{NatsMessage, unmarshal, rescue_message}

-- jetstream.Msg: what it carries, the number of deliveries of its Metadata, or the error of that, and
-- its answers to the server. The delay is in nanoseconds.
pub record Msg (S : Type 0) : Type 0 where
  pub received : NatsMessage
  pub num_delivered : Result ℕ
  pub ack : S → Option Err × S
  pub nak : S → Option Err × S
  pub nak_with_delay : ℕ → S → Option Err × S
  pub term_with_reason : Bytes → S → Option Err × S

abbrev pub term_reason_discarded : Bytes
term_reason_discarded = str "discarded by eventmux"

abbrev pub count_or_zero : Result ℕ → ℕ
count_or_zero (ok n) = n
count_or_zero (err e) = 0

abbrev pub wrap_operation : Bytes → Option Err → Option Err
wrap_operation op none = none
wrap_operation op (some e) = some (wrap (str "jetstream: " ++ op ++ str ": ") e)

module _ {S : Type 0} where
  abbrev pub answered : Bytes → Option Err × S → Called (Option Err) × S
  answered op (e, s) = (returned (wrap_operation op e), s)

  unfoldable pub new_delivery : ℤ → Msg S → Delivery S
  new_delivery nak_delay msg = record {
    ack = some (λ s. answered (str "ack") (msg.ack s));
    nack = some (λ s.
        if ltb_ℤ (pos 0) nak_delay
        then answered (str "nak") (msg.nak_with_delay (to_ℕ nak_delay) s)
        else answered (str "nak") (msg.nak s));
    discard = some (λ s. answered (str "term") (msg.term_with_reason term_reason_discarded s));
    count = count_or_zero msg.num_delivered;
  }

module _ (sdk : CloudEvents) (fmt : Formats sdk) {S : Type 0} where
  abbrev pub message_of : Context → Bytes → ℤ → Msg S → Result sdk.Event → Message sdk S
  message_of ctx rescue_uuid nak_delay msg (err e) =
      new_undecodable ctx (rescue_message sdk fmt rescue_uuid msg.received)
        (new_delivery nak_delay msg) e
  message_of ctx rescue_uuid nak_delay msg (ok ce) = new_message ctx ce (new_delivery nak_delay msg)

  -- The message that the callback of Consume hands to the handler; the UUIDs are those that Unmarshal
  -- and Rescue draw.
  unfoldable pub message_for : Context → Bytes → Bytes → ℤ → Msg S → Message sdk S
  unfolding new_delivery unmarshal rescue_message new_message new_undecodable
  message_for ctx uuid rescue_uuid nak_delay msg =
      message_of ctx rescue_uuid nak_delay msg (unmarshal sdk fmt uuid msg.received)
