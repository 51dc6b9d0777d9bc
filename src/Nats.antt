-- ===== src/Nats.antt =====
-- pkg/transport/nats/codec: the codec of NATS messages, for Core NATS and JetStream, and the messages of
-- core/subscriber.go, which has nothing to confirm and does not redeliver.
pub mod Core
pub mod Publisher
pub mod Deliveries
pub mod Drains
pub mod RoundTrip
use event_driven.Prelude.{
  quoted, ℕ, zero, suc, if◌then◌else◌, Bytes, str, is_empty, bytes_eq, lookup, insert, Bool, true,
  false, not, Option, none, some, List, [], ◌∷◌,
}
use event_driven.Error.{
  Err, Result, ok, err, errorf, lit, verb, done, wrap, sentinel, already_started, deadline_exceeded,
}
use event_driven.Event.CloudEvents.{CloudEvents}
use event_driven.Event.Message.{Context, Message, Delivery, new_message, new_undecodable}
use event_driven.Envelope.{Formats, Pairs, Defaults, decode_event, rescue, encode, content_type}

-- natsgo.Header: the values of each name.
abbrev pub Header : Type 0
Header = List (Bytes × List Bytes)

abbrev pub first_of : Option (List Bytes) → Bytes
first_of none = []
first_of (some []) = []
first_of (some (v ∷ vs)) = v

-- Header.Get
unfoldable pub get : Header → Bytes → Bytes
unfolding lookup
get h name = first_of (lookup name h)

abbrev pub first_values : Header → Pairs
first_values [] = []
first_values ((k, []) ∷ h) = first_values h
first_values ((k, v ∷ vs) ∷ h) = (k, v) ∷ first_values h

-- The id of a message: Nats-Msg-Id, or else this new UUID.
abbrev pub id_or : Bytes → Bytes → Bytes
id_or uuid [] = uuid
id_or uuid (c ∷ s) = c ∷ s

abbrev pub defaults : Defaults
defaults = record { id = []; type = str "io.nats.message"; source = str "//nats.io" }

-- natsgo.Msg
pub record NatsMessage : Type 0 where
  pub header : Header
  pub content : Bytes

module _ (sdk : CloudEvents) (fmt : Formats sdk) where
  abbrev pub named : Bytes → NatsMessage → Defaults
  named uuid m = record defaults { id = id_or uuid (get m.header (str "Nats-Msg-Id")) }

  abbrev pub unmarshal_error : Result sdk.Event → Result sdk.Event
  unmarshal_error (ok ce) = ok ce
  unmarshal_error (err e) = err (wrap (str "nats: unmarshal: ") e)

  -- codec.Unmarshal
  unfoldable pub unmarshal : Bytes → NatsMessage → Result sdk.Event
  unfolding decode_event get
  unmarshal uuid m = unmarshal_error (
      decode_event sdk fmt (get m.header (str "Content-Type")) (first_values m.header) m.content
        (named uuid m))

  -- codec.Rescue
  unfoldable pub rescue_message : Bytes → NatsMessage → sdk.Event
  unfolding rescue get
  rescue_message uuid m =
      rescue sdk fmt (named uuid m) (get m.header (str "Content-Type")) m.content

  -- event.Delivery{}
  abbrev pub no_delivery : {S : Type 0} → Delivery S
  no_delivery = record { ack = none; nack = none; discard = none; count = 0 }

  abbrev pub message_of :
      {S : Type 0} → Context → Bytes → NatsMessage → Result sdk.Event → Message sdk S
  message_of ctx rescue_uuid m (err e) =
      new_undecodable ctx (rescue_message rescue_uuid m) no_delivery e
  message_of ctx rescue_uuid m (ok ce) = new_message ctx ce no_delivery

  -- The message that the callback of Start hands to the handler; the UUIDs are those that Unmarshal
  -- and Rescue draw.
  unfoldable pub message_for : {S : Type 0} → Context → Bytes → Bytes → NatsMessage → Message sdk S
  unfolding unmarshal rescue_message new_message new_undecodable
  message_for ctx uuid rescue_uuid m = message_of ctx rescue_uuid m (unmarshal uuid m)

-- The message that a marshaler makes. A header that is set has one value.
pub record OutMessage : Type 0 where
  pub subject : Bytes
  pub header : Pairs
  pub content : Bytes

abbrev pub Marshaler : CloudEvents → Type 0
Marshaler sdk = Bytes → sdk.Event → Result OutMessage

module _ (sdk : CloudEvents) (fmt : Formats sdk) where
  abbrev pub with_attributes : Bytes → sdk.Event → Result Pairs → Result OutMessage
  with_attributes subject ce (err e) = err (wrap (str "nats: marshal: ") e)
  with_attributes subject ce (ok attrs) = ok (record {
    subject = subject;
    header = insert (str "Content-Type") (content_type sdk fmt ce) attrs;
    content = sdk.content ce;
  })

  -- DefaultMarshaler.Marshal
  unfoldable pub marshal : Marshaler sdk
  unfolding encode content_type insert
  marshal subject ce = with_attributes subject ce (encode sdk fmt ce)

  unfoldable pub marshaler_or_default : Option (Marshaler sdk) → Marshaler sdk
  unfolding marshal
  marshaler_or_default none = marshal
  marshaler_or_default (some m) = m

abbrev pub add_traceparent : Option Bytes → OutMessage → OutMessage
add_traceparent none msg = msg
add_traceparent (some traceparent) msg = record msg {
  header = insert (str "traceparent") traceparent msg.header;
}
