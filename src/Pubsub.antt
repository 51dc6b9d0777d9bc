-- ===== src/Pubsub.antt =====
-- pkg/transport/gcp/pubsub: unmarshaler.go, marshaler.go, delivery.go and the messages of
-- subscriber.go. The Pub/Sub client is a parameter.
pub mod Receiver
pub mod Publisher
pub mod RoundTrip
pub mod Health
use event_driven.Prelude.{
  ℕ, Bytes, str, lookup, insert, Option, none, some, List, [], ◌∷◌, returned, ℤ, pos, negsuc,
}
use event_driven.Error.{Err, Result, ok, err, wrap}
use event_driven.Event.CloudEvents.{CloudEvents}
use event_driven.Event.Message.{Context, Message, Delivery, new_message, new_undecodable}
use event_driven.Envelope.{Formats, Pairs, Defaults, decode_event, rescue, encode, content_type}

abbrev pub content_type_attribute : Bytes
content_type_attribute = str "Content-Type"

-- The message of the client library that a subscription delivers, with the calls of its Ack and Nack,
-- which return nothing.
pub record Received (S : Type 0) : Type 0 where
  pub id : Bytes
  pub attributes : Pairs
  pub content : Bytes
  pub delivery_attempt : Option ℤ
  pub ack : S → S
  pub nack : S → S

abbrev pub defaults : Bytes → Defaults
defaults id = record {
  id = id;
  type = str "com.google.cloud.pubsub.message";
  source = str "//pubsub.googleapis.com";
}

abbrev pub attempt_count : Option ℤ → ℕ
attempt_count none = 0
attempt_count (some (pos n)) = n
attempt_count (some (negsuc n)) = 0

abbrev pub or_empty : Option Bytes → Bytes
or_empty none = []
or_empty (some v) = v

module _ {S : Type 0} where
  unfoldable pub delivery_count : Received S → ℕ
  delivery_count m = attempt_count m.delivery_attempt

  -- The Delivery that the callback of Receive makes.
  unfoldable pub new_delivery : Received S → Delivery S
  unfolding delivery_count
  new_delivery m = record {
    ack = some (λ s. (returned none, m.ack s));
    nack = some (λ s. (returned none, m.nack s));
    discard = none;
    count = delivery_count m;
  }

  unfoldable pub message_content_type : Received S → Bytes
  unfolding lookup
  message_content_type m = or_empty (lookup content_type_attribute m.attributes)

abbrev pub unmarshal_error {ℓ} : {A : Type ℓ} → Result A → Result A
unmarshal_error (ok a) = ok a
unmarshal_error (err e) = err (wrap (str "pubsub: unmarshal: ") e)

module _ (sdk : CloudEvents) (fmt : Formats sdk) {S : Type 0} where
  unfoldable pub unmarshal : Received S → Result sdk.Event
  unfolding decode_event message_content_type
  unmarshal m =
      unmarshal_error
        (decode_event sdk fmt (message_content_type m) m.attributes m.content (defaults m.id))

  abbrev pub message_of : Context → Received S → Result sdk.Event → Message sdk S
  message_of ctx m (err e) =
      new_undecodable ctx (rescue sdk fmt (defaults m.id) (message_content_type m) m.content)
        (new_delivery m) e
  message_of ctx m (ok ce) = new_message ctx ce (new_delivery m)

  -- The message that the callback of Receive hands to the handler.
  unfoldable pub message_for : Context → Received S → Message sdk S
  unfolding unmarshal new_delivery rescue new_message new_undecodable message_content_type
  message_for ctx m = message_of ctx m (unmarshal m)

-- The message that a publisher sends.
pub record Sent : Type 0 where
  pub content : Bytes
  pub attributes : Pairs

module _ (sdk : CloudEvents) (fmt : Formats sdk) where
  abbrev pub with_attributes : sdk.Event → Result Pairs → Result Sent
  with_attributes ce (err e) = err (wrap (str "pubsub: marshal: ") e)
  with_attributes ce (ok attrs) = ok (record {
    content = sdk.content ce;
    attributes = insert content_type_attribute (content_type sdk fmt ce) attrs;
  })

  unfoldable pub marshal : sdk.Event → Result Sent
  unfolding encode content_type insert
  marshal ce = with_attributes ce (encode sdk fmt ce)
