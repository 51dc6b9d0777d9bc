-- ===== src/Pubsub/Publisher.antt =====
-- pkg/transport/gcp/pubsub/publisher.go.
use event_driven.Prelude.{Bytes, str, is_empty, insert, Option, none, some, if◌then◌else◌}
use event_driven.Error.{Err, Result, ok, err, wrap, errorf, lit, done}
use event_driven.Event.CloudEvents.{CloudEvents}
use event_driven.Envelope.{Formats}
use event_driven.Pubsub.{Sent, marshal}

-- The publisher of one topic in the client library: Publish with Get of its result, and Stop.
pub record Topic (S : Type 0) : Type 0 where
  pub publish : Sent → S → Result Bytes × S
  pub stop : S → S

pub record Publisher (S : Type 0) : Type 0 where
  pub topic : Topic S
  pub topic_id : Bytes

abbrev pub refuse : {A : Type 0} → Bytes → Result A
refuse text = err (errorf (lit text done))

abbrev pub add_traceparent : Option Bytes → Sent → Sent
add_traceparent none msg = msg
add_traceparent (some traceparent) msg = record msg {
  attributes = insert (str "traceparent") traceparent msg.attributes;
}

module _ {S : Type 0} where
  -- `client` gives the publisher of a topic, if there is a client.
  unfoldable pub new_publisher : Option (Bytes → Topic S) → Bytes → Result (Publisher S)
  new_publisher none id = refuse (str "pubsub: client is nil")
  new_publisher (some client) id =
      if is_empty id
      then refuse (str "pubsub: PublisherConfig.TopicID is empty")
      else ok (record { topic = client id; topic_id = id })

  unfoldable pub close : Publisher S → S → Option Err × S
  close p s = (none, p.topic.stop s)

  abbrev pub after_publish : Result Bytes × S → Option Err × S
  after_publish (err e, s) = (some (wrap (str "pubsub publish: ") e), s)
  after_publish (ok id, s) = (none, s)

  abbrev pub send : Publisher S → Option Bytes → S → Result Sent → Option Err × S
  send p trace s (err e) = (some (wrap (str "pubsub marshal: ") e), s)
  send p trace s (ok msg) = after_publish (p.topic.publish (add_traceparent trace msg) s)

module _ (sdk : CloudEvents) (fmt : Formats sdk) {S : Type 0} where
  -- Publisher.Publish, on the event with the trace context injected.
  unfoldable pub publish : Publisher S → Option Bytes → sdk.Event → S → Option Err × S
  unfolding marshal insert
  publish p trace ce s = send p trace s (marshal sdk fmt ce)
