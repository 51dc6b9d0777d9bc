-- ===== src/JetStream/Publisher.antt =====
-- pkg/transport/nats/jetstream/publisher.go.
use event_driven.Prelude.{
  Bytes, str, is_empty, Bool, Option, none, some, List, [], ◌∷◌, ◌++◌, if◌then◌else◌,
}
use event_driven.Error.{Err, Result, ok, err, errorf, lit, done, wrap}
use event_driven.Event.CloudEvents.{CloudEvents}
use event_driven.Envelope.{Formats}
use event_driven.Nats.{Marshaler, OutMessage, marshaler_or_default, add_traceparent}

-- jetstream.PublishOpt: WithMsgID, which the library uses, or another one, by a name.
pub data PublishOpt : Type 0 where
  with_msg_id : Bytes → PublishOpt
  given_option : Bytes → PublishOpt

-- A nil Marshaler is `none`.
pub record PublisherConfig (sdk : CloudEvents) : Type 0 where
  pub subject : Bytes
  pub marshaler : Option (Marshaler sdk)
  pub ack_async : Bool
  pub track_msg_id : Bool
  pub publish_opts : List PublishOpt

-- PublishMsgAsync and PublishMsg of the JetStream context.
pub record Js (S : Type 0) : Type 0 where
  pub publish_msg_async : OutMessage → List PublishOpt → S → Option Err × S
  pub publish_msg : OutMessage → List PublishOpt → S → Option Err × S

pub record Publisher (sdk : CloudEvents) (S : Type 0) : Type 0 where
  pub js : Js S
  pub cfg : PublisherConfig sdk
  pub marshaler : Marshaler sdk

abbrev pub refuse : {A : Type 0} → Bytes → Result A
refuse text = err (errorf (lit text done))

module _ {sdk : CloudEvents} (fmt : Formats sdk) where
  unfoldable pub new_publisher :
      {S : Type 0} → Option (Js S) → PublisherConfig sdk → Result (Publisher sdk S)
  unfolding marshaler_or_default
  new_publisher none cfg = refuse (str "jetstream publisher: nil JetStream")
  new_publisher (some js) cfg =
      if is_empty cfg.subject
      then refuse (str "jetstream publisher: empty subject")
      else ok
          (record { js = js; cfg = cfg; marshaler = marshaler_or_default sdk fmt cfg.marshaler })

module _ {S : Type 0} where
  abbrev pub publish_error : Bytes → Option Err × S → Option Err × S
  publish_error what (none, s) = (none, s)
  publish_error what (some e, s) = (some (wrap what e), s)

module _ {sdk : CloudEvents} {S : Type 0} (p : Publisher sdk S) where
  unfoldable pub publish_options : sdk.Event → List PublishOpt
  publish_options ce =
      p.cfg.publish_opts ++ (if p.cfg.track_msg_id then with_msg_id (sdk.id ce) ∷ [] else [])

  abbrev pub send : Option Bytes → sdk.Event → S → Result OutMessage → Option Err × S
  send trace ce s (err e) = (some (wrap (str "jetstream publish marshal: ") e), s)
  send trace ce s (ok msg) =
      if p.cfg.ack_async
      then publish_error (str "jetstream publish async: ")
          (p.js.publish_msg_async (add_traceparent trace msg) (publish_options ce) s)
      else publish_error (str "jetstream publish: ")
          (p.js.publish_msg (add_traceparent trace msg) (publish_options ce) s)

  -- Publisher.Publish, on the event with the trace context injected.
  unfoldable pub publish : Option Bytes → sdk.Event → S → Option Err × S
  unfolding publish_options
  publish trace ce s = send trace ce s (p.marshaler p.cfg.subject ce)
