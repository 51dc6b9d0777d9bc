-- ===== src/Nats/Publisher.antt =====
-- pkg/transport/nats/core/publisher.go.
use event_driven.Prelude.{if◌then◌else◌, Bytes, str, is_empty, insert, Option, none, some}
use event_driven.Error.{Err, Result, ok, err, errorf, lit, done, wrap}
use event_driven.Event.CloudEvents.{CloudEvents}
use event_driven.Envelope.{Formats}
use event_driven.Nats.{OutMessage, Marshaler, marshaler_or_default, add_traceparent}

abbrev pub refuse : {A : Type 0} → Bytes → Result A
refuse text = err (errorf (lit text done))

-- A nil Marshaler is `none`.
pub record PublisherConfig (sdk : CloudEvents) : Type 0 where
  pub subject : Bytes
  pub marshaler : Option (Marshaler sdk)

-- `publish_msg` is PublishMsg of the connection.
pub record Publisher (sdk : CloudEvents) (S : Type 0) : Type 0 where
  pub publish_msg : OutMessage → S → Option Err × S
  pub subject : Bytes
  pub marshaler : Marshaler sdk

module _ {sdk : CloudEvents} (fmt : Formats sdk) {S : Type 0} where
  -- NewPublisher; the connection is given by its PublishMsg.
  unfoldable pub new_publisher :
      Option (OutMessage → S → Option Err × S) → PublisherConfig sdk → Result (Publisher sdk S)
  unfolding marshaler_or_default
  new_publisher none cfg = refuse (str "core publisher: nil nats connection")
  new_publisher (some nc) cfg =
      if is_empty cfg.subject
      then refuse (str "core publisher: empty subject")
      else ok (record {
        publish_msg = nc;
        subject = cfg.subject;
        marshaler = marshaler_or_default sdk fmt cfg.marshaler;
      })

module _ {S : Type 0} where
  abbrev pub publish_error : Option Err × S → Option Err × S
  publish_error (none, s) = (none, s)
  publish_error (some e, s) = (some (wrap (str "core publish: ") e), s)

module _ {sdk : CloudEvents} {S : Type 0} (p : Publisher sdk S) where
  abbrev pub send : Option Bytes → S → Result OutMessage → Option Err × S
  send trace s (err e) = (some (wrap (str "core publish marshal: ") e), s)
  send trace s (ok msg) = publish_error (p.publish_msg (add_traceparent trace msg) s)

  -- Publisher.Publish, on the event with the trace context injected.
  unfoldable pub publish : Option Bytes → sdk.Event → S → Option Err × S
  unfolding insert
  publish trace ce s = send trace s (p.marshaler p.subject ce)
