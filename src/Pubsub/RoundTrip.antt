-- ===== src/Pubsub/RoundTrip.antt =====
-- An event from Publish to the handler of a subscription.
use mathlib.Core.Path.{subst}
use event_driven.Prelude.{
  ◌≡◌, refl, ap, ◌∙◌, Bytes, str, bytes_eq, Option, none, some, false, insert,
}
use event_driven.Error.{Result, ok, err}
use event_driven.Event.CloudEvents.{CloudEvents}
use event_driven.Envelope.{Formats, Pairs, encode, content_type, structured_type}
use event_driven.Envelope.Attributes.{attribute, IsStorable}
use event_driven.Envelope.Attributes.Names.{IsReading}
use event_driven.Envelope.Attributes.Transport.{with_trace, decoded-sent, lookup-content_type}
use event_driven.Pubsub.{
  Received, Sent, marshal, with_attributes, unmarshal, unmarshal_error, message_content_type,
  or_empty, defaults,
}
use event_driven.Pubsub.Publisher.{add_traceparent}

add_traceparent-attributes :
    (trace : Option Bytes) (m : Sent)
    → (add_traceparent trace m).attributes ≡ with_trace trace m.attributes
add_traceparent-attributes none m = refl
add_traceparent-attributes (some traceparent) m = refl

module _ (sdk : CloudEvents) (fmt : Formats sdk) (from : sdk.Event) where
  with_attributes-ok :
      (x : Result Pairs) (m : Sent)
      → with_attributes sdk fmt from x ≡ ok m
      → (attrs : Pairs) × (x ≡ ok attrs)
        × (m ≡ record {
          content = sdk.content from;
          attributes = insert (str "Content-Type") (content_type sdk fmt from) attrs;
        })
  with_attributes-ok (err e) m q = cc
  with_attributes-ok (ok attrs) m q = (attrs, refl, cc)

  abbrev Arrives : Bytes → Result sdk.Event → Type 0
  Arrives n r =
      (ce : sdk.Event) × (r ≡ ok ce)
      × (attribute sdk fmt n ce ≡ attribute sdk fmt n from)
      × (sdk.content ce ≡ sdk.content from)
      × (content_type sdk fmt ce ≡ content_type sdk fmt from)

  sent-Arrives :
      {S : Type 0} (trace : Option Bytes) (attrs : Pairs) (received : Received S) (n : Bytes)
      → IsStorable sdk fmt from
      → bytes_eq (content_type sdk fmt from) structured_type ≡ false
      → encode sdk fmt from ≡ ok attrs
      → IsReading received.attributes
          (with_trace trace (insert (str "Content-Type") (content_type sdk fmt from) attrs))
      → received.content ≡ sdk.content from
      → Arrives n (unmarshal sdk fmt received)
  unfolding unmarshal message_content_type
  sent-Arrives trace attrs received n h binary e reading content =
      let ct : message_content_type received ≡ content_type sdk fmt from = ap or_empty (
        reading.same (str "Content-Type")
        ∙ lookup-content_type trace (content_type sdk fmt from) attrs) in
      let (ce, decoded, same, body, type) =
        decoded-sent sdk fmt from h attrs received.attributes trace (content_type sdk fmt from)
          (message_content_type received) received.content (defaults received.id) e reading binary
          ct content in
      (ce, ap unmarshal_error decoded, same n, body, type)

  -- An event that Publish sends reaches the handlers of a subscription as an event with the same text
  -- of every attribute and extension, the same data and the same content type, if the message that is
  -- received has the data and the attributes of the one that was sent, in whatever order they are
  -- read, and whether or not the trace context was added to them. It is for events whose attributes
  -- the SDK stores as they are, and whose content type is not that of a structured envelope.
  pub unmarshal-marshal :
      {S : Type 0} (trace : Option Bytes) (m : Sent) (received : Received S) (n : Bytes)
      → IsStorable sdk fmt from
      → bytes_eq (content_type sdk fmt from) structured_type ≡ false
      → marshal sdk fmt from ≡ ok m
      → IsReading received.attributes (add_traceparent trace m).attributes
      → received.content ≡ m.content
      → (ce : sdk.Event) × (unmarshal sdk fmt received ≡ ok ce)
        × (attribute sdk fmt n ce ≡ attribute sdk fmt n from)
        × (sdk.content ce ≡ sdk.content from)
        × (content_type sdk fmt ce ≡ content_type sdk fmt from)
  unfolding marshal
  unmarshal-marshal trace m received n h binary sent reading content =
      let (attrs, e, same) = with_attributes-ok (encode sdk fmt from) m sent in
      let reading' =
        subst (IsReading received.attributes)
          (add_traceparent-attributes trace m
            ∙ ap (λ (x : Sent). with_trace trace x.attributes) same)
          reading in
      sent-Arrives trace attrs received n h binary e reading'
        (content ∙ ap (λ (x : Sent). x.content) same)
