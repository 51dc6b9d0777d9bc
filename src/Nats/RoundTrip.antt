-- ===== src/Nats/RoundTrip.antt =====
-- An event from a publisher of NATS, Core or JetStream, to the handler of a subscriber.
use mathlib.Core.Path.{subst}
use event_driven.Prelude.{
  ◌≡◌, refl, ap, ◌∙◌, Bytes, str, bytes_eq, Option, none, some, Bool, true, false, List, [], ◌∷◌,
  lookup, insert, if◌then◌else◌,
}
use event_driven.Error.{Result, ok, err}
use event_driven.Event.CloudEvents.{CloudEvents}
use event_driven.Envelope.{Formats, Pairs, encode, content_type, structured_type, decode_event}
use event_driven.Envelope.Attributes.{attribute, IsStorable}
use event_driven.Envelope.Attributes.Names.{IsReading}
use event_driven.Envelope.Attributes.Transport.{with_trace, decoded-sent, lookup-content_type}
use event_driven.Nats.{
  NatsMessage, OutMessage, Header, marshal, with_attributes, unmarshal, unmarshal_error, first_of,
  first_values, get, named, add_traceparent,
}

-- The header in which each name has the one value that was set.
abbrev pub header_of : Pairs → Header
header_of [] = []
header_of ((k, v) ∷ m) = (k, v ∷ []) ∷ header_of m

first_values-header_of : (m : Pairs) → first_values (header_of m) ≡ m
first_values-header_of [] = refl
first_values-header_of ((k, v) ∷ m) = ap (λ r. (k, v) ∷ r) (first_values-header_of m)

abbrev value_or_empty : Option Bytes → Bytes
value_or_empty none = []
value_or_empty (some v) = v

get-header_of : (m : Pairs) (k : Bytes) → get (header_of m) k ≡ value_or_empty (lookup k m)
unfolding get lookup
get-header_of [] k = refl
get-header_of ((j, v) ∷ m) k =
    first-if (bytes_eq j k) v (lookup k (header_of m)) (lookup k m) (get-header_of m k)
  where
    first-if :
        (b : Bool) (v : Bytes) (o : Option (List Bytes)) (p : Option Bytes)
        → first_of o ≡ value_or_empty p
        → first_of (if b then some (v ∷ []) else o) ≡ value_or_empty (if b then some v else p)
    first-if true v o p h = refl
    first-if false v o p h = h

add_traceparent-header :
    (trace : Option Bytes) (m : OutMessage)
    → (add_traceparent trace m).header ≡ with_trace trace m.header
add_traceparent-header none m = refl
add_traceparent-header (some traceparent) m = refl

module _ (sdk : CloudEvents) (fmt : Formats sdk) (from : sdk.Event) where
  with_attributes-ok :
      (subject : Bytes) (x : Result Pairs) (m : OutMessage)
      → with_attributes sdk fmt subject from x ≡ ok m
      → (attrs : Pairs) × (x ≡ ok attrs)
        × (m.header ≡ insert (str "Content-Type") (content_type sdk fmt from) attrs)
        × (m.content ≡ sdk.content from)
  with_attributes-ok subject (err e) m q = cc
  with_attributes-ok subject (ok attrs) m q =
      let sent : OutMessage = record {
        subject = subject;
        header = insert (str "Content-Type") (content_type sdk fmt from) attrs;
        content = sdk.content from;
      } in
      let same : m ≡ sent = cc in
      (attrs, refl, ap (λ (x : OutMessage). x.header) same, ap (λ (x : OutMessage). x.content) same)

  -- An event that the default marshaler turns into a NATS message is decoded as an event with the same
  -- text of every attribute and extension, the same data and the same content type, if the message that
  -- is received has the data and the header of the one that was sent, in whatever order the header is
  -- read, and whether or not the trace context was added to it. It is for events whose attributes the
  -- SDK stores as they are, and whose content type is not that of a structured envelope.
  pub unmarshal-sent :
      (subject uuid : Bytes) (trace : Option Bytes) (m : OutMessage) (attrs : Pairs) (n : Bytes)
      → IsStorable sdk fmt from
      → bytes_eq (content_type sdk fmt from) structured_type ≡ false
      → marshal sdk fmt subject from ≡ ok m
      → IsReading attrs (add_traceparent trace m).header
      → (ce : sdk.Event) × (unmarshal sdk fmt uuid
            (record { header = header_of attrs; content = m.content })
          ≡ ok ce)
        × (attribute sdk fmt n ce ≡ attribute sdk fmt n from)
        × (sdk.content ce ≡ sdk.content from)
        × (content_type sdk fmt ce ≡ content_type sdk fmt from)
  unfolding marshal unmarshal
  unmarshal-sent subject uuid trace m attrs n h binary sent reading =
      let (encoded, e, header, content) = with_attributes-ok subject (encode sdk fmt from) m sent in
      let received : NatsMessage = record { header = header_of attrs; content = m.content } in
      let reading' =
        subst (IsReading attrs) (add_traceparent-header trace m ∙ ap (with_trace trace) header)
          reading in
      let ct : get (header_of attrs) (str "Content-Type") ≡ content_type sdk fmt from =
        get-header_of attrs (str "Content-Type")
        ∙ ap value_or_empty (
            reading'.same (str "Content-Type")
            ∙ lookup-content_type trace (content_type sdk fmt from) encoded) in
      let (ce, decoded, same, body, type) =
        decoded-sent sdk fmt from h encoded attrs trace (content_type sdk fmt from)
          (get (header_of attrs) (str "Content-Type")) m.content (named sdk fmt uuid received) e
          reading' binary ct content in
      let arrives =
        (λ i. unmarshal_error sdk fmt (
          decode_event sdk fmt (get (header_of attrs) (str "Content-Type"))
            (first_values-header_of attrs i) m.content (named sdk fmt uuid received)))
        ∙ ap (unmarshal_error sdk fmt) decoded in
      (ce, arrives, same n, body, type)
