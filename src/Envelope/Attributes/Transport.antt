-- ===== src/Envelope/Attributes/Transport.antt =====
-- The pairs of an event as a transport sends them: with its content type, and with the trace context
-- where there is one.
use mathlib.Core.Path.{subst}
use event_driven.Prelude.{
  sym, ◌≡◌, refl, ◌∙◌, Bytes, str, bytes_eq, any, false, [], Option, none, some, ◌++◌, lookup,
  insert, lookup-insert, cut_prefix,
}
use event_driven.Error.{ok}
use event_driven.Event.CloudEvents.{CloudEvents}
use event_driven.Envelope.{
  Formats, Pairs, Defaults, prefix, encode, content_type, structured_type, decode_event,
}
use event_driven.Envelope.Attributes.{attribute, required, IsStorable}
use event_driven.Envelope.Attributes.Copied.{IsGood, ignored}
use event_driven.Envelope.Attributes.Sent.{IsClean, insert-IsClean, encode-IsClean}
use event_driven.Envelope.Attributes.Complete.{insert-missing, encode-IsComplete}
use event_driven.Envelope.Attributes.Carried.{Restores, decode_event-Restores}
use event_driven.Envelope.Attributes.Names.{IsReading}

abbrev pub with_trace : Option Bytes → Pairs → Pairs
with_trace none m = m
with_trace (some traceparent) m = insert (str "traceparent") traceparent m

module _ (sdk : CloudEvents) (fmt : Formats sdk) (from : sdk.Event) where
  abbrev pub IsComplete : Pairs → Type 0
  IsComplete m =
      (n : Bytes)
      → lookup (prefix ++ n) m ≡ none
      → (any (bytes_eq n) required ≡ false) × (attribute sdk fmt n from ≡ [])

  insert-IsComplete : (k v : Bytes) (m : Pairs) → IsComplete m → IsComplete (insert k v m)
  insert-IsComplete k v m c n q = c n (insert-missing (prefix ++ n) k v m q).1

  with_trace-IsComplete :
      (trace : Option Bytes) (m : Pairs) → IsComplete m → IsComplete (with_trace trace m)
  with_trace-IsComplete none m c = c
  with_trace-IsComplete (some traceparent) m c =
      insert-IsComplete (str "traceparent") traceparent m c

  module _ (h : IsStorable sdk fmt from) where
    content_type-IsGood : (ct : Bytes) → IsGood sdk fmt from (str "Content-Type") ct
    unfolding cut_prefix
    content_type-IsGood ct = ignored (rw h.content_type_key refl) refl

    trace-IsGood : (traceparent : Bytes) → IsGood sdk fmt from (str "traceparent") traceparent
    unfolding cut_prefix
    trace-IsGood traceparent = ignored (rw (h.to_lower (str "traceparent") refl) refl) refl

    with_trace-IsClean :
        (trace : Option Bytes) (m : Pairs)
        → IsClean sdk fmt from h m
        → IsClean sdk fmt from h (with_trace trace m)
    with_trace-IsClean none m c = c
    with_trace-IsClean (some traceparent) m c =
        insert-IsClean sdk fmt from h (str "traceparent") traceparent m (trace-IsGood traceparent) c

    -- What a transport sends of an event in binary mode decodes to the event, in whatever order the
    -- receiver reads the pairs, whatever the defaults, and whether or not a trace context is added.
    pub decode_event-sent :
        (encoded attrs : Pairs) (trace : Option Bytes) (ct : Bytes) (def : Defaults)
        → encode sdk fmt from ≡ ok encoded
        → IsReading attrs (with_trace trace (insert (str "Content-Type") ct encoded))
        → bytes_eq (content_type sdk fmt from) structured_type ≡ false
        → Restores sdk fmt from h
            (decode_event sdk fmt (content_type sdk fmt from) attrs (sdk.content from) def)
    decode_event-sent encoded attrs trace ct def e reading binary =
        let sent = insert (str "Content-Type") ct encoded in
        decode_event-Restores sdk fmt from h attrs (with_trace trace sent) def
          (with_trace-IsClean trace sent (
            insert-IsClean sdk fmt from h (str "Content-Type") ct encoded (content_type-IsGood ct)
              (encode-IsClean sdk fmt from h encoded e)))
          (with_trace-IsComplete trace sent (
            insert-IsComplete (str "Content-Type") ct encoded
              (λ n q. encode-IsComplete sdk fmt from encoded n e q)))
          reading binary

    -- The same, for what a receiver makes of the content type and the body.
    pub decoded-sent :
        (encoded attrs : Pairs) (trace : Option Bytes) (sent_type ct body : Bytes) (def : Defaults)
        → encode sdk fmt from ≡ ok encoded
        → IsReading attrs (with_trace trace (insert (str "Content-Type") sent_type encoded))
        → bytes_eq (content_type sdk fmt from) structured_type ≡ false
        → ct ≡ content_type sdk fmt from
        → body ≡ sdk.content from
        → Restores sdk fmt from h (decode_event sdk fmt ct attrs body def)
    decoded-sent encoded attrs trace sent_type ct body def e reading binary same_type same_body =
        subst (Restores sdk fmt from h)
          (λ i. decode_event sdk fmt (sym same_type i) attrs (sym same_body i) def)
          (decode_event-sent encoded attrs trace sent_type def e reading binary)

-- The content type of what is sent.
pub lookup-content_type :
    (trace : Option Bytes) (ct : Bytes) (m : Pairs)
    → lookup (str "Content-Type") (with_trace trace (insert (str "Content-Type") ct m)) ≡ some ct
unfolding bytes_eq
lookup-content_type none ct m = lookup-insert (str "Content-Type") (str "Content-Type") ct m
lookup-content_type (some traceparent) ct m =
    lookup-insert (str "traceparent") (str "Content-Type") traceparent _
    ∙ lookup-insert (str "Content-Type") (str "Content-Type") ct m
