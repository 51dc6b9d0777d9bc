-- ===== src/Event/Tracing/Hops.antt =====
-- A trace through a chain of services.
use event_driven.Prelude.{
  All, ◌≡◌, refl, ap, ◌∙◌, Bytes, bytes_eq, Option, none, some, List, [], ◌∷◌,
}
use event_driven.Error.{Err, ok, err}
use event_driven.Event.CloudEvents.{CloudEvents, is_extension_name}
use event_driven.Event.Correlation.{extension}
use event_driven.Event.Tracing.{
  TraceContext, Tracer, traceparent_extension, parsed, text_of, parsed_text, trace_from_cloud_event,
  inject_trace, carried_or, inherit_or_new_trace, continue_trace, inherit_trace,
  inject_trace_from_context,
}

module _ (sdk : CloudEvents) {R : Type 0} (tracer : Tracer R) where
  -- A service publishes an event, and the next one receives it, with the native carrier as it was sent, or
  -- with another text in its place.
  pub record Hop : Type 0 where
    pub published : sdk.Event
    pub stripped : Option Bytes

  -- What the receiver finds in the native carrier.
  abbrev pub carrier : Option Bytes → TraceContext → Bytes
  carrier none tc = tracer.traceparent tc
  carrier (some other_text) tc = other_text

  -- The trace of the receiver, of an event that is published under the trace of the sender.
  abbrev pub next_trace : Hop → TraceContext → R → TraceContext × R
  next_trace hop tc r =
      inherit_or_new_trace sdk tracer (carrier hop.stripped tc)
        (some (inject_trace_from_context sdk tracer (some tc) hop.published).1) r

  abbrev pub last_trace : List Hop → TraceContext → R → TraceContext
  last_trace [] tc r = tc
  last_trace (hop ∷ hops) tc r = let (tc', r') = next_trace hop tc r in last_trace hops tc' r'

  trace-inject :
      (tc : TraceContext) (ce : sdk.Event)
      → tracer.parse (tracer.traceparent tc) ≡ ok tc
      → trace_from_cloud_event sdk tracer (inject_trace sdk tracer tc ce) ≡ some tc
  unfolding trace_from_cloud_event inject_trace extension is_extension_name bytes_eq
  trace-inject tc ce h =
      ap (λ v. parsed_text sdk tracer (text_of sdk tracer v))
        (sdk.set_extension-lookup traceparent_extension traceparent_extension
          (sdk.text (tracer.traceparent tc)) ce refl)
      ∙ ap (parsed_text sdk tracer) (sdk.as_text-text (tracer.traceparent tc))
      ∙ ap (parsed sdk tracer) h

  -- What the trace library promises of the traces that are valid: they are read as they were written, and
  -- stay valid with a new span.
  pub record IsTracer (Valid : TraceContext → Type 0) : Type 0 where
    pub parse-traceparent :
        (tc : TraceContext) → Valid tc → tracer.parse (tracer.traceparent tc) ≡ ok tc
    pub new_span : (tc : TraceContext) (r : R) → Valid tc → Valid (continue_trace sdk tracer tc r).0

  -- Where the carrier was replaced, nothing in it parses.
  abbrev pub IsUnread : Option Bytes → Type 0
  IsUnread none = Unit
  IsUnread (some other_text) = (e : Err) × (tracer.parse other_text ≡ err e)

  next-continues :
      (stripped : Option Bytes) (tc : TraceContext) (ce : sdk.Event) (r : R)
      → tracer.parse (tracer.traceparent tc) ≡ ok tc
      → IsUnread stripped
      → inherit_or_new_trace sdk tracer
          (carrier stripped tc)
          (some (inject_trace_from_context sdk tracer (some tc) ce).1)
          r
        ≡ continue_trace sdk tracer tc r
  unfolding inherit_or_new_trace inject_trace_from_context
  next-continues none tc ce r h u =
      ap (λ x. carried_or sdk tracer x (some (inject_trace sdk tracer tc ce)) r) h
  next-continues (some other_text) tc ce r h (e, u) =
      ap (λ x. carried_or sdk tracer x (some (inject_trace sdk tracer tc ce)) r) u
      ∙ ap (λ x. inherit_trace sdk tracer x r) (trace-inject tc ce h)

  -- Through any chain of services, each of which publishes an event under the trace with which it received
  -- one, the trace id stays that of the first, also where transports strip their native carrier, if what they
  -- leave in it does not parse: the extension of the event takes its place.
  pub last_trace-trace_id :
      (Valid : TraceContext → Type 0) (hops : List Hop) (tc : TraceContext) (r : R)
      → IsTracer Valid
      → Valid tc
      → All (λ hop. IsUnread hop.stripped) hops
      → (last_trace hops tc r).trace_id ≡ tc.trace_id
  last_trace-trace_id Valid [] tc r laws v u = refl
  last_trace-trace_id Valid (hop ∷ hops) tc r laws v (u, us) =
      let step = next-continues hop.stripped tc hop.published r (laws.parse-traceparent tc v) u in
      let after = continue_trace sdk tracer tc r in
      ap (λ (x : TraceContext × R). (last_trace hops x.0 x.1).trace_id) step
      ∙ last_trace-trace_id Valid hops after.0 after.1 laws (laws.new_span tc r v) us
