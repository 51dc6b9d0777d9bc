-- ===== src/Event/Tracing.antt =====
-- pkg/event/tracing.go: the trace context of a message, in the native carrier of a transport and in an
-- extension of the event. The trace library (github.com/norlis/httpgate/trace) is a parameter.
pub mod Hops
use event_driven.Prelude.{Bytes, str, Option, none, some}
use event_driven.Error.{Result, ok, err}
use event_driven.Event.CloudEvents.{CloudEvents}
use event_driven.Event.Correlation.{extension}

-- trace.Context
pub record TraceContext : Type 0 where
  pub trace_id : Bytes
  pub span_id : Bytes

-- trace.Parse, Traceparent, NewSpanID and New; the last two draw from a source of random numbers.
pub record Tracer (R : Type 0) : Type 0 where
  pub parse : Bytes → Result TraceContext
  pub traceparent : TraceContext → Bytes
  pub new_span_id : R → Bytes × R
  pub new_trace : R → TraceContext × R

abbrev pub traceparent_extension : Bytes
traceparent_extension = str "traceparent"

module _ (sdk : CloudEvents) {R : Type 0} (tracer : Tracer R) where
  abbrev pub parsed : Result TraceContext → Option TraceContext
  parsed (ok tc) = some tc
  parsed (err e) = none

  -- The value of the extension as a string, if it is one.
  abbrev pub text_of : Option sdk.Value → Option Bytes
  text_of none = none
  text_of (some v) = sdk.as_text v

  abbrev pub parsed_text : Option Bytes → Option TraceContext
  parsed_text none = none
  parsed_text (some s) = parsed (tracer.parse s)

  unfoldable pub trace_from_cloud_event : sdk.Event → Option TraceContext
  unfolding extension
  trace_from_cloud_event ce = parsed_text (text_of (extension sdk ce traceparent_extension))

  unfoldable pub inject_trace : TraceContext → sdk.Event → sdk.Event
  inject_trace tc ce = sdk.set_extension traceparent_extension (sdk.text (tracer.traceparent tc)) ce

  -- An inherited trace, with a span of its own.
  abbrev pub continue_trace : TraceContext → R → TraceContext × R
  continue_trace tc r =
      let (span, r') = tracer.new_span_id r in
      (record { trace_id = tc.trace_id; span_id = span }, r')

  abbrev pub inherit_trace : Option TraceContext → R → TraceContext × R
  inherit_trace none r = tracer.new_trace r
  inherit_trace (some tc) r = continue_trace tc r

  abbrev pub event_trace : Option sdk.Event → Option TraceContext
  event_trace none = none
  event_trace (some ce) = trace_from_cloud_event ce

  abbrev pub carried_or : Result TraceContext → Option sdk.Event → R → TraceContext × R
  carried_or (ok tc) ce r = continue_trace tc r
  carried_or (err e) ce r = inherit_trace (event_trace ce) r

  -- inheritOrNewTrace, and so the trace in the context of ContextWithTrace; a nil event is `none`.
  unfoldable pub inherit_or_new_trace : Bytes → Option sdk.Event → R → TraceContext × R
  unfolding trace_from_cloud_event
  inherit_or_new_trace carrier ce r = carried_or (tracer.parse carrier) ce r

  -- InjectTraceFromContext, on the trace of the context, if it has one: the event, and the trace for
  -- the native carrier.
  unfoldable pub inject_trace_from_context :
      Option TraceContext → sdk.Event → Option TraceContext × sdk.Event
  unfolding inject_trace
  inject_trace_from_context none ce = (none, ce)
  inject_trace_from_context (some tc) ce = (some tc, inject_trace tc ce)
