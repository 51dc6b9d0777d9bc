-- ===== src/Tests/Traces.antt =====
-- A trace library over the concrete codec, and a chain of services.
use event_driven.Prelude.{ℕ, suc, ◌≡◌, refl, Bytes, str, some, none, List, [], ◌∷◌}
use event_driven.Error.{Result, ok, err}
use event_driven.Event.Tracing.{TraceContext, Tracer}
use event_driven.Event.Tracing.Hops.{Hop, last_trace, IsTracer, last_trace-trace_id}
use event_driven.Tests.Sdk.{test_sdk}
use event_driven.Tests.Router.{boom, order}
use event_driven.Tests.Codec.{put, fields, fields-put}

abbrev build : List Bytes → Result TraceContext
build (trace_id ∷ span_id ∷ []) = ok (record { trace_id = trace_id; span_id = span_id })
build _ = err boom

-- A new span is named by the numbers drawn so far.
abbrev tracer : Tracer ℕ
tracer = record {
  parse = λ s. build (fields s);
  traceparent = λ tc. put tc.trace_id (put tc.span_id []);
  new_span_id = λ r. (r ∷ [], suc r);
  new_trace = λ r. (record { trace_id = r ∷ []; span_id = r ∷ [] }, suc r);
}

tracer-IsTracer : IsTracer test_sdk tracer (λ tc. Unit)
tracer-IsTracer = record {
  parse-traceparent =
      λ tc v. rw (fields-put tc.trace_id (put tc.span_id []), fields-put tc.span_id []) refl;
  new_span = λ tc r v. tt;
}

abbrev chain_of_two : List (Hop test_sdk tracer)
chain_of_two =
    record { published = order; stripped = some [] }
    ∷ record { published = order; stripped = none }
    ∷ []

abbrev first_trace : TraceContext
first_trace = record { trace_id = str "t"; span_id = str "s" }

abbrev seed : ℕ
seed = 7

last_trace-trace_id_example :
    (last_trace test_sdk tracer chain_of_two first_trace seed).trace_id ≡ str "t"
last_trace-trace_id_example =
    last_trace-trace_id test_sdk tracer (λ tc. Unit) chain_of_two first_trace seed tracer-IsTracer
      tt ((boom, refl), (tt, tt))
