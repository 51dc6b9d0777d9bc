-- ===== src/Tests/Router.antt =====
-- A router over the concrete event type. The outside world counts what was called.
use event_driven.Prelude.{
  ℕ, suc, Bytes, str, List, [], some, none, Option, true, false, returned, Outside,
}
use event_driven.Error.{Err, foreign, ok}
use event_driven.Event.Message.{Context, Delivery, new_message}
use event_driven.Mux.Types.{Config, HandlerFunc, Mux, Publisher, Reply, Route, Runtime}
use event_driven.Mux.Effects.{World}
use event_driven.Tests.Sdk.{TestEvent, test_sdk}

-- Every call outside is counted.
abbrev pub answer : {R : Type 0} → R → Outside ℕ R
answer r s = (returned r, suc s)

abbrev pub boom : Err
boom = foreign (record { identity = 1; text = str "boom"; client_detail = none })

abbrev pub good_publisher : Publisher test_sdk ℕ
good_publisher = record { publish = λ ctx ce. answer none; observed = false }

abbrev pub bad_publisher : Publisher test_sdk ℕ
bad_publisher = record { publish = λ ctx ce. answer (some boom); observed = false }

abbrev pub delivery : ℕ → Delivery ℕ
delivery n = record {
  ack = some (answer none);
  nack = some (answer none);
  discard = none;
  count = n;
}

-- A transport like Core NATS: nothing to confirm, no redelivery.
abbrev pub bare_delivery : Delivery ℕ
bare_delivery = record { ack = none; nack = none; discard = none; count = 0 }

abbrev pub background : Context
background = record { delivery_count = none; has_store = false; detached = false }

abbrev pub order : TestEvent
order = record {
  id = str "e1";
  type = str "order.created";
  source = str "/shop";
  content = str "{}";
  extensions = [];
}

abbrev pub start_world : Delivery ℕ → World test_sdk ℕ
start_world d = record {
  outside = 0;
  store = [];
  msg = new_message background order d;
  trace = [];
  warned = false;
}

abbrev pub reply : Reply → HandlerFunc ℕ Bytes
reply r ctx payload l = (returned r, l)

abbrev pub pass : HandlerFunc ℕ Bytes
pass = reply (none, none)

abbrev pub route : HandlerFunc ℕ Bytes → Option (Publisher test_sdk ℕ) → Route test_sdk ℕ Bytes
route h p = record {
  publisher = p;
  filter = none;
  decode = λ b. answer (ok b);
  handler = h;
  chained = h;
}

abbrev pub config : ℕ → Option (Publisher test_sdk ℕ) → Config test_sdk ℕ
config max topic = record {
  name = str "orders";
  subscription = record { start = answer none; stop = answer none };
  max_retries = max;
  dead_letter = topic;
  publish_after_ack = false;
  observer = none;
}

abbrev pub runtime : Runtime test_sdk ℕ
runtime = record { new_uuid = λ s. (str "uuid", s); now = λ s. (0, s) }

abbrev pub router : Config test_sdk ℕ → List (Route test_sdk ℕ Bytes) → Mux test_sdk ℕ Bytes
router cfg rts = record {
  cfg = cfg;
  runtime = runtime;
  routes = rts;
  middlewares = [];
  preflight_middlewares = [];
  started = true;
  frozen = true;
  preflight = pass;
}
