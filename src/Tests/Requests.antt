-- ===== src/Tests/Requests.antt =====
-- Concrete requests, answers, tokens, filters and skippers.
use event_driven.Prelude.{
  ℕ, ◌≢◌, ◌≤◌, pos, suc, ◌≡◌, ◌↔◌, refl, arith, true, false, some, none, [], ◌∷◌, List, Bytes, str,
  inl, bytes_eq, lookup,
}
use event_driven.Error.{Result, ok, no_route}
use event_driven.Event.Message.{acked}
use event_driven.Http.{Response, ErrorRule}
use event_driven.Http.Request.{
  Incoming, Library, SubscriberConfig, refused, unreadable, read, extract_cloud_event,
}
use event_driven.Http.Request.Correlated.{IsAccepted, extract_cloud_event-IsAccepted}
use event_driven.Http.Server.{Router, Subscriber, serve}
use event_driven.Http.Server.Answers.{Succeeded, serve-Succeeded}
use event_driven.Http.Token.{TokenConfig, Provider, Remote, responded, text, positive, token}
use event_driven.Http.Token.Fresh.{IsServed, token-IsServed}
use event_driven.Http.Client.{default_retry_condition}
use event_driven.Http.Client.{new_client}
use event_driven.Http.Forward.{Wire, Publisher, after_post}
use event_driven.Http.Forward.Permanent.{final_error, after_post-final}
use event_driven.Middlewares.{Predicate, by_err}
use event_driven.Tests.Sdk.{test_sdk}
use event_driven.Tests.Router.{boom, background}

abbrev library : Library test_sdk ℕ
library = record {
  now = λ s. (s, suc s);
  unix = λ s. s;
  new_uuid = λ s. (str "u1", suc s);
  decimal = λ n. str "262144";
  valid_string = λ b. true;
}

abbrev http_config : SubscriberConfig
http_config = record {
  route_pattern = str "POST /command";
  default_type = str "order.created";
  max_body_bytes = 262144;
}

-- A plain JSON request without identifiers.
abbrev plain : Incoming test_sdk
plain = record {
  method = str "POST";
  path = str "/command";
  host = str "shop";
  tls = true;
  spec_version_header = [];
  message_id_header = [];
  correlation_id_header = [];
  media_type = ok (str "application/json");
  body = read (str "{}");
  as_cloud_event = refused (unreadable boom);
}

extract_cloud_event-IsAccepted_example :
    IsAccepted library http_config (extract_cloud_event library http_config plain 0).0.0
unfolding extract_cloud_event bytes_eq lookup
extract_cloud_event-IsAccepted_example =
    extract_cloud_event-IsAccepted library http_config plain 0 refl

-- A router that acknowledges.
abbrev accept : Router test_sdk ℕ
accept m s = (record m { outcome = acked }, s)

abbrev marshal : Response → Result Bytes
marshal r = ok (str "{}")

abbrev subscriber : Subscriber test_sdk ℕ
subscriber = record { cfg = http_config; rules = []; handler = some accept }

serve-Succeeded_example :
    Succeeded library marshal subscriber background
      (some accept)
      (extract_cloud_event library http_config plain 0)
unfolding serve bytes_eq lookup
serve-Succeeded_example =
    serve-Succeeded library marshal subscriber background plain 0 tt (omega arith)

abbrev everything : ErrorRule
everything = record {
  match = λ e. true;
  status_code = 503;
  error_code = str "BUSY";
  detail_func = λ e. str "later";
}

-- A token that lives for a minute, and a clock that moves with each request.
abbrev remote : Remote ℕ
remote = record {
  now = λ s. s;
  execute = λ method url s. (
    responded false ((str "access_token", text (str "t")) ∷ (str "expires_in", positive 60) ∷ []),
    suc s,
  );
}

abbrev token_config : TokenConfig
token_config = record {
  url = str "https://idp";
  method = str "POST";
  response_token_field = str "access_token";
  token_prefix = str "Bearer ";
  expires_in_field = str "expires_in";
  cache_ttl = 0;
}

abbrev empty_provider : Provider ℕ
empty_provider = record { cached = []; expires_at = 0; outside = 5 }

token-IsServed_example :
    IsServed remote token_config empty_provider (token remote token_config empty_provider)
token-IsServed_example = token-IsServed remote token_config empty_provider (inl refl)

abbrev start_state : ℕ
start_state = 0

abbrev no_route_skipped : List Predicate
no_route_skipped = by_err (str "no route") no_route ∷ []

abbrev all_skipped : List Predicate
all_skipped = record { description = str "all"; matches = λ e. true } ∷ []

abbrev wire : Wire test_sdk ℕ
wire = record {
  encode = λ ce. ok [];
  content_type = λ ce. str "application/json";
  traceparent = λ ctx. none;
  post = λ client request s. (ok 422, suc s);
}

abbrev http_publisher : Publisher ℕ
http_publisher = record {
  cfg = record {
    target_url = str "https://shop";
    timeout = pos 0;
    headers = [];
    token_provider = none;
    token_header = [];
    retry = none;
    user_agent = [];
  };
  client =
      new_client (record { timeout = 0; retry = none; user_agent = []; default_retry = 3 }) none;
  token_header = str "Authorization";
}

abbrev rejected_status : ℕ
rejected_status = 422

after_post-final_example :
    ((after_post wire http_publisher (ok 422) ≡ none) ↔ (422 ≤ 399))
    × ((final_error (after_post wire http_publisher (ok 422)) ≡ true) ↔ (
        (400 ≤ rejected_status)
        × (rejected_status ≤ 499)
        × (rejected_status ≢ 408)
        × (rejected_status ≢ 429)))
    × (default_retry_condition (some 422) none ≡ true
        → final_error (after_post wire http_publisher (ok 422)) ≡ false)
after_post-final_example = after_post-final wire http_publisher 422
