-- ===== src/Http/Server.antt =====
-- pkg/transport/eventhttp/subscriber.go: the subscription and the answers to requests. The router
-- is a parameter: what it does with the message, and with the outside world.
pub mod Answers
use event_driven.Prelude.{
  ℕ, zero, suc, if◌then◌else◌, Bytes, str, is_empty, Bool, true, false, not, Option, none, some,
  is_some, returned, ℤ, pos, negsuc, [], ◌++◌, List,
}
use event_driven.Error.{Err, Result, ok, err, sentinel, already_started, errorf, lit, done}
use event_driven.Event.CloudEvents.{CloudEvents}
use event_driven.Event.Message.{
  Context, Message, Outcome, pending, acked, nacked, discarded, Delivery, new_message,
}
use event_driven.Http.{
  ErrorCode, Response, Written, ErrorRule, json, http_error, new_response, respond,
  new_error_responder, code_handler_failed, generic_failure_detail,
}
use event_driven.Http.Request.{
  Incoming, Library, SubscriberConfig, Rejection, Extracted, extract_cloud_event,
}

-- What the router does with a message before it returns.
abbrev pub Router : CloudEvents → Type 0 → Type 0
Router sdk S = Message sdk S → S → Message sdk S × S

-- The configuration as it is given.
pub record GivenConfig : Type 0 where
  pub route_pattern : Bytes
  pub default_type : Bytes
  pub max_body_bytes : ℤ
  pub error_rules : List ErrorRule

-- `handler` is the atomic pointer.
pub record Subscriber (sdk : CloudEvents) (S : Type 0) : Type 0 where
  pub cfg : SubscriberConfig
  pub rules : List ErrorRule
  pub handler : Option (Router sdk S)

abbrev pub default_max_body_bytes : ℕ
default_max_body_bytes = 262144

abbrev refuse : {A : Type 0} → Bytes → Result A
refuse text = err (errorf (lit text done))

module _ {sdk : CloudEvents} {S : Type 0} where
  abbrev pub checked_size : GivenConfig → ℤ → Result (Subscriber sdk S)
  checked_size cfg (negsuc n) = refuse (str "eventhttp: SubscriberConfig.MaxBodyBytes is negative")
  checked_size cfg (pos n) = ok (record {
    cfg = record {
      route_pattern = cfg.route_pattern;
      default_type = cfg.default_type;
      max_body_bytes = size n;
    };
    rules = new_error_responder cfg.error_rules;
    handler = none;
  })
    where
      size : ℕ → ℕ
      size zero = default_max_body_bytes
      size (suc k) = suc k

  -- `server` tells whether the ServeMux is given.
  unfoldable pub new_subscriber : Bool → GivenConfig → Result (Subscriber sdk S)
  unfolding new_error_responder
  new_subscriber server cfg =
      if not server
      then refuse (str "eventhttp: server is nil")
      else if is_empty cfg.route_pattern
      then refuse (str "eventhttp: SubscriberConfig.Pattern is empty")
      else if is_empty cfg.default_type
      then refuse (str "eventhttp: SubscriberConfig.DefaultType is empty")
      else checked_size cfg cfg.max_body_bytes

  abbrev pub compare_and_swap :
      Router sdk S → Subscriber sdk S → Option (Router sdk S) → Option Err × Subscriber sdk S
  compare_and_swap handler h (some old) = (some (sentinel already_started), h)
  compare_and_swap handler h none = (none, record h { handler = some handler })

  unfoldable pub start : Router sdk S → Subscriber sdk S → Option Err × Subscriber sdk S
  start handler h = compare_and_swap handler h h.handler

  unfoldable pub stop : Subscriber sdk S → Option Err × Subscriber sdk S
  stop h = (none, record h { handler = none })

-- event.Delivery{Nack: ...} of the Handler.
abbrev pub http_delivery : {S : Type 0} → Delivery S
http_delivery = record {
  ack = none;
  nack = some (λ s. (returned none, s));
  discard = none;
  count = 0;
}

module _ {sdk : CloudEvents} {S : Type 0} (lib : Library sdk S) (marshal : Response → Result Bytes)
    (h : Subscriber sdk S) where
  unfoldable pub write : sdk.Event → ℕ → ErrorCode → Bytes → S → Written
  unfolding json new_response
  write ce status code detail s =
      json marshal (new_response sdk (lib.unix s) ce h.cfg.route_pattern status code detail)

  abbrev pub or_generic : sdk.Event → S → Option Response → Written
  or_generic ce s (some res) = json marshal res
  or_generic ce s none = write ce 500 code_handler_failed generic_failure_detail s

  -- The answer to a message that the router does not acknowledge, for this cause. The router gives
  -- one with every nack and discard; no default rule matches a nil error.
  abbrev pub answer_failure : sdk.Event → S → Option Err → Written
  answer_failure ce s none = write ce 500 code_handler_failed generic_failure_detail s
  answer_failure ce s (some cause) =
      or_generic ce s (respond sdk (lib.unix s) h.rules cause ce h.cfg.route_pattern)

  -- The switch on the outcome.
  abbrev pub answer : sdk.Event → Outcome → Option Err → S → Written
  answer ce acked cause s = write ce 202 [] [] s
  answer ce pending cause s = write ce 500 code_handler_failed generic_failure_detail s
  answer ce nacked cause s = answer_failure ce s cause
  answer ce discarded cause s = answer_failure ce s cause

  abbrev pub hand_over : Context → Router sdk S → Extracted lib h.cfg × S → Written × S
  hand_over ctx handler ((ce, some rej), s) = (write ce rej.status rej.code rej.detail s, s)
  hand_over ctx handler ((ce, none), s) =
      let done_ = handler (new_message ctx ce http_delivery) s in
      (answer ce done_.0.outcome done_.0.cause done_.1, done_.1)

  -- Subscriber.Handler
  unfoldable pub handler_func : Context → Router sdk S → Incoming sdk → S → Written × S
  unfolding write respond json extract_cloud_event new_message
  handler_func ctx handler r s = hand_over ctx handler (extract_cloud_event lib h.cfg r s)

  abbrev pub serve_with : Context → Incoming sdk → S → Option (Router sdk S) → Written × S
  serve_with ctx r s none = (http_error (str "Service Unavailable") 503, s)
  serve_with ctx r s (some handler) = handler_func ctx handler r s

  -- The function that NewSubscriber registers on the ServeMux.
  unfoldable pub serve : Context → Incoming sdk → S → Written × S
  unfolding handler_func
  serve ctx r s = serve_with ctx r s h.handler
