-- ===== src/Tests/Transports.antt =====
-- Concrete messages of brokers.
use event_driven.Prelude.{
  ◌≢◌, arith, ℕ, suc, ◌≡◌, ◌≤◌, ◌⊎◌, refl, true, false, some, none, [], ◌∷◌, List, Bytes, str,
  bytes_eq, cut_prefix, length, if◌then◌else◌, is_empty,
}
use event_driven.Error.{Err, Result, ok, err, is_sentinel, decode, wrap}
use event_driven.Event.Message.{nacked, pending}
use event_driven.Envelope.{Formats, Defaults, Pairs, decode_event}
use event_driven.Envelope.Decoded.{decode_event-err}
use event_driven.Sns.{Publisher, PublishInput, marshal, publish, after_send}
use event_driven.Sns.Budget.{publish-within}
use event_driven.Sqs.{Client, SqsMessage, Subscriber, message_for}
use event_driven.Sqs.Workers.{Action, starts, stops, act_all}
use event_driven.Nats.{NatsMessage, message_for as nats_message_for}
use event_driven.Nats.Core.{Connection, Subscriber as NatsSubscriber}
use event_driven.Nats.Deliveries.{message_for-ne-nacked}
use event_driven.Nats.Drains
use event_driven.Identity.{Identity, Sts}
use event_driven.Mux.Types.{Mux}
use event_driven.Mux.Effects.{World}
use event_driven.Mux.Handle.{handle}
use event_driven.Tests.Sdk.{TestEvent, test_sdk}
use event_driven.Tests.Router.{boom, bad_publisher, background, order, reply, route, config, router}

-- An event is valid if it has an id.
abbrev pub formats : Formats test_sdk
formats = record {
  spec_version = λ e. str "1.0";
  subject = λ e. [];
  time_text = λ e. [];
  data_schema = λ e. [];
  data_content_type = λ e. [];
  data_media_type = λ e. [];
  data_base64 = λ e. false;
  set_data_base64 = λ b e. e;
  field_error = λ n e. false;
  format = λ v. ok v;
  valid_json = λ b. true;
  marshal = λ e. ok e.content;
  unmarshal = λ b. err boom;
  validate = λ e. if is_empty e.id then some boom else none;
  parse_time = λ b. err boom;
  set_spec_version = λ b e. e;
  set_subject = λ b e. e;
  set_data_schema = λ b e. e;
  set_data = λ ct b e. ok (record e { content = b });
  to_lower = λ b. b;
}

abbrev fallback : Defaults
fallback = record { id = str "m1"; type = str "t"; source = str "/s" }

-- Two attributes of one name.
abbrev doubled : Pairs
doubled = (str "ce-id", str "a") ∷ (str "ce-id", str "b") ∷ []

abbrev single : Pairs
single = (str "ce-type", str "order.created") ∷ (str "other", str "x") ∷ []

abbrev error_of : Result TestEvent → Err
error_of (ok ce) = boom
error_of (err e) = e

decode_event-err_example :
    is_sentinel decode (error_of (decode_event test_sdk formats [] doubled (str "{}") fallback))
    ≡ true
unfolding decode_event bytes_eq cut_prefix
decode_event-err_example =
    decode_event-err test_sdk formats [] doubled (str "{}") fallback
      (error_of (decode_event test_sdk formats [] doubled (str "{}") fallback)) refl

abbrev decoded : TestEvent
decoded = record {
  id = str "m1";
  type = str "order.created";
  source = str "/s";
  content = str "{}";
  extensions = [];
}

abbrev pub sns_publisher : Publisher test_sdk ℕ
sns_publisher = record {
  client = record {
    publish = λ input s. (ok (str "b1"), suc s);
    traceparent = λ ctx. some (str "00-1");
  };
  marshaler = marshal test_sdk formats;
  topic_arn = str "arn:aws:sns:eu-west-1:1:orders";
}

abbrev no_sends : ℕ
no_sends = 0

publish-within_example :
    ((e : Err) × (publish sns_publisher background order no_sends
        ≡ (some (wrap (str "aws/sns: marshal: ") e), no_sends)))
    ⊎ ((input : PublishInput) × (length input.attributes ≤ 10)
        × (publish sns_publisher background order no_sends
            ≡ after_send sns_publisher (sns_publisher.client.publish input no_sends)))
publish-within_example = publish-within formats sns_publisher background order no_sends refl

abbrev pub sqs_client : Client ℕ
sqs_client = record {
  get_queue_url = λ queue s. (ok queue, suc s);
  receive_message = λ url s. (ok [], suc s);
  delete_message = λ url handle s. (none, suc s);
}

abbrev pub received : SqsMessage
received = record {
  receipt_handle = str "r1";
  message_id = str "m1";
  body = str "{}";
  message_attributes = (str "ce-type", some (str "order.created")) ∷ [];
  receive_count = str "2";
}

abbrev queue_router : Mux test_sdk ℕ Bytes
queue_router = router (config 3 (some bad_publisher)) (route (reply (none, some boom)) none ∷ [])

abbrev idle : Subscriber ℕ
idle = record { queue = str "orders"; started = false; groups = 0; outside = 0 }

abbrev restart : List Action
restart = starts ∷ stops true ∷ starts ∷ stops false ∷ starts ∷ []

abbrev caller : Identity ℕ
caller = record {
  region = some (str "eu-west-1");
  has_client = false;
  account_id = str "1";
  arn = str "arn:aws:sts::1:user/x";
  outside = 0;
}

abbrev sts : Sts ℕ
sts s = (err boom, suc s)

abbrev pub nats_message : NatsMessage
nats_message = record {
  header = (str "ce-type", str "order.created" ∷ []) ∷ [];
  content = str "{}";
}

abbrev nats_world : World test_sdk ℕ
nats_world = record {
  outside = 0;
  store = [];
  msg = nats_message_for test_sdk formats background (str "u1") (str "u2") nats_message;
  trace = [];
  warned = false;
}

message_for-ne-nacked_example :
    ((handle queue_router nats_world).1.msg.outcome ≢ nacked)
    × ((handle queue_router nats_world).1.msg.outcome ≢ pending)
message_for-ne-nacked_example =
    message_for-ne-nacked formats background queue_router (str "u1") (str "u2") nats_message
      nats_world refl (λ ctx ce s. refl)

abbrev pub connection : Connection ℕ
connection = record {
  subscribe = λ subject s. (none, suc s);
  queue_subscribe = λ subject group s. (none, suc s);
  drain = λ s. (none, suc s);
}

abbrev unsubscribed : NatsSubscriber ℕ
unsubscribed = record {
  cfg = record { subject = str "orders"; queue_group = [] };
  subscribed = false;
  draining = false;
  drains = 0;
  outside = 0;
}

act_all-drains_example :
    (Drains.act_all connection
      (Drains.starts ∷ Drains.stops true ∷ Drains.stops false ∷ [])
      unsubscribed).drains
    ≤ 1
act_all-drains_example =
    Drains.act_all-drains connection (Drains.starts ∷ Drains.stops true ∷ Drains.stops false ∷ [])
      unsubscribed (record { bound = omega arith; undrained = λ _ _. refl; idle = λ _. refl })
