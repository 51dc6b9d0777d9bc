-- ===== src/Tests/Brokers.antt =====
-- Concrete clients of Pub/Sub and NATS, and runs of their subscribers.
use event_driven.Prelude.{
  ◌++◌, Option, Bytes, false, ℕ, suc, ◌≤◌, ◌≡◌, ◌↔◌, refl, true, ◌&&◌, some, none, [], ◌∷◌, str,
  pos, if◌then◌else◌,
}
use event_driven.Error.{ok}
use event_driven.Event.Message.Decide.{do_ack, do_discard, settlements}
use event_driven.Runs.{count, member, is_current, spawn, mark, finish, remove}
use event_driven.Pubsub.Receiver
use event_driven.Pubsub.Receiver.Steps
use event_driven.Pubsub.Receiver.Quiet
use event_driven.Pubsub.Health.{Admin, HealthChecker, check_all}
use event_driven.Pubsub.Health.Exists.{all_exist, check_all-eq-none_iff}
use event_driven.JetStream.{Msg, message_for}
use event_driven.JetStream.Deliveries.{told, settlements-told}
use event_driven.JetStream.Consumer
use event_driven.JetStream.Consumer.Steps as Moves
use event_driven.JetStream.Consumer.Unreported
use event_driven.Natsconn.{Nats, Conn}
use event_driven.Redact.{Urls, urls, contains, split}
use event_driven.Redact.Hides.{urls-hides}
use event_driven.Tests.Sdk.{test_sdk}
use event_driven.Tests.Router.{boom, background}
use event_driven.Tests.Transports.{formats, nats_message}

abbrev zeroth : ℕ
zeroth = 0

abbrev pub pubsub_client : Receiver.Client ℕ
pubsub_client = record { project = str "p"; get_subscription = λ name s. (none, suc s) }

abbrev pub pubsub_config : Receiver.SubscriberConfig
pubsub_config = record {
  subscription_id = str "orders";
  max_outstanding_messages = pos 10;
  max_outstanding_bytes = pos 0;
  num_goroutines = pos 1;
  max_extension = pos 0;
}

abbrev polling : Receiver.Subscriber ℕ
polling = (Receiver.start pubsub_client (Steps.fresh pubsub_client pubsub_config zeroth)).1

abbrev broken : Receiver.Subscriber ℕ
broken = Receiver.receive_returns zeroth (some boom) polling

abbrev failed : Receiver.Subscriber ℕ
failed = Receiver.report zeroth broken

Reach-IsExclusive_example :
    (count zeroth failed.runs.running ≤ (if is_current zeroth failed.runs.current then 1 else 0))
    × (count zeroth (Steps.numbers failed.reports) ≤ 1)
unfolding Receiver.start spawn member count
Reach-IsExclusive_example =
    Steps.Reach-IsExclusive pubsub_client pubsub_config zeroth
      (Steps.next
        (Steps.next
          (Steps.next Steps.here (Steps.starts (Steps.fresh pubsub_client pubsub_config zeroth)))
          (Steps.returns polling zeroth (some boom) refl))
        (Steps.looks broken zeroth))
      zeroth

abbrev cancelling : Receiver.Subscriber ℕ
cancelling = (Receiver.stop_begin polling).1

abbrev ending : Receiver.Subscriber ℕ
ending = Receiver.receive_returns zeroth (some boom) cancelling

Reach-IsQuiet_example : count zeroth (Steps.numbers (Receiver.report zeroth ending).reports) ≡ 0
unfolding Receiver.start Receiver.stop_begin spawn mark member count
Reach-IsQuiet_example =
    Quiet.Reach-IsQuiet pubsub_client zeroth
      (Steps.next (Steps.next Steps.here (Steps.returns cancelling zeroth (some boom) refl))
        (Steps.looks ending zeroth))
      refl refl refl

abbrev admin : Admin ℕ
admin = record {
  get_topic = λ name s. (none, suc s);
  get_subscription = λ name s. (some boom, suc s);
  is_not_found = λ e. true;
}

abbrev checker : HealthChecker
checker = record {
  project_id = str "p";
  topics = str "orders" ∷ [] ∷ [];
  subscriptions = [];
  timeout = 1;
}

check_all-eq-none_iff_example : ((check_all admin checker zeroth).0 ≡ none) ↔ (
    (all_exist (λ id. none) checker.topics && all_exist (λ id. some boom) checker.subscriptions)
    ≡ true)
check_all-eq-none_iff_example =
    check_all-eq-none_iff admin checker (λ name. none) (λ name. some boom) (λ name s. refl)
      (λ name s. refl) zeroth

abbrev jetstream_message : Msg ℕ
jetstream_message = record {
  received = nats_message;
  num_delivered = ok 2;
  ack = λ s. (none, suc s);
  nak = λ s. (none, suc (suc s));
  nak_with_delay = λ d s. (none, suc (suc (suc s)));
  term_with_reason = λ reason s. (some boom, suc (suc (suc (suc s))));
}

settlements-told_example :
    (settlements
      (do_discard boom ∷ do_ack ∷ [])
      (message_for test_sdk formats background (str "u1") (str "u2") (pos 5) jetstream_message)
      zeroth).1
    ≡ (told (pos 5) jetstream_message (do_discard boom) zeroth).1
settlements-told_example =
    settlements-told formats background (str "u1") (str "u2") (pos 5) jetstream_message
      (do_discard boom) (do_ack ∷ []) zeroth

abbrev pub jetstream_client : Consumer.Client ℕ
jetstream_client = record {
  Stream = Bytes;
  Consumer = Bytes;
  stream = λ name s. (ok name, suc s);
  create_or_update_stream = λ cfg s. (ok cfg.name, suc s);
  create_consumer = λ stream cfg s. (ok cfg.name, suc s);
  consume = λ consumer options n s. (none, suc s);
  drain = λ n s. suc s;
}

abbrev jetstream_settings : Consumer.Settings
jetstream_settings = record {
  cfg = record {
    stream = str "orders";
    filter_subject = [];
    max_outstanding_messages = pos 0;
    max_outstanding_bytes = pos 0;
    ack_wait = pos 0;
    max_deliver = pos 0;
    nak_delay = pos 0;
    inactive_threshold = pos 0;
    consumer_name = [];
    stream_config = none;
  };
  max_outstanding_messages = 50;
  ack_wait = 30000000000;
  inactive_threshold = 30000000000;
}

abbrev consuming : Consumer.Subscriber ℕ
consuming =
    (Consumer.start jetstream_client (Moves.fresh jetstream_client jetstream_settings zeroth)).1

abbrev closed : Consumer.Subscriber ℕ
closed = Consumer.closes zeroth consuming

abbrev watched : Consumer.Subscriber ℕ
watched = Consumer.watch zeroth closed

Reach-IsOnce_example :
    (count zeroth watched.runs.running ≤ (if is_current zeroth watched.runs.current then 1 else 0))
    × (count zeroth watched.drains ≤ 1)
    × (count zeroth watched.reports ≤ 1)
unfolding Consumer.start Consumer.closes spawn finish remove member count
Reach-IsOnce_example =
    Moves.Reach-IsOnce jetstream_client jetstream_settings zeroth
      (Moves.next
        (Moves.next
          (Moves.next Moves.here
            (Moves.starts (Moves.fresh jetstream_client jetstream_settings zeroth)))
          (Moves.ends consuming zeroth refl))
        (Moves.watches closed zeroth refl refl))
      zeroth

abbrev draining : Consumer.Subscriber ℕ
draining = (Consumer.stop_begin jetstream_client consuming).1

abbrev drained : Consumer.Subscriber ℕ
drained = Consumer.closes zeroth draining

Reach-IsUnreported_example : count zeroth (Consumer.watch zeroth drained).reports ≡ 0
unfolding Consumer.start Consumer.stop_begin Consumer.closes spawn mark finish remove member count
Reach-IsUnreported_example =
    Unreported.Reach-IsUnreported jetstream_client zeroth
      (Moves.next (Moves.next Moves.here (Moves.ends draining zeroth refl))
        (Moves.watches drained zeroth refl refl))
      refl refl refl

abbrev nats_client : Nats ℕ
nats_client = record {
  default_url = str "nats://127.0.0.1:4222";
  connect = λ cfg s. (none, suc s);
  drain = λ s. (some boom, suc s);
  is_connection_closed = λ e. true;
  is_connection_reconnecting = λ e. false;
  log = λ url s. s;
}

abbrev open_connection : Conn ℕ
open_connection = record { stopped = false; drains = 0; outside = 0 }

abbrev user_text : Option (Bytes × Option Bytes) → Bytes
user_text none = []
user_text (some (name, password)) = name

-- A library that takes every URL to name one endpoint, and its text to be a user's name.
abbrev one_endpoint : Urls
one_endpoint = record {
  parse = λ raw. some (record {
    scheme = str "nats";
    opaque = [];
    user = some (raw, none);
    host = str "a:4222";
    path = [];
    raw_path = [];
    omit_host = false;
    force_query = false;
    raw_query = raw;
    fragment = [];
    raw_fragment = [];
  });
  print = λ u. u.scheme ++ user_text u.user ++ u.host ++ u.raw_query;
  trim_space = λ s. s;
}

urls-hides_example :
    urls one_endpoint (str "nats://u:p@a:4222") ≡ urls one_endpoint (str "nats://a:4222")
unfolding contains split
urls-hides_example = urls-hides one_endpoint (str "nats://u:p@a:4222") (str "nats://a:4222") refl
