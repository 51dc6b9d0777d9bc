-- ===== src/Tests/Coupled.antt =====
-- A router over the Pub/Sub subscriber.
use event_driven.Prelude.{ℕ, ◌≡◌, refl, Bytes, str, true, false, some, none, [], ◌∷◌, returned}
use event_driven.Error.{sentinel, deadline_exceeded}
use event_driven.Mux.Types.{Mux}
use event_driven.Pubsub.Receiver as Pubsub
use event_driven.Pubsub.Receiver.Steps.{fresh}
use event_driven.Subscriptions.{IsSubscription}
use event_driven.Subscriptions.Coupled.{do_start, do_stop, act_all, act_all-started}
use event_driven.Subscriptions.Receivers.{pubsub_on, jetstream_on}
use event_driven.Subscriptions.Queues.{sqs_on, nats_on}
use event_driven.Subscriptions.Transports.{
  pubsub_subscription, jetstream_subscription, sqs_subscription, nats_subscription,
  subscribers-IsSubscription,
}
use event_driven.Tests.Sdk.{test_sdk}
use event_driven.Tests.Transports.{sqs_client, connection}
use event_driven.Tests.Brokers.{pubsub_client, pubsub_config, jetstream_client}

abbrev no_calls : ℕ
no_calls = 0

abbrev waiting : Pubsub.Subscriber ℕ
waiting = fresh pubsub_client pubsub_config no_calls

-- No Stop has the time to wait for the receive loop.
abbrev hasty : Mux test_sdk (Pubsub.Subscriber ℕ) Bytes
hasty = record {
  cfg = record {
    name = str "orders";
    subscription = pubsub_subscription pubsub_client (λ sub. some (sentinel deadline_exceeded));
    max_retries = 3;
    dead_letter = none;
    publish_after_ack = false;
    observer = none;
  };
  runtime = record { new_uuid = λ s. (str "uuid", s); now = λ s. (0, s) };
  routes = [];
  middlewares = [];
  preflight_middlewares = [];
  started = false;
  frozen = false;
  preflight = λ ctx payload l. (returned (none, none), l);
}

subscribers-IsSubscription_example :
    IsSubscription (pubsub_subscription pubsub_client (λ sub. none)) pubsub_on
    × IsSubscription (jetstream_subscription jetstream_client (λ sub. none)) jetstream_on
    × IsSubscription (sqs_subscription sqs_client (λ sub. true)) sqs_on
    × IsSubscription (nats_subscription connection (λ sub. false)) nats_on
subscribers-IsSubscription_example =
    subscribers-IsSubscription pubsub_client jetstream_client sqs_client connection (λ sub. none)
      (λ sub. none) (λ sub. true) (λ sub. false)

act_all-started_example :
    (act_all (do_start ∷ do_stop ∷ do_start ∷ []) (hasty, waiting)).0.started
    ≡ pubsub_on (act_all (do_start ∷ do_stop ∷ do_start ∷ []) (hasty, waiting)).1
act_all-started_example =
    act_all-started pubsub_on (do_start ∷ do_stop ∷ do_start ∷ []) hasty waiting
      (subscribers-IsSubscription pubsub_client jetstream_client sqs_client connection
        (λ sub. some (sentinel deadline_exceeded)) (λ sub. none) (λ sub. true) (λ sub. false)).0
      refl
