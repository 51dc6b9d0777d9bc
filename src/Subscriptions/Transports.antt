-- ===== src/Subscriptions/Transports.antt =====
-- The subscribers of the transports as Subscriptions of a router.
use event_driven.Prelude.{Bool, Option, Called, returned}
use event_driven.Error.{Err}
use event_driven.Mux.Types.{Subscription}
use event_driven.Pubsub.Receiver as Pubsub
use event_driven.JetStream.Consumer as JetStream
use event_driven.Sqs
use event_driven.Nats.Core as Nats
use event_driven.Subscriptions.{IsSubscription}
use event_driven.Subscriptions.Receivers.{
  pubsub_on, jetstream_on, pubsub-start, pubsub-stop, jetstream-start, jetstream-stop,
}
use event_driven.Subscriptions.Queues.{sqs_on, nats_on, sqs-start, sqs-stop, nats-start, nats-stop}

-- An operation of a subscriber that never panics, as a call of the router.
abbrev pub called {ℓ} : {A : Type ℓ} → Option Err × A → Called (Option Err) × A
called (e, a) = (returned e, a)

-- `expired` tells, of a state, how the context of a Stop ends that comes first.
module _ {S : Type 0} where
  abbrev pub pubsub_subscription :
      Pubsub.Client S → (Pubsub.Subscriber S → Option Err) → Subscription (Pubsub.Subscriber S)
  pubsub_subscription client expired = record {
    start = λ sub. called (Pubsub.start client sub);
    stop = λ sub. called (Pubsub.stop (expired sub) sub);
  }

  abbrev pub jetstream_subscription :
      JetStream.Client S
      → (JetStream.Subscriber S → Option Err)
      → Subscription (JetStream.Subscriber S)
  jetstream_subscription js expired = record {
    start = λ sub. called (JetStream.start js sub);
    stop = λ sub. called (JetStream.stop js (expired sub) sub);
  }

  abbrev pub sqs_subscription :
      Sqs.Client S → (Sqs.Subscriber S → Bool) → Subscription (Sqs.Subscriber S)
  sqs_subscription client expired = record {
    start = λ sub. called (Sqs.start client sub);
    stop = λ sub. called (Sqs.stop (expired sub) sub);
  }

  abbrev pub nats_subscription :
      Nats.Connection S → (Nats.Subscriber S → Bool) → Subscription (Nats.Subscriber S)
  nats_subscription nc expired = record {
    start = λ sub. called (Nats.start nc sub);
    stop = λ sub. called (Nats.stop nc (expired sub) sub);
  }

  -- The subscribers of Pub/Sub, JetStream, SQS and Core NATS keep the contract of a Subscription, whatever
  -- their clients answer and however the contexts of Stops end: a Start or a Stop that returns nil leaves
  -- the subscriber started or not started, and one that returns an error leaves that as it was.
  pub subscribers-IsSubscription :
      (pubsub : Pubsub.Client S) (js : JetStream.Client S) (sqs : Sqs.Client S)
      (nc : Nats.Connection S) (pubsub_end : Pubsub.Subscriber S → Option Err)
      (js_end : JetStream.Subscriber S → Option Err) (sqs_end : Sqs.Subscriber S → Bool)
      (nats_end : Nats.Subscriber S → Bool)
      → IsSubscription (pubsub_subscription pubsub pubsub_end) pubsub_on
        × IsSubscription (jetstream_subscription js js_end) jetstream_on
        × IsSubscription (sqs_subscription sqs sqs_end) sqs_on
        × IsSubscription (nats_subscription nc nats_end) nats_on
  subscribers-IsSubscription pubsub js sqs nc pubsub_end js_end sqs_end nats_end = (
    record { starts = pubsub-start pubsub; stops = λ sub. pubsub-stop (pubsub_end sub) sub },
    record { starts = jetstream-start js; stops = λ sub. jetstream-stop js (js_end sub) sub },
    record { starts = sqs-start sqs; stops = λ sub. sqs-stop (sqs_end sub) sub },
    record { starts = nats-start nc; stops = λ sub. nats-stop nc (nats_end sub) sub },
  )
