-- ===== src/JetStream/Consumer.antt =====
-- pkg/transport/nats/jetstream/subscriber.go and provision.go: the ephemeral consumer, which Start
-- creates, Stop drains and the server may close. Each step is what runs under the lock, or between two
-- waits, so that the steps of an owner, of the server and of the watchers can be interleaved.
pub mod Steps
pub mod Unreported
use event_driven.Prelude.{
  ℕ, zero, suc, ◌==◌, ◌++◌, ltb_ℤ, ℤ, pos, positive_or, Bytes, str, quoted, is_empty, bytes_eq,
  Bool, true, false, not, ◌&&◌, Option, none, some, is_some, List, [], ◌∷◌, if◌then◌else◌,
}
use event_driven.Error.{
  Err, Result, ok, err, errorf, lit, verb, done, wrap, sentinel, already_started,
}
use event_driven.Runs.{Runs, no_runs, spawn, finish, mark, clear, member, remove}

-- jetstream.StreamConfig, of which the library reads the name.
pub record StreamConfig : Type 0 where
  pub name : Bytes

-- Durations are nanoseconds.
pub record SubscriberConfig : Type 0 where
  pub stream : Bytes
  pub filter_subject : Bytes
  pub max_outstanding_messages : ℤ
  pub max_outstanding_bytes : ℤ
  pub ack_wait : ℤ
  pub max_deliver : ℤ
  pub nak_delay : ℤ
  pub inactive_threshold : ℤ
  pub consumer_name : Bytes
  pub stream_config : Option StreamConfig

-- The configuration with the defaults filled in.
pub record Settings : Type 0 where
  pub cfg : SubscriberConfig
  pub max_outstanding_messages : ℕ
  pub ack_wait : ℕ
  pub inactive_threshold : ℕ

-- jetstream.ConsumerConfig, as far as it is set: new messages only, each acknowledged by itself, no
-- durable name.
pub record ConsumerConfig : Type 0 where
  pub name : Bytes
  pub filter_subject : Bytes
  pub ack_wait : ℕ
  pub max_deliver : ℤ
  pub inactive_threshold : ℕ

-- PullMaxMessages and, if it is set, PullMaxBytes.
pub record PullOptions : Type 0 where
  pub max_messages : ℕ
  pub max_bytes : Option ℤ

-- What the subscriber calls; `consume` gives the ConsumeContext of the run of that number, and `drain` is
-- its Drain.
pub record Client (S : Type 0) : Type 1 where
  pub Stream : Type 0
  pub Consumer : Type 0
  pub stream : Bytes → S → Result Stream × S
  pub create_or_update_stream : StreamConfig → S → Result Stream × S
  pub create_consumer : Stream → ConsumerConfig → S → Result Consumer × S
  pub consume : Consumer → PullOptions → ℕ → S → Option Err × S
  pub drain : ℕ → S → S

-- `runs` are the ConsumeContexts: `cc` and `stopping` are set exactly if there is a current one, Closed is
-- open exactly while it runs, and `stopping` is closed exactly if it is among the stopped. `watching` are
-- the watchers that wait for Closed, `alarmed` those that saw it closed and `stopping` open, and are about
-- to call onError, `drains` the calls of Drain, `reports` the calls of onError, which all
-- have ErrConsumeStopped.
pub record Subscriber (S : Type 0) : Type 0 where
  pub settings : Settings
  pub runs : Runs
  pub watching : List ℕ
  pub alarmed : List ℕ
  pub drains : List ℕ
  pub reports : List ℕ
  pub outside : S

abbrev pub refuse : {A : Type 0} → Bytes → Result A
refuse text = err (errorf (lit text done))

abbrev pub named_otherwise : Bytes → Option StreamConfig → Option Bytes
named_otherwise stream none = none
named_otherwise stream (some c) = if bytes_eq c.name stream then none else some c.name

module _ {S : Type 0} where
  abbrev pub checked_stream : SubscriberConfig → S → Option Bytes → Result (Subscriber S)
  checked_stream cfg s (some name) = err (
      errorf (
        lit
          (str "jetstream subscriber: StreamConfig.Name "
            ++ quoted name
            ++ str " must equal Stream "
            ++ quoted cfg.stream)
          done))
  checked_stream cfg s none = ok (record {
    settings = record {
      cfg = cfg;
      max_outstanding_messages = positive_or 50 cfg.max_outstanding_messages;
      ack_wait = positive_or 30000000000 cfg.ack_wait;
      inactive_threshold = positive_or 30000000000 cfg.inactive_threshold;
    };
    runs = no_runs;
    watching = [];
    alarmed = [];
    drains = [];
    reports = [];
    outside = s;
  })

  -- NewSubscriber; `given` tells whether the JetStream context is.
  unfoldable pub new_subscriber : Bool → SubscriberConfig → S → Result (Subscriber S)
  unfolding bytes_eq
  new_subscriber given cfg s =
      if not given
      then refuse (str "jetstream subscriber: nil JetStream")
      else if is_empty cfg.stream
      then refuse (str "jetstream subscriber: empty stream")
      else checked_stream cfg s (named_otherwise cfg.stream cfg.stream_config)

module _ {S : Type 0} (js : Client S) where
  abbrev pub provision_error : StreamConfig → Result js.Stream × S → Result js.Stream × S
  provision_error cfg (ok stream, s) = (ok stream, s)
  provision_error cfg (err e, s) = (
    err (
        errorf (
          lit (str "jetstream provision stream ")
            (lit (quoted cfg.name) (lit (str ": ") (verb e done))))),
    s,
  )

  unfoldable pub ensure_stream : StreamConfig → S → Result js.Stream × S
  ensure_stream cfg s = provision_error cfg (js.create_or_update_stream cfg s)

  abbrev pub resolve_stream : SubscriberConfig → Option StreamConfig → S → Result js.Stream × S
  resolve_stream cfg none s = js.stream cfg.stream s
  resolve_stream cfg (some c) s = ensure_stream c s

  abbrev pub consumer_config : Settings → ConsumerConfig
  consumer_config t = record {
    name = t.cfg.consumer_name;
    filter_subject = t.cfg.filter_subject;
    ack_wait = t.ack_wait;
    max_deliver = t.cfg.max_deliver;
    inactive_threshold = t.inactive_threshold;
  }

  abbrev pub pull_options : Settings → PullOptions
  pull_options t = record {
    max_messages = t.max_outstanding_messages;
    max_bytes =
        if ltb_ℤ (pos 0) t.cfg.max_outstanding_bytes
        then some t.cfg.max_outstanding_bytes
        else none;
  }

  abbrev pub after_consume : Subscriber S → Option Err × S → Option Err × Subscriber S
  after_consume sub (some e, s) =
      (some (wrap (str "jetstream subscriber consume: ") e), record sub { outside = s })
  after_consume sub (none, s) = (
    none,
    record sub { runs = spawn sub.runs; watching = sub.runs.spawned ∷ sub.watching; outside = s },
  )

  abbrev pub with_consumer : Subscriber S → Result js.Consumer × S → Option Err × Subscriber S
  with_consumer sub (err e, s) =
      (some (wrap (str "jetstream subscriber create consumer: ") e), record sub { outside = s })
  with_consumer sub (ok consumer, s) =
      after_consume sub (js.consume consumer (pull_options sub.settings) sub.runs.spawned s)

  abbrev pub with_stream : Subscriber S → Result js.Stream × S → Option Err × Subscriber S
  with_stream sub (err e, s) = (
    some (
        errorf (
          lit (str "jetstream subscriber resolve stream ")
            (lit (quoted sub.settings.cfg.stream) (lit (str ": ") (verb e done))))),
    record sub { outside = s },
  )
  with_stream sub (ok stream, s) =
      with_consumer sub (js.create_consumer stream (consumer_config sub.settings) s)

  unfoldable pub start : Subscriber S → Option Err × Subscriber S
  unfolding spawn ensure_stream
  start sub =
      if is_some sub.runs.current
      then (some (sentinel already_started), sub)
      else with_stream sub
          (resolve_stream sub.settings.cfg sub.settings.cfg.stream_config sub.outside)

  abbrev pub drain_current : Subscriber S → Option ℕ → Option ℕ × Subscriber S
  drain_current sub none = (none, sub)
  drain_current sub (some n) = (
    some n,
    if member n sub.runs.stopped then sub else record sub {
      runs = mark n sub.runs;
      drains = n ∷ sub.drains;
      outside = js.drain n sub.outside;
    },
  )

  -- The first part of Stop, under the lock: the ConsumeContext that it read, if any, which is drained
  -- unless an earlier Stop did.
  unfoldable pub stop_begin : Subscriber S → Option ℕ × Subscriber S
  unfolding mark member
  stop_begin sub = drain_current sub sub.runs.current

  -- The second part of Stop, which has read the ConsumeContext n: the wait for Closed, or for the end of the
  -- context, whose error is then given.
  unfoldable pub stop_end : ℕ → Option Err → Subscriber S → Option Err × Subscriber S
  unfolding clear
  stop_end n none sub = (none, record sub { runs = clear n sub.runs })
  stop_end n (some e) sub = (some (wrap (str "jetstream subscriber stop: ") e), sub)

  abbrev pub stop_rest : Option Err → Option ℕ × Subscriber S → Option Err × Subscriber S
  stop_rest expired (none, sub) = (none, sub)
  stop_rest expired (some n, sub) = stop_end n expired sub

  -- A Stop during which nothing else happens but the drain.
  unfoldable pub stop : Option Err → Subscriber S → Option Err × Subscriber S
  unfolding stop_begin stop_end
  stop expired sub = stop_rest expired (stop_begin sub)

module _ {S : Type 0} where
  -- Closed of the ConsumeContext n is closed: its drain is over, or the server stopped it.
  unfoldable pub closes : ℕ → Subscriber S → Subscriber S
  unfolding finish
  closes n sub = record sub { runs = finish n sub.runs }

  -- The watcher of n, once Closed is closed: its select on `stopping`.
  unfoldable pub watch : ℕ → Subscriber S → Subscriber S
  unfolding member remove
  watch n sub = record sub {
    watching = remove n sub.watching;
    alarmed = if member n sub.runs.stopped then sub.alarmed else n ∷ sub.alarmed;
  }

  -- The watcher of n calls onError. Nothing is locked since its select, so that a Stop may have come
  -- between.
  unfoldable pub alarm : ℕ → Subscriber S → Subscriber S
  unfolding remove
  alarm n sub = record sub { alarmed = remove n sub.alarmed; reports = n ∷ sub.reports }
