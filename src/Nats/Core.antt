-- ===== src/Nats/Core.antt =====
-- pkg/transport/nats/core/subscriber.go: Start and Stop. The NATS client is a parameter.
use event_driven.Prelude.{
  quoted, ℕ, suc, if◌then◌else◌, Bytes, str, is_empty, Bool, true, false, not, Option, none, some,
}
use event_driven.Error.{
  Err, Result, ok, err, errorf, lit, verb, done, wrap, sentinel, already_started, deadline_exceeded,
}

pub record SubscriberConfig : Type 0 where
  pub subject : Bytes
  pub queue_group : Bytes

-- `subscribe` is Subscribe, or QueueSubscribe where the group is not empty; `drain` is Drain.
pub record Connection (S : Type 0) : Type 0 where
  pub subscribe : Bytes → S → Option Err × S
  pub queue_subscribe : Bytes → Bytes → S → Option Err × S
  pub drain : S → Option Err × S

-- `subscribed` is whether `sub` is set; `drains` counts the calls of Drain on the last subscription.
pub record Subscriber (S : Type 0) : Type 0 where
  pub cfg : SubscriberConfig
  pub subscribed : Bool
  pub draining : Bool
  pub drains : ℕ
  pub outside : S

abbrev pub refuse : {A : Type 0} → Bytes → Result A
refuse text = err (errorf (lit text done))

module _ {S : Type 0} where
  -- `connected` tells whether the connection is given.
  unfoldable pub new_subscriber : Bool → SubscriberConfig → S → Result (Subscriber S)
  new_subscriber connected cfg s =
      if not connected
      then refuse (str "core subscriber: nil nats connection")
      else if is_empty cfg.subject
      then refuse (str "core subscriber: empty subject")
      else ok (record { cfg = cfg; subscribed = false; draining = false; drains = 0; outside = s })

module _ {S : Type 0} (nc : Connection S) where
  abbrev pub subscribe : SubscriberConfig → S → Option Err × S
  subscribe cfg s =
      if is_empty cfg.queue_group
      then nc.subscribe cfg.subject s
      else nc.queue_subscribe cfg.subject cfg.queue_group s

  abbrev pub after_subscribe : Subscriber S → Option Err × S → Option Err × Subscriber S
  after_subscribe sub (some e, s) = (
    some (
        errorf (
          lit (str "core subscribe ")
            (lit (quoted sub.cfg.subject) (lit (str ": ") (verb e done))))),
    record sub { outside = s },
  )
  after_subscribe sub (none, s) = (none, record sub { subscribed = true; drains = 0; outside = s })

  unfoldable pub start : Subscriber S → Option Err × Subscriber S
  start sub =
      if sub.subscribed
      then (some (sentinel already_started), sub)
      else after_subscribe sub (subscribe sub.cfg sub.outside)

  -- The wait for the subscription to become invalid, which the context may end first.
  abbrev pub await_drain : Bool → Subscriber S → Option Err × Subscriber S
  await_drain true sub =
      (some (wrap (str "core subscriber stop: ") (sentinel deadline_exceeded)), sub)
  await_drain false sub = (none, record sub { subscribed = false; draining = false })

  abbrev pub after_drain : Bool → Subscriber S → Option Err × S → Option Err × Subscriber S
  after_drain expired sub (some e, s) = (
    some (
        errorf
          (lit (str "core drain ") (lit (quoted sub.cfg.subject) (lit (str ": ") (verb e done))))),
    record sub { draining = true; drains = suc sub.drains; outside = s },
  )
  after_drain expired sub (none, s) =
      await_drain expired (record sub { draining = true; drains = suc sub.drains; outside = s })

  -- `expired`: the context ended before the drain was over.
  unfoldable pub stop : Bool → Subscriber S → Option Err × Subscriber S
  stop expired sub =
      if not sub.subscribed
      then (none, record sub { draining = false })
      else if sub.draining
      then await_drain expired sub
      else after_drain expired sub (nc.drain sub.outside)
