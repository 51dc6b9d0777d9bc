-- ===== src/Pubsub/Receiver.antt =====
-- pkg/transport/gcp/pubsub/subscriber.go: the receive loop, which Start spawns and Stop cancels. Each
-- step is what runs under the lock, or between two waits, so that the steps of an owner and of
-- the loops can be interleaved.
pub mod Steps
pub mod Quiet
use event_driven.Prelude.{
  ℕ, ◌==◌, ◌++◌, ltb_ℤ, ℤ, pos, Bytes, str, quoted, is_empty, Bool, true, false, not, ◌||◌, Option,
  none, some, is_some, List, [], ◌∷◌, if◌then◌else◌,
}
use event_driven.Error.{
  Err, Result, ok, err, errorf, lit, verb, done, wrap, sentinel, already_started,
}
use event_driven.Runs.{Runs, no_runs, spawn, finish, mark, clear, member}

pub record SubscriberConfig : Type 0 where
  pub subscription_id : Bytes
  pub max_outstanding_messages : ℤ
  pub max_outstanding_bytes : ℤ
  pub num_goroutines : ℤ
  pub max_extension : ℤ

-- The admin calls of the client: its project, and GetSubscription of a resource name.
pub record Client (S : Type 0) : Type 0 where
  pub project : Bytes
  pub get_subscription : Bytes → S → Option Err × S

-- `runs` are the receive loops: `cancel` and `done` are set exactly if there is a current one, and its
-- `done` is open exactly while it runs. `ended` has the loops that have closed `done`, with the error
-- of Receive, before they look at it, and `failed` those that found it to be a failure, before they call
-- onError; `reports` are the calls of onError.
pub record Subscriber (S : Type 0) : Type 0 where
  pub cfg : SubscriberConfig
  pub runs : Runs
  pub ended : List (ℕ × Option Err)
  pub failed : List (ℕ × Err)
  pub reports : List (ℕ × Err)
  pub outside : S

abbrev pub refuse : {A : Type 0} → Bytes → Result A
refuse text = err (errorf (lit text done))

abbrev pub negative : ℤ → Bool
negative n = ltb_ℤ n (pos 0)

module _ {S : Type 0} where
  -- NewSubscriber; `client` tells whether the client is given.
  unfoldable pub new_subscriber : Bool → SubscriberConfig → S → Result (Subscriber S)
  new_subscriber client cfg s =
      if not client
      then refuse (str "pubsub: client is nil")
      else if is_empty cfg.subscription_id
      then refuse (str "pubsub: SubscriberConfig.SubscriptionID is empty")
      else if negative cfg.max_outstanding_messages
          || negative cfg.max_outstanding_bytes
          || negative cfg.num_goroutines
          || negative cfg.max_extension
      then refuse (str "pubsub: SubscriberConfig flow-control settings must not be negative")
      else ok
          (record { cfg = cfg; runs = no_runs; ended = []; failed = []; reports = []; outside = s })

module _ {S : Type 0} (client : Client S) where
  abbrev pub subscription_name : Bytes → Bytes
  subscription_name id = str "projects/" ++ client.project ++ str "/subscriptions/" ++ id

  abbrev pub after_lookup : Subscriber S → Option Err × S → Option Err × Subscriber S
  after_lookup sub (some e, s) = (
    some (
        errorf (
          lit (str "pubsub: get subscription ")
            (lit (quoted sub.cfg.subscription_id) (lit (str ": ") (verb e done))))),
    record sub { outside = s },
  )
  after_lookup sub (none, s) = (none, record sub { runs = spawn sub.runs; outside = s })

  unfoldable pub start : Subscriber S → Option Err × Subscriber S
  unfolding spawn
  start sub =
      if is_some sub.runs.current
      then (some (sentinel already_started), sub)
      else after_lookup sub
          (client.get_subscription (subscription_name sub.cfg.subscription_id) sub.outside)

-- `cancelled` is whether runCtx.Err() is set.
unfoldable pub receive_outcome : Bool → Bytes → Option Err → Option Err
receive_outcome cancelled id none = none
receive_outcome cancelled id (some e) =
    if cancelled
    then none
    else some
        (errorf (lit (str "pubsub: receive ") (lit (quoted id) (lit (str ": ") (verb e done)))))

abbrev pub add_report : ℕ → Option Err → List (ℕ × Err) → List (ℕ × Err)
add_report n none reports = reports
add_report n (some e) reports = (n, e) ∷ reports

-- The error that is kept of loop n.
abbrev pub error_of : {E : Type 0} → ℕ → List (ℕ × E) → Option E
error_of n [] = none
error_of n ((m, e) ∷ ended) = if n == m then some e else error_of n ended

abbrev pub forget : {E : Type 0} → ℕ → List (ℕ × E) → List (ℕ × E)
forget n [] = []
forget n ((m, e) ∷ ended) = if n == m then ended else (m, e) ∷ forget n ended

module _ {S : Type 0} where
  -- Receive returns and the loop closes `done`.
  unfoldable pub receive_returns : ℕ → Option Err → Subscriber S → Subscriber S
  unfolding finish
  receive_returns n e sub = record sub { runs = finish n sub.runs; ended = (n, e) ∷ sub.ended }

  abbrev pub report_error : ℕ → Subscriber S → Option (Option Err) → Subscriber S
  report_error n sub none = sub
  report_error n sub (some e) = record sub {
    ended = forget n sub.ended;
    failed =
        add_report n (receive_outcome (member n sub.runs.stopped) sub.cfg.subscription_id e)
          sub.failed;
  }

  -- Loop n, which has ended, looks at its error.
  unfoldable pub report : ℕ → Subscriber S → Subscriber S
  unfolding member receive_outcome
  report n sub = report_error n sub (error_of n sub.ended)

  abbrev pub tell_error : ℕ → Subscriber S → Option Err → Subscriber S
  tell_error n sub none = sub
  tell_error n sub (some e) = record sub {
    failed = forget n sub.failed;
    reports = (n, e) ∷ sub.reports;
  }

  -- Loop n, which has failed, calls onError. Nothing is locked since it looked at its error, so that
  -- a Stop may have come between.
  unfoldable pub tell : ℕ → Subscriber S → Subscriber S
  tell n sub = tell_error n sub (error_of n sub.failed)

  -- The first part of Stop: the loop that it read under the lock, if any, which it has cancelled.
  abbrev pub cancel_current : Subscriber S → Option ℕ → Option ℕ × Subscriber S
  cancel_current sub none = (none, sub)
  cancel_current sub (some n) = (some n, record sub { runs = mark n sub.runs })

  unfoldable pub stop_begin : Subscriber S → Option ℕ × Subscriber S
  unfolding mark
  stop_begin sub = cancel_current sub sub.runs.current

  -- The second part of Stop, which has read loop n: the wait for `done`, or for the end of the context,
  -- whose error is then given.
  unfoldable pub stop_end : ℕ → Option Err → Subscriber S → Option Err × Subscriber S
  unfolding clear
  stop_end n none sub = (none, record sub { runs = clear n sub.runs })
  stop_end n (some e) sub = (
    some (
        errorf (
          lit (str "pubsub: stop ")
            (lit (quoted sub.cfg.subscription_id) (lit (str ": ") (verb e done))))),
    sub,
  )

  abbrev pub stop_rest : Option Err → Option ℕ × Subscriber S → Option Err × Subscriber S
  stop_rest expired (none, sub) = (none, sub)
  stop_rest expired (some n, sub) = stop_end n expired sub

  -- A Stop during which nothing else happens.
  unfoldable pub stop : Option Err → Subscriber S → Option Err × Subscriber S
  unfolding stop_begin stop_end
  stop expired sub = stop_rest expired (stop_begin sub)
