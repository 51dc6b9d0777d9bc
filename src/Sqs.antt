-- ===== src/Sqs.antt =====
-- pkg/transport/aws/sqs: the subscriber of a queue, with delivery.go and unmarshaler.go. The SQS
-- client, the clock and the end of a context are parameters; the lock makes Start and Stop steps.
pub mod Deliveries
pub mod Workers
pub mod Polls
use event_driven.Prelude.{
  quoted, positive_or, ℕ, zero, suc, ◌+◌, ◌-◌, ◌*◌, ◌^◌, ltb, leb, if◌then◌else◌, Bytes, str,
  is_empty, bytes_eq, cut_prefix, lookup, Bool, true, false, not, ◌&&◌, Option, none, some, is_some,
  List, [], ◌∷◌, ◌++◌, Called, returned, Outside, ℤ, pos, negsuc,
}
use event_driven.Error.{
  Err, Result, ok, err, errorf, lit, verb, done, wrap, sentinel, already_started, is_sentinel,
  canceled, deadline_exceeded,
}
use event_driven.Event.CloudEvents.{CloudEvents}
use event_driven.Event.Message.{Context, Message, Delivery, new_message, new_undecodable}
use event_driven.Envelope.{Formats, Pairs, Defaults, decode_event, rescue}

-- sqstypes.Message; a nil string is empty, but for the value of an attribute. `receive_count` is the
-- ApproximateReceiveCount among the system attributes.
pub record SqsMessage : Type 0 where
  pub receipt_handle : Bytes
  pub message_id : Bytes
  pub body : Bytes
  pub message_attributes : List (Bytes × Option Bytes)
  pub receive_count : Bytes

-- strconv.ParseUint(s, 10, 64), after the digits before.
abbrev pub parse_digits : ℕ → Bytes → Option ℕ
parse_digits n [] = if ltb n (2 ^ 64) then some n else none
parse_digits n (c ∷ s) =
    let rest = parse_digits (10 * n + (c - 48)) s in if leb 48 c && leb c 57 then rest else none

abbrev pub parse_uint : Bytes → Option ℕ
parse_uint [] = none
parse_uint (c ∷ s) = parse_digits 0 (c ∷ s)

abbrev pub or_zero : Option ℕ → ℕ
or_zero none = 0
or_zero (some n) = n

unfoldable pub delivery_count : SqsMessage → ℕ
delivery_count m = or_zero (parse_uint m.receive_count)

abbrev pub defaults : Bytes → Defaults
defaults id = record {
  id = id;
  type = str "com.aws.sqs.message";
  source = str "//sqs.amazonaws.com";
}

abbrev pub string_attributes : List (Bytes × Option Bytes) → Pairs
string_attributes [] = []
string_attributes ((k, none) ∷ attrs) = string_attributes attrs
string_attributes ((k, some v) ∷ attrs) = (k, v) ∷ string_attributes attrs

abbrev pub or_empty : Option (Option Bytes) → Bytes
or_empty (some (some v)) = v
or_empty (some none) = []
or_empty none = []

unfoldable pub message_content_type : SqsMessage → Bytes
unfolding lookup
message_content_type m = or_empty (lookup (str "Content-Type") m.message_attributes)

-- What the subscriber calls.
pub record Client (S : Type 0) : Type 0 where
  pub get_queue_url : Bytes → S → Result Bytes × S
  pub receive_message : Bytes → S → Result (List SqsMessage) × S
  pub delete_message : Bytes → Bytes → S → Option Err × S

abbrev pub Handler : CloudEvents → Type 0 → Type 0
Handler sdk S = Message sdk S → S → S

module _ (sdk : CloudEvents) (fmt : Formats sdk) where
  abbrev pub unmarshal_error : Result sdk.Event → Result sdk.Event
  unmarshal_error (ok ce) = ok ce
  unmarshal_error (err e) = err (wrap (str "aws/sqs: unmarshal: ") e)

  unfoldable pub unmarshal : SqsMessage → Result sdk.Event
  unfolding decode_event message_content_type
  unmarshal m = unmarshal_error (
      decode_event sdk fmt (message_content_type m) (string_attributes m.message_attributes) m.body
        (defaults m.message_id))

  abbrev pub message_of :
      {S : Type 0} → Context → Delivery S → SqsMessage → Result sdk.Event → Message sdk S
  message_of ctx d m (err e) =
      new_undecodable ctx (rescue sdk fmt (defaults m.message_id) (message_content_type m) m.body) d
        e
  message_of ctx d m (ok ce) = new_message ctx ce d

module _ {S : Type 0} (client : Client S) where
  abbrev pub delete_error : Option Err × S → Called (Option Err) × S
  delete_error (none, s) = (returned none, s)
  delete_error (some e, s) = (returned (some (wrap (str "aws/sqs: delete message: ") e)), s)

  unfoldable pub delete_message : Bytes → Bytes → Outside S (Option Err)
  delete_message url receipt_handle s = delete_error (client.delete_message url receipt_handle s)

  -- Nack does nothing: the visibility timeout expires and SQS redelivers.
  unfoldable pub new_delivery : Bytes → SqsMessage → Delivery S
  unfolding delete_message delivery_count
  new_delivery url m = record {
    ack = some (delete_message url m.receipt_handle);
    nack = some (λ s. (returned none, s));
    discard = none;
    count = delivery_count m;
  }

module _ {sdk : CloudEvents} (fmt : Formats sdk) {S : Type 0} (client : Client S)
    (ctx : Context) where
  -- The message that processMessage hands to the handler.
  unfoldable pub message_for : Bytes → SqsMessage → Message sdk S
  unfolding unmarshal new_delivery rescue new_message new_undecodable message_content_type
  message_for url m = message_of sdk fmt ctx (new_delivery client url m) m (unmarshal sdk fmt m)

  unfoldable pub process_message : Handler sdk S → Bytes → SqsMessage → S → S
  unfolding message_for
  process_message handler url m s = handler (message_for url m) s

  abbrev pub process_all : Handler sdk S → Bytes → List SqsMessage → S → S
  process_all handler url [] s = s
  process_all handler url (m ∷ ms) s = process_all handler url ms (process_message handler url m s)

  -- Whether the loop must back off.
  abbrev pub after_receive : Handler sdk S → Bytes → Result (List SqsMessage) × S → Bool × S
  after_receive handler url (err e, s) = (not (is_sentinel canceled e), s)
  after_receive handler url (ok ms, s) = (false, process_all handler url ms s)

  unfoldable pub receive_batch : Handler sdk S → Bytes → S → Bool × S
  unfolding process_message is_sentinel
  receive_batch handler url s = after_receive handler url (client.receive_message url s)

  -- The loop of a worker, for as many turns as the context lasts: whether it had ended when the turn
  -- began, and whether it ended during the sleep of the turn.
  unfoldable pub worker : List (Bool × Bool) → Handler sdk S → Bytes → S → S
  unfolding receive_batch
  worker [] handler url s = s
  worker ((ended, asleep) ∷ turns) handler url s =
      let batch = receive_batch handler url s in
      let rest = worker turns handler url batch.1 in
      if ended then s else if batch.0 && asleep then batch.1 else rest

pub record SubscriberConfig : Type 0 where
  pub queue : Bytes
  pub ack_timeout : ℤ
  pub consume_workers : ℤ
  pub reconnect_retry_sleep : ℤ

-- With the defaults filled in; durations are nanoseconds.
pub record Settings : Type 0 where
  pub queue : Bytes
  pub ack_timeout : ℕ
  pub consume_workers : ℕ
  pub reconnect_retry_sleep : ℕ

abbrev pub refuse : {A : Type 0} → Bytes → Result A
refuse text = err (errorf (lit text done))

abbrev pub checked_timeout : SubscriberConfig → ℤ → Result Settings
checked_timeout cfg (negsuc n) = refuse (str "aws/sqs: SubscriberConfig.AckTimeout is negative")
checked_timeout cfg (pos n) = ok (record {
  queue = cfg.queue;
  ack_timeout = positive_or 5000000000 (pos n);
  consume_workers = positive_or 1 cfg.consume_workers;
  reconnect_retry_sleep = positive_or 1000000000 cfg.reconnect_retry_sleep;
})

-- NewSubscriber; `client` tells whether the client is given.
unfoldable pub new_subscriber : Bool → SubscriberConfig → Result Settings
new_subscriber client cfg =
    if not client
    then refuse (str "aws/sqs: client is nil")
    else if is_empty cfg.queue
    then refuse (str "aws/sqs: SubscriberConfig.Queue is empty")
    else checked_timeout cfg cfg.ack_timeout

-- `started` is whether `cancel` is set; `groups` counts the groups of workers that still run.
pub record Subscriber (S : Type 0) : Type 0 where
  pub queue : Bytes
  pub started : Bool
  pub groups : ℕ
  pub outside : S

module _ {S : Type 0} (client : Client S) where
  abbrev pub url_error : Bytes → Result Bytes × S → Result Bytes × S
  url_error queue (ok url, s) = (ok url, s)
  url_error queue (err e, s) = (
    err (
        errorf (
          lit (str "aws/sqs: get queue url ") (lit (quoted queue) (lit (str ": ") (verb e done))))),
    s,
  )

  unfoldable pub resolve_queue_url : Bytes → S → Result Bytes × S
  unfolding cut_prefix
  resolve_queue_url queue s =
      if is_some (cut_prefix queue (str "https://"))
      then (ok queue, s)
      else url_error queue (client.get_queue_url queue s)

  abbrev pub spawn : Subscriber S → Result Bytes × S → Option Err × Subscriber S
  spawn sub (err e, s) = (some e, record sub { outside = s })
  spawn sub (ok url, s) =
      (none, record sub { started = true; groups = suc sub.groups; outside = s })

  unfoldable pub start : Subscriber S → Option Err × Subscriber S
  unfolding resolve_queue_url
  start sub =
      if sub.started
      then (some (sentinel already_started), sub)
      else spawn sub (resolve_queue_url sub.queue sub.outside)

module _ {S : Type 0} where
  -- `expired`: the context ended before the workers did.
  unfoldable pub stop : Bool → Subscriber S → Option Err × Subscriber S
  stop expired sub =
      if not sub.started
      then (none, sub)
      else if expired
      then (some (wrap (str "aws/sqs: stop: ") (sentinel deadline_exceeded)), sub)
      else (none, record sub { started = false; groups = sub.groups - 1 })
