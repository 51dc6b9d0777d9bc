-- ===== src/Sns.antt =====
-- pkg/transport/aws/sns/publisher.go and marshaler.go: an event as an SNS message. The AWS client, STS
-- and the trace context are parameters.
pub mod Budget
pub mod Raw
pub mod Arrives
use event_driven.Prelude.{
  quoted, ℕ, zero, suc, ltb, if◌then◌else◌, Bytes, str, is_empty, bytes_eq, cut_prefix, lookup,
  insert, length, Bool, true, false, not, Option, none, some, is_some, List, [], ◌∷◌, ◌++◌, ℤ, pos,
  negsuc,
}
use event_driven.Error.{
  Err, Result, ok, err, errorf, lit, verb, done, wrap, sentinel, too_many_attributes, non_retryable,
}
use event_driven.Event.CloudEvents.{CloudEvents}
use event_driven.Event.Message.{Context}
use event_driven.Envelope.{Formats, Pairs, encode, encode_structured, content_type, structured_type}

-- awssns.PublishInput; every attribute is a String. A nil map is empty.
pub record PublishInput : Type 0 where
  pub topic_arn : Bytes
  pub message : Bytes
  pub attributes : Pairs

abbrev pub max_message_attributes : ℕ
max_message_attributes = 10

abbrev pub binary_attribute_budget : ℕ
binary_attribute_budget = 9

abbrev pub content_type_attribute : Bytes
content_type_attribute = str "Content-Type"

abbrev pub Marshaler : CloudEvents → Type 0
Marshaler sdk = Bytes → sdk.Event → Result PublishInput

module _ (sdk : CloudEvents) (fmt : Formats sdk) where
  abbrev pub structured_pairs : sdk.Event → Pairs
  structured_pairs ce =
      (content_type_attribute, structured_type)
      ∷ (str "ce-id", sdk.id ce)
      ∷ (str "ce-type", sdk.type ce)
      ∷ (str "ce-source", sdk.source ce)
      ∷ []

  abbrev pub structured_input : Bytes → sdk.Event → Result Bytes → Result PublishInput
  structured_input topic ce (err e) = err (wrap (str "aws/sns: marshal: ") e)
  structured_input topic ce (ok body) =
      ok (record { topic_arn = topic; message = body; attributes = structured_pairs ce })

  abbrev pub with_pairs : Bytes → sdk.Event → Result Pairs → Result PublishInput
  with_pairs topic ce (err e) = err (wrap (str "aws/sns: marshal: ") e)
  with_pairs topic ce (ok encoded) =
      let pairs = insert content_type_attribute (content_type sdk fmt ce) encoded in
      if ltb binary_attribute_budget (length pairs)
      then structured_input topic ce (encode_structured sdk fmt ce)
      else ok (record { topic_arn = topic; message = sdk.content ce; attributes = pairs })

  -- DefaultMarshaler.Marshal
  unfoldable pub marshal : Marshaler sdk
  unfolding encode encode_structured content_type insert
  marshal topic ce = with_pairs topic ce (encode sdk fmt ce)

-- The STS-backed identity of pkg/transport/aws.
pub record Identity (S : Type 0) : Type 0 where
  pub region : Result Bytes
  pub account_id : S → Result Bytes × S
  pub partition : S → Result Bytes × S

module _ {S : Type 0} where
  abbrev pub with_partition : Bytes → Bytes → Bytes → Result Bytes × S → Result Bytes × S
  with_partition topic region account (err e, s) = (err (wrap (str "aws/sns: ") e), s)
  with_partition topic region account (ok partition, s) = (
    ok (str "arn:" ++ partition ++ str ":sns:" ++ region ++ str ":" ++ account ++ str ":" ++ topic),
    s,
  )

  abbrev pub with_account : Identity S → Bytes → Bytes → Result Bytes × S → Result Bytes × S
  with_account identity topic region (err e, s) = (err (wrap (str "aws/sns: ") e), s)
  with_account identity topic region (ok account, s) =
      with_partition topic region account (identity.partition s)

  abbrev pub with_region : Identity S → Bytes → S → Result Bytes → Result Bytes × S
  with_region identity topic s (err e) = (err (wrap (str "aws/sns: ") e), s)
  with_region identity topic s (ok region) =
      with_account identity topic region (identity.account_id s)

  abbrev pub by_name : Bytes → S → Option (Identity S) → Result Bytes × S
  by_name topic s none = (
    err (
        errorf (
          lit
            (str "aws/sns: "
              ++ quoted topic
              ++ str " is not an ARN and PublisherConfig.Identity is nil")
            done)),
    s,
  )
  by_name topic s (some identity) = with_region identity topic s identity.region

  unfoldable pub resolve_topic_arn : Bytes → Option (Identity S) → S → Result Bytes × S
  unfolding cut_prefix
  resolve_topic_arn topic identity s =
      if is_some (cut_prefix topic (str "arn:")) then (ok topic, s) else by_name topic s identity

-- A nil client, marshaler or identity is `none`.
pub record PublisherConfig (sdk : CloudEvents) (S : Type 0) : Type 0 where
  pub topic : Bytes
  pub identity : Option (Identity S)
  pub marshaler : Option (Marshaler sdk)
  pub resolve_timeout : ℤ

-- PublishAPI, and the traceparent of a context.
pub record Aws (S : Type 0) : Type 0 where
  pub publish : PublishInput → S → Result Bytes × S
  pub traceparent : Context → Option Bytes

pub record Publisher (sdk : CloudEvents) (S : Type 0) : Type 0 where
  pub client : Aws S
  pub marshaler : Marshaler sdk
  pub topic_arn : Bytes

abbrev pub refuse : {A : Type 0} → Bytes → Result A
refuse text = err (errorf (lit text done))

module _ {sdk : CloudEvents} (fmt : Formats sdk) where
  abbrev pub marshaler_or_default : Option (Marshaler sdk) → Marshaler sdk
  marshaler_or_default none = marshal sdk fmt
  marshaler_or_default (some m) = m

module _ {sdk : CloudEvents} {S : Type 0} (fmt : Formats sdk) where
  abbrev pub with_arn :
      Aws S → PublisherConfig sdk S → Result Bytes × S → Result (Publisher sdk S) × S
  with_arn client cfg (err e, s) = (err e, s)
  with_arn client cfg (ok arn, s) = (
    ok (record {
      client = client;
      marshaler = marshaler_or_default fmt cfg.marshaler;
      topic_arn = arn;
    }),
    s,
  )

  abbrev pub checked_timeout : Aws S → PublisherConfig sdk S → S → ℤ → Result (Publisher sdk S) × S
  checked_timeout client cfg s (negsuc n) =
      (refuse (str "aws/sns: PublisherConfig.ResolveTimeout is negative"), s)
  checked_timeout client cfg s (pos n) =
      with_arn client cfg (resolve_topic_arn cfg.topic cfg.identity s)

  unfoldable pub new_publisher :
      Option (Aws S) → PublisherConfig sdk S → S → Result (Publisher sdk S) × S
  unfolding marshal resolve_topic_arn
  new_publisher none cfg s = (refuse (str "aws/sns: client is nil"), s)
  new_publisher (some client) cfg s =
      if is_empty cfg.topic
      then (refuse (str "aws/sns: PublisherConfig.Topic is empty"), s)
      else checked_timeout client cfg s cfg.resolve_timeout

module _ {sdk : CloudEvents} {S : Type 0} (p : Publisher sdk S) where
  abbrev pub add_traceparent : Option Bytes → PublishInput → PublishInput
  add_traceparent none input = input
  add_traceparent (some traceparent) input = record input {
    attributes = insert (str "traceparent") traceparent input.attributes;
  }

  abbrev pub after_send : Result Bytes × S → Option Err × S
  after_send (err e, s) = (some (wrap (str "aws/sns: publish: ") e), s)
  after_send (ok message_id, s) = (none, s)

  abbrev pub too_many : Err
  too_many = non_retryable (errorf (verb (sentinel too_many_attributes) done))

  abbrev pub send : PublishInput → S → Option Err × S
  send input s =
      if ltb max_message_attributes (length input.attributes)
      then (some too_many, s)
      else after_send (p.client.publish input s)

  abbrev pub with_input : Context → S → Result PublishInput → Option Err × S
  with_input ctx s (err e) = (some (wrap (str "aws/sns: marshal: ") e), s)
  with_input ctx s (ok input) = send (add_traceparent (p.client.traceparent ctx) input) s

  -- Publisher.Publish, on the event with the trace context injected.
  unfoldable pub publish : Context → sdk.Event → S → Option Err × S
  unfolding insert
  publish ctx ce s = with_input ctx s (p.marshaler p.topic_arn ce)

abbrev pub is_structured : Option Bytes → Bool
is_structured none = false
is_structured (some ct) = bytes_eq ct structured_type

unfoldable pub content_mode : PublishInput → Bytes
unfolding lookup bytes_eq
content_mode input =
    if is_structured (lookup content_type_attribute input.attributes)
    then str "structured"
    else str "binary"
