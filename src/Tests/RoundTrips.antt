-- ===== src/Tests/RoundTrips.antt =====
-- An event that the setters of the concrete event type store as it is, and its way over Pub/Sub.
use mathlib.Core.Path.{subst}
use event_driven.Prelude.{
  ℕ, ◌+◌, leb, ◌≡◌, refl, sym, ◌∙◌, arith, Bytes, str, bytes_eq, bytes_eq_iff, any, ◌&&◌, true,
  false, Bool, ap, Bool-cases, inl, inr, none, some, List, [], ◌∷◌, map, lookup, insert,
  lookup-insert, if◌then◌else◌,
}
use event_driven.Error.{ok}
use event_driven.Event.CloudEvents.{is_extension_name}
use event_driven.Envelope.{Formats, Defaults, content_type, defaulted}
use event_driven.Envelope.Attributes.{attribute, required, is_lower, IsStorable, Copies}
use event_driven.Envelope.Attributes.Copied.{bytes_eq_comm}
use event_driven.Envelope.Attributes.Complete.{after_four, empty_rest}
use event_driven.Envelope.Attributes.Names.{IsReading}
use event_driven.Nats.{OutMessage, unmarshal as nats_unmarshal, marshal as nats_marshal}
use event_driven.Nats.RoundTrip.{header_of, unmarshal-sent}
use event_driven.Sns.{PublishInput, marshal as sns_marshal}
use event_driven.Sns.Raw.{as_strings}
use event_driven.Sqs.{SqsMessage, unmarshal as sqs_unmarshal}
use event_driven.Pubsub.{Received, Sent, marshal, unmarshal}
use event_driven.Pubsub.RoundTrip.{unmarshal-marshal}
use event_driven.Tests.Codec.{print, parse}
use event_driven.Tests.Sdk.{TestEvent, test_sdk}
use event_driven.Tests.Transports.{formats}

abbrev lower : ℕ → ℕ
lower c = if leb b'A' c && leb c b'Z' then c + 32 else c

abbrev lowering : Formats test_sdk
lowering = record formats { to_lower = map lower; marshal = print; unmarshal = parse }

abbrev tenant_order : TestEvent
tenant_order = record {
  id = str "e1";
  type = str "order.created";
  source = str "/shop";
  content = str "{}";
  extensions = (str "tenant", str "a") ∷ [];
}

abbrev attr : Bytes → TestEvent → Bytes
attr = attribute test_sdk lowering

-- Setters of the concrete event type do not fail.
abbrev no_error : Bytes → Bytes × Bool
no_error s = (s, false)

setter-Copies :
    (name : Bytes) (set : TestEvent → TestEvent)
    → ((e : TestEvent) → attr name (set e) ≡ attr name tenant_order)
    → ((e : TestEvent) (n : Bytes) → bytes_eq n name ≡ false → attr n (set e) ≡ attr n e)
    → Copies test_sdk lowering tenant_order name set
setter-Copies name set same other e n = elim (Bool-cases (bytes_eq name n)) [
  | inl now ↦ rw now (
      ap no_error
        (subst (λ m. attr m (set e) ≡ attr m tenant_order) ((bytes_eq_iff name n).0 now) (same e)))
  | inr differ ↦ rw differ (ap no_error (other e n (bytes_eq_comm n name ∙ differ)))
]

id-Copies : Copies test_sdk lowering tenant_order (str "id") (test_sdk.set_id (str "e1"))
unfolding attribute bytes_eq
id-Copies = setter-Copies (str "id") (test_sdk.set_id (str "e1")) (λ e. refl) (λ e n h. rw h refl)

type-Copies :
    Copies test_sdk lowering tenant_order (str "type") (test_sdk.set_type (str "order.created"))
unfolding attribute bytes_eq
type-Copies =
    setter-Copies (str "type") (test_sdk.set_type (str "order.created")) (λ e. refl)
      (λ e n h. rw h refl)

source-Copies :
    Copies test_sdk lowering tenant_order (str "source") (test_sdk.set_source (str "/shop"))
unfolding attribute bytes_eq
source-Copies =
    setter-Copies (str "source") (test_sdk.set_source (str "/shop")) (λ e. refl)
      (λ e n h. rw h refl)

spec_version-Copies : Copies test_sdk lowering tenant_order (str "specversion") (λ e. e)
unfolding attribute bytes_eq
spec_version-Copies = setter-Copies (str "specversion") (λ e. e) (λ e. refl) (λ e n h. refl)

tenant-Copies :
    Copies test_sdk lowering tenant_order
      (str "tenant")
      (test_sdk.set_extension (str "tenant") (str "a"))
unfolding attribute bytes_eq lookup
tenant-Copies =
    setter-Copies (str "tenant") (test_sdk.set_extension (str "tenant") (str "a"))
      (λ e. rw (lookup-insert (str "tenant") (str "tenant") (str "a") e.extensions) refl)
      (λ e n h.
        rw
          (
            lookup-insert (str "tenant") n (str "a") e.extensions,
            bytes_eq_comm (str "tenant") n ∙ h,
          )
          refl)

blank_attributes :
    (def : Defaults) (n : Bytes)
    → any (bytes_eq n) required ≡ false
    → attr n (defaulted test_sdk lowering def) ≡ []
unfolding attribute lookup
blank_attributes def n h =
    after_four (bytes_eq n (str "id")) (bytes_eq n (str "specversion")) (bytes_eq n (str "type"))
      (bytes_eq n (str "source")) _ _ _ _ _ h
    ∙ empty_rest (bytes_eq n (str "subject")) (bytes_eq n (str "dataschema"))
        (bytes_eq n (str "time")) [] [] [] [] (λ _. refl) (λ _. refl) (λ _. refl) refl

lower-same : (s : Bytes) → is_lower s ≡ true → map lower s ≡ s
lower-same [] h = refl
lower-same (c ∷ s) h = ground (arith, h, lower-same s)

tenant_order-IsStorable : IsStorable test_sdk lowering tenant_order
unfolding is_extension_name bytes_eq content_type attribute
tenant_order-IsStorable = record {
  clean = λ n. refl;
  id = id-Copies;
  spec_version = spec_version-Copies;
  set_type = type-Copies;
  source = source-Copies;
  subject = λ h. absurd (h refl);
  data_schema = λ h. absurd (h refl);
  time = λ h. absurd (h refl);
  extensions = (
    (
      refl,
      λ s q.
          let same : str "a" ≡ s = cc in
          subst
            (λ x.
              Copies test_sdk lowering tenant_order (str "tenant")
                (test_sdk.set_extension (str "tenant") x))
            same tenant-Copies,
    ),
    tt,
  );
  blank = λ def n h. ap no_error (blank_attributes def n h);
  set_data = λ e clean. (record e { content = str "{}" }, refl, λ n. refl, refl, refl);
  valid = λ e same ct. let id : e.id ≡ str "e1" = ap (λ x. x.0) (same (str "id")) in rw id refl;
  to_lower = lower-same;
  content_type_key = refl;
}

abbrev sent_pairs : List (Bytes × Bytes)
sent_pairs =
    (str "ce-id", str "e1")
    ∷ (str "ce-specversion", str "1.0")
    ∷ (str "ce-type", str "order.created")
    ∷ (str "ce-source", str "/shop")
    ∷ (str "ce-tenant", str "a")
    ∷ (str "Content-Type", str "application/json")
    ∷ []

abbrev sent_message : Sent
sent_message = record { content = str "{}"; attributes = sent_pairs }

abbrev received_message : Received ℕ
received_message = record {
  id = str "m1";
  attributes = (str "traceparent", str "00-1") ∷ sent_pairs;
  content = str "{}";
  delivery_attempt = none;
  ack = λ s. s;
  nack = λ s. s;
}

-- The trace context is read first, and was added last.
reading : IsReading received_message.attributes (insert (str "traceparent") (str "00-1") sent_pairs)
unfolding bytes_eq lookup insert
reading = record {
  once = refl;
  same = λ k. sym (lookup-insert (str "traceparent") k (str "00-1") sent_pairs);
}

unmarshal-marshal_example :
    (ce : TestEvent) × (unmarshal test_sdk lowering received_message ≡ ok ce)
    × (attribute test_sdk lowering (str "tenant") ce
        ≡ attribute test_sdk lowering (str "tenant") tenant_order)
    × (ce.content ≡ str "{}")
    × (content_type test_sdk lowering ce ≡ content_type test_sdk lowering tenant_order)
unfolding marshal bytes_eq content_type
unmarshal-marshal_example =
    unmarshal-marshal test_sdk lowering tenant_order (some (str "00-1")) sent_message
      received_message (str "tenant") tenant_order-IsStorable refl refl reading refl

abbrev nats_sent : OutMessage
nats_sent = record { subject = str "orders"; header = sent_pairs; content = str "{}" }

abbrev read_pairs : List (Bytes × Bytes)
read_pairs = (str "traceparent", str "00-1") ∷ sent_pairs

unmarshal-sent_example :
    (ce : TestEvent) × (nats_unmarshal test_sdk lowering
        (str "u1")
        (record { header = header_of read_pairs; content = str "{}" })
      ≡ ok ce)
    × (attribute test_sdk lowering (str "tenant") ce
        ≡ attribute test_sdk lowering (str "tenant") tenant_order)
    × (ce.content ≡ str "{}")
    × (content_type test_sdk lowering ce ≡ content_type test_sdk lowering tenant_order)
unfolding nats_marshal bytes_eq content_type
unmarshal-sent_example =
    unmarshal-sent test_sdk lowering tenant_order (str "orders") (str "u1") (some (str "00-1"))
      nats_sent read_pairs (str "tenant") tenant_order-IsStorable refl refl reading

abbrev sns_sent : PublishInput
sns_sent = record { topic_arn = str "arn:1"; message = str "{}"; attributes = sent_pairs }

abbrev sqs_received : SqsMessage
sqs_received = record {
  receipt_handle = str "r1";
  message_id = str "m1";
  body = str "{}";
  message_attributes = as_strings read_pairs;
  receive_count = str "1";
}
