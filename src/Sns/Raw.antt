-- ===== src/Sns/Raw.antt =====
-- The messages that the marshaler of SNS makes, as the messages of an SQS queue that gets them raw, with
-- the attributes as the attributes of the SQS message.
use mathlib.Core.Path.{subst}
use event_driven.Prelude.{
  ◌≡◌, refl, sym, ap, ◌∙◌, ltb, length, Bytes, str, bytes_eq, Option, none, some, Bool, true, false,
  List, [], ◌∷◌, lookup, insert, if◌then◌else◌, ◌⊎◌, inl, inr, Bool-cases,
}
use event_driven.Error.{Result, ok, err}
use event_driven.Event.CloudEvents.{CloudEvents}
use event_driven.Envelope.{Formats, Pairs, encode_structured, content_type}
use event_driven.Envelope.Attributes.{slot}
use event_driven.Sns.{
  PublishInput, with_pairs, structured_input, structured_pairs, binary_attribute_budget,
}
use event_driven.Sqs.{string_attributes, or_empty}

-- The attributes of an SQS message, each a String.
abbrev pub as_strings : Pairs → List (Bytes × Option Bytes)
as_strings [] = []
as_strings ((k, v) ∷ m) = (k, some v) ∷ as_strings m

pub string_attributes-as_strings : (m : Pairs) → string_attributes (as_strings m) ≡ m
string_attributes-as_strings [] = refl
string_attributes-as_strings ((k, v) ∷ m) = ap (λ r. (k, v) ∷ r) (string_attributes-as_strings m)

abbrev pub value_or_empty : Option Bytes → Bytes
value_or_empty none = []
value_or_empty (some v) = v

empty-if :
    (b : Bool) (v : Bytes) (o : Option (Option Bytes)) (p : Option Bytes)
    → or_empty o ≡ value_or_empty p
    → or_empty (if b then some (some v) else o) ≡ value_or_empty (if b then some v else p)
empty-if true v o p h = refl
empty-if false v o p h = h

pub lookup-as_strings :
    (m : Pairs) (k : Bytes) → or_empty (lookup k (as_strings m)) ≡ value_or_empty (lookup k m)
unfolding lookup
lookup-as_strings [] k = refl
lookup-as_strings ((j, v) ∷ m) k =
    empty-if (bytes_eq j k) v (lookup k (as_strings m)) (lookup k m) (lookup-as_strings m k)

module _ (sdk : CloudEvents) (fmt : Formats sdk) (from : sdk.Event) where
  -- What the JSON format of the SDK keeps, also of an event that is told to write its data inline.
  pub record IsJsonSafe : Type 0 where
    pub parsed :
        (e : sdk.Event) (body : Bytes)
        → ((n : Bytes) → fmt.field_error n e ≡ false)
        → fmt.marshal e ≡ ok body
        → (e' : sdk.Event) × (fmt.unmarshal body ≡ ok e')
          × ((n : Bytes) → slot sdk fmt n e' ≡ slot sdk fmt n e)
          × (content_type sdk fmt e' ≡ content_type sdk fmt e)
    pub inlined :
        (n : Bytes) → slot sdk fmt n (fmt.set_data_base64 false from) ≡ slot sdk fmt n from
    pub inlined_type :
        content_type sdk fmt (fmt.set_data_base64 false from) ≡ content_type sdk fmt from

  abbrev pub IsBinary : PublishInput → Pairs → Type 0
  IsBinary input encoded =
      (input.message ≡ sdk.content from)
      × (input.attributes ≡ insert (str "Content-Type") (content_type sdk fmt from) encoded)

  abbrev pub IsStructured : PublishInput → Type 0
  IsStructured input =
      (encode_structured sdk fmt from ≡ ok input.message)
      × (input.attributes ≡ structured_pairs sdk fmt from)

  structured_input-ok :
      (topic : Bytes) (input : PublishInput) (r : Result Bytes)
      → encode_structured sdk fmt from ≡ r
      → structured_input sdk fmt topic from r ≡ ok input
      → IsStructured input
  structured_input-ok topic input (err e) s q = cc
  structured_input-ok topic input (ok body) s q =
      let sent : PublishInput = record {
        topic_arn = topic;
        message = body;
        attributes = structured_pairs sdk fmt from;
      } in
      let same : input ≡ sent = cc in
      (
        s ∙ ap (λ (x : PublishInput). ok x.message) (sym same),
        ap (λ (x : PublishInput). x.attributes) same,
      )

  pub with_pairs-ok :
      (topic : Bytes) (input : PublishInput) (x : Result Pairs)
      → with_pairs sdk fmt topic from x ≡ ok input
      → (encoded : Pairs) × (x ≡ ok encoded) × (IsBinary input encoded ⊎ IsStructured input)
  with_pairs-ok topic input (err e) q = cc
  with_pairs-ok topic input (ok encoded) q =
      let pairs = insert (str "Content-Type") (content_type sdk fmt from) encoded in
      let sent : PublishInput = record {
        topic_arn = topic;
        message = sdk.content from;
        attributes = pairs;
      } in
      let structured = structured_input sdk fmt topic from (encode_structured sdk fmt from) in
      elim (Bool-cases (ltb binary_attribute_budget (length pairs))) [
        | inl over ↦ (
          encoded,
          refl,
          inr (
              structured_input-ok topic input (encode_structured sdk fmt from) refl
                (subst (λ b. (if b then structured else ok sent) ≡ ok input) over q)),
        )
        | inr under ↦
            let r : ok sent ≡ ok input =
              subst (λ b. (if b then structured else ok sent) ≡ ok input) under q in
            let same : input ≡ sent = cc in
            (
              encoded,
              refl,
              inl (
                ap (λ (x : PublishInput). x.message) same,
                ap (λ (x : PublishInput). x.attributes) same,
              ),
            )
      ]
