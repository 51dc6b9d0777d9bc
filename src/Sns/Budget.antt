-- ===== src/Sns/Budget.antt =====
-- An event never has too many attributes for SNS.
use mathlib.Core.Path.{subst}
use event_driven.Prelude.{
  suc, ◌≤◌, ◌≡◌, refl, arith, ltb, Bytes, str, insert, length, Option, none, some, [], ◌∷◌,
  if_false, sym, Bool-cases, inl, inr, ◌⊎◌,
}
use event_driven.Error.{Err, Result, ok, err, wrap}
use event_driven.Event.CloudEvents.{CloudEvents}
use event_driven.Event.Message.{Context}
use event_driven.Envelope.{Formats, Pairs, encode, encode_structured, content_type}
use event_driven.Sns.{
  PublishInput, Publisher, marshal, with_pairs, structured_input, add_traceparent, with_input,
  publish, after_send, too_many, Marshaler, max_message_attributes, content_type_attribute,
}

length-insert : (k v : Bytes) (m : Pairs) → length (insert k v m) ≤ suc (length m)
unfolding insert
length-insert k v [] = omega arith
length-insert k v ((j, w) ∷ m) = ground (arith, length-insert k v m)

module _ (sdk : CloudEvents) (fmt : Formats sdk) where
  -- An input within the budget of the marshaler.
  abbrev Fits : Result PublishInput → Type 0
  Fits (err e) = Unit
  Fits (ok input) = length input.attributes ≤ 9

  structured_input-Fits :
      (topic : Bytes) (ce : sdk.Event) (b : Result Bytes)
      → Fits (structured_input sdk fmt topic ce b)
  structured_input-Fits topic ce (err e) = tt
  structured_input-Fits topic ce (ok body) = omega arith

  with_pairs-Fits :
      (topic : Bytes) (ce : sdk.Event) (x : Result Pairs) → Fits (with_pairs sdk fmt topic ce x)
  with_pairs-Fits topic ce (err e) = tt
  with_pairs-Fits topic ce (ok encoded) =
      let pairs = insert content_type_attribute (content_type sdk fmt ce) encoded in
      elim (Bool-cases (ltb 9 (length pairs))) [
        | inl over ↦ rw over (structured_input-Fits topic ce (encode_structured sdk fmt ce))
        | inr under ↦ rw under (ground arith)
      ]

  marshal-Fits : (topic : Bytes) (ce : sdk.Event) → Fits (marshal sdk fmt topic ce)
  unfolding marshal
  marshal-Fits topic ce = with_pairs-Fits topic ce (encode sdk fmt ce)

module _ {sdk : CloudEvents} {S : Type 0} (fmt : Formats sdk) (p : Publisher sdk S) where
  add_traceparent-length :
      (t : Option Bytes) (input : PublishInput)
      → length input.attributes ≤ 9
      → length (add_traceparent p t input).attributes ≤ max_message_attributes
  add_traceparent-length none input h = omega (arith, h)
  add_traceparent-length (some t) input h =
      omega (arith, h, length-insert (str "traceparent") t input.attributes)

  with_input-eq :
      (ctx : Context) (s : S) (x : Result PublishInput)
      → Fits sdk fmt x
      → ((e : Err) × (with_input p ctx s x ≡ (some (wrap (str "aws/sns: marshal: ") e), s)))
        ⊎ ((input : PublishInput) × (length input.attributes ≤ max_message_attributes)
            × (with_input p ctx s x ≡ after_send p (p.client.publish input s)))
  with_input-eq ctx s (err e) h = inl (e, refl)
  with_input-eq ctx s (ok input) h =
      let traced = add_traceparent p (p.client.traceparent ctx) input in
      let small = add_traceparent-length (p.client.traceparent ctx) input h in
      inr (
        traced,
        small,
        if_false (λ (x : Option Err × S). x ≡ after_send p (p.client.publish traced s))
            (ltb max_message_attributes (length traced.attributes)) (some (too_many p), s)
            (after_send p (p.client.publish traced s)) (ground arith) refl,
      )

  -- With the default marshaler, a publish either fails to marshal, or hands SNS an input of at most
  -- ten attributes, the traceparent included, and ends as SNS answers: it never gives up an event
  -- for its number of attributes.
  pub publish-within :
      (ctx : Context) (ce : sdk.Event) (s : S)
      → p.marshaler ≡ marshal sdk fmt
      → ((e : Err) × (publish p ctx ce s ≡ (some (wrap (str "aws/sns: marshal: ") e), s)))
        ⊎ ((input : PublishInput) × (length input.attributes ≤ 10)
            × (publish p ctx ce s ≡ after_send p (p.client.publish input s)))
  unfolding publish
  publish-within ctx ce s h = with_input-eq ctx s (p.marshaler p.topic_arn ce) (
      subst (λ (m : Marshaler sdk). Fits sdk fmt (m p.topic_arn ce)) (sym h)
        (marshal-Fits sdk fmt p.topic_arn ce))
