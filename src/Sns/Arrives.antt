-- ===== src/Sns/Arrives.antt =====
-- An event from a publisher of SNS to the subscriber of an SQS queue that gets the messages of the topic
-- raw, with the attributes as the attributes of the SQS message.
use event_driven.Prelude.{◌≡◌, Bytes}
use event_driven.Error.{Result, ok}
use event_driven.Event.CloudEvents.{CloudEvents}
use event_driven.Envelope.{Formats, content_type}
use event_driven.Envelope.Attributes.{attribute, slot, IsStorable}
use event_driven.Sns.Raw.{IsJsonSafe}

module _ (sdk : CloudEvents) (fmt : Formats sdk) (from : sdk.Event) where
  -- An event that has been decoded with the attributes of `from`.
  abbrev Arrives : Bytes → Result sdk.Event → Type 0
  Arrives n r = (ce : sdk.Event) × (r ≡ ok ce) × (attribute sdk fmt n ce ≡ attribute sdk fmt n from)

  module _ (h : IsStorable sdk fmt from) (j : IsJsonSafe sdk fmt from) where
    abbrev IsSame : sdk.Event → Type 0
    IsSame e =
        ((n : Bytes) → slot sdk fmt n e ≡ slot sdk fmt n from)
        × (content_type sdk fmt e ≡ content_type sdk fmt from)
