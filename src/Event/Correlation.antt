-- ===== src/Event/Correlation.antt =====
-- pkg/event/correlation.go and extensions.go: the correlation id of an event, and its validation.
pub mod Valid
use event_driven.Prelude.{
  ℕ, suc, ltb, ◌||◌, Bytes, str, length, [], ◌∷◌, Option, none, some, lookup, if◌then◌else◌,
}
use event_driven.Event.CloudEvents.{CloudEvents}

abbrev pub ext_correlation_id : Bytes
ext_correlation_id = str "correlationid"

abbrev pub ext_causation_id : Bytes
ext_causation_id = str "causationid"

abbrev pub max_correlation_id_len : ℕ
max_correlation_id_len = 128

-- Why an id is refused; the source spells the number out in the error's text.
pub data Refusal : Type 0 where
  empty : Refusal
  too_long : ℕ → Refusal
  bad_byte : (offset : ℕ) → (byte : ℕ) → Refusal

-- The loop over the bytes, from offset i on.
pub scan : ℕ → Bytes → Option Refusal
scan i [] = none
scan i (c ∷ s) = if ltb c 0x21 || ltb 0x7E c then some (bad_byte i c) else scan (suc i) s

-- nil is `none`.
unfoldable pub validate_correlation_id : Bytes → Option Refusal
unfolding scan
validate_correlation_id [] = some empty
validate_correlation_id (c ∷ s) =
    if ltb max_correlation_id_len (length (c ∷ s))
    then some (too_long (length (c ∷ s)))
    else scan 0 (c ∷ s)

abbrev text_or_empty : Option Bytes → Bytes
text_or_empty none = []
text_or_empty (some b) = b

module _ (sdk : CloudEvents) where
  unfoldable pub extension : sdk.Event → Bytes → Option sdk.Value
  extension ce name = lookup name (sdk.extensions ce)

  abbrev as_string : Option sdk.Value → Bytes
  as_string none = []
  as_string (some v) = text_or_empty (sdk.as_text v)

  -- "" when absent or not a string.
  unfoldable pub correlation_id : sdk.Event → Bytes
  unfolding extension
  correlation_id ce = as_string (extension ce ext_correlation_id)
