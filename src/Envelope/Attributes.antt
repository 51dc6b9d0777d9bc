-- ===== src/Envelope/Attributes.antt =====
-- The attributes of an event as texts, and what storing them in another event relies on.
pub mod Copied
pub mod Sent
pub mod Complete
pub mod Names
pub mod Carried
pub mod Transport
use event_driven.Prelude.{
  ◌≡◌, ◌≢◌, Bytes, str, bytes_eq, any, all, leb, ◌==◌, ◌&&◌, ◌||◌, Bool, true, false, Option, none,
  some, List, [], ◌∷◌, lookup, if◌then◌else◌, All,
}
use event_driven.Error.{Result, ok, err}
use event_driven.Event.CloudEvents.{CloudEvents, is_extension_name}
use event_driven.Envelope.{Formats, Defaults, content_type, defaulted}

-- The attributes that every event has.
abbrev pub required : List Bytes
required = str "id" ∷ str "specversion" ∷ str "type" ∷ str "source" ∷ []

-- Lower-case ASCII letters, digits and dashes.
abbrev pub is_lower : Bytes → Bool
is_lower s = all (λ c. (leb b'a' c && leb c b'z') || (leb b'0' c && leb c b'9') || c == b'-') s

abbrev pub text_or_empty : Result Bytes → Bytes
text_or_empty (ok s) = s
text_or_empty (err e) = []

module _ (sdk : CloudEvents) (fmt : Formats sdk) where
  abbrev pub extension_text : Option sdk.Value → Bytes
  extension_text none = []
  extension_text (some v) = text_or_empty (fmt.format v)

  -- The text of an attribute or an extension, empty where the event does not have it; the content type of
  -- the data is no part of these.
  unfoldable pub attribute : Bytes → sdk.Event → Bytes
  unfolding bytes_eq lookup
  attribute n ce =
      if bytes_eq n (str "id")
      then sdk.id ce
      else if bytes_eq n (str "specversion")
      then fmt.spec_version ce
      else if bytes_eq n (str "type")
      then sdk.type ce
      else if bytes_eq n (str "source")
      then sdk.source ce
      else if bytes_eq n (str "subject")
      then fmt.subject ce
      else if bytes_eq n (str "dataschema")
      then fmt.data_schema ce
      else if bytes_eq n (str "time")
      then fmt.time_text ce
      else extension_text (lookup n (sdk.extensions ce))

  -- An attribute and whether its setter failed, which Validate reports while the text is as before.
  abbrev pub slot : Bytes → sdk.Event → Bytes × Bool
  slot n ce = (attribute n ce, fmt.field_error n ce)

  module _ (from : sdk.Event) where
    -- A setter that succeeds in giving an event this attribute of `from`, and changes no other.
    abbrev pub Copies : Bytes → (sdk.Event → sdk.Event) → Type 0
    Copies name set =
        (e : sdk.Event) (n : Bytes)
        → slot n (set e) ≡ (if bytes_eq name n then slot n from else slot n e)

    -- The event is valid, as is every event in which none of its attributes differs and no setter has
    -- failed; its attributes are as the SDK's setters store them, and so are the time and
    -- the extensions once they are printed and read again. The rest is what the SDK and the standard
    -- library say of a new event, of raw data, and of lower case.
    pub record IsStorable : Type 0 where
      pub clean : (n : Bytes) → fmt.field_error n from ≡ false
      pub id : Copies (str "id") (sdk.set_id (sdk.id from))
      pub spec_version : Copies (str "specversion") (fmt.set_spec_version (fmt.spec_version from))
      pub set_type : Copies (str "type") (sdk.set_type (sdk.type from))
      pub source : Copies (str "source") (sdk.set_source (sdk.source from))
      pub subject :
          fmt.subject from ≢ [] → Copies (str "subject") (fmt.set_subject (fmt.subject from))
      pub data_schema :
          fmt.data_schema from ≢ []
          → Copies (str "dataschema") (fmt.set_data_schema (fmt.data_schema from))
      pub time :
          fmt.time_text from ≢ []
          → (t : sdk.Time) × (fmt.parse_time (fmt.time_text from) ≡ ok t)
            × Copies (str "time") (sdk.set_time t)
      pub extensions :
          All
            (λ x.
              (is_extension_name x.0 ≡ true)
              × ((s : Bytes)
                  → fmt.format x.1 ≡ ok s
                  → Copies x.0 (sdk.set_extension x.0 (sdk.text s))))
            (sdk.extensions from)
      pub blank :
          (def : Defaults) (n : Bytes)
          → any (bytes_eq n) required ≡ false
          → slot n (defaulted sdk fmt def) ≡ ([], false)
      pub set_data :
          (e : sdk.Event)
          → ((n : Bytes) → fmt.field_error n e ≡ false)
          → (e' : sdk.Event) × (fmt.set_data (content_type sdk fmt from) (sdk.content from) e
              ≡ ok e')
            × ((n : Bytes) → slot n e' ≡ slot n e)
            × (sdk.content e' ≡ sdk.content from)
            × (content_type sdk fmt e' ≡ content_type sdk fmt from)
      pub valid :
          (e : sdk.Event)
          → ((n : Bytes) → slot n e ≡ slot n from)
          → content_type sdk fmt e ≡ content_type sdk fmt from
          → fmt.validate e ≡ none
      pub to_lower : (s : Bytes) → is_lower s ≡ true → fmt.to_lower s ≡ s
      pub content_type_key : fmt.to_lower (str "Content-Type") ≡ str "content-type"
