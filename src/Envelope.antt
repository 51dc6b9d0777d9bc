-- ===== src/Envelope.antt =====
-- pkg/transport/internal/envelope/envelope.go: a CloudEvent as attribute pairs and a body, and back.
-- A Go map is the list of its entries in the order of an iteration.
pub mod Decoded
pub mod Attributes
use event_driven.Prelude.{
  quoted, ℕ, if◌then◌else◌, Bytes, str, is_empty, bytes_eq, cut_prefix, lookup, insert, Bool, true,
  false, not, ◌&&◌, ◌||◌, Option, none, some, is_some, List, [], ◌∷◌, ◌++◌, any,
}
use event_driven.Error.{Err, Result, ok, err, errorf, lit, verb, done, sentinel, decode}
use event_driven.Event.CloudEvents.{CloudEvents}

-- The further parts of the CloudEvents SDK and the standard library that the mapping uses.
-- `time_text` is Time().Format(RFC3339Nano), or empty for the zero time.
pub record Formats (sdk : CloudEvents) : Type 0 where
  pub spec_version : sdk.Event → Bytes
  pub subject : sdk.Event → Bytes
  pub time_text : sdk.Event → Bytes
  pub data_schema : sdk.Event → Bytes
  pub data_content_type : sdk.Event → Bytes
  pub data_media_type : sdk.Event → Bytes
  pub data_base64 : sdk.Event → Bool
  pub set_data_base64 : Bool → sdk.Event → sdk.Event
  pub format : sdk.Value → Result Bytes
  pub valid_json : Bytes → Bool
  pub marshal : sdk.Event → Result Bytes
  pub unmarshal : Bytes → Result sdk.Event
  -- Whether FieldErrors of the event has an entry for this attribute or extension: its last setter failed.
  pub field_error : Bytes → sdk.Event → Bool
  pub validate : sdk.Event → Option Err
  pub parse_time : Bytes → Result sdk.Time
  pub set_spec_version : Bytes → sdk.Event → sdk.Event
  pub set_subject : Bytes → sdk.Event → sdk.Event
  pub set_data_schema : Bytes → sdk.Event → sdk.Event
  pub set_data : Bytes → Bytes → sdk.Event → Result sdk.Event
  pub to_lower : Bytes → Bytes

pub record Defaults : Type 0 where
  pub id : Bytes
  pub type : Bytes
  pub source : Bytes

abbrev pub prefix : Bytes
prefix = str "ce-"

abbrev pub application_json : Bytes
application_json = str "application/json"

abbrev pub structured_type : Bytes
structured_type = str "application/cloudevents+json"

abbrev pub Pairs : Type 0
Pairs = List (Bytes × Bytes)

abbrev pub set_if : Bytes → Bytes → Pairs → Pairs
set_if key [] attrs = attrs
set_if key (c ∷ s) attrs = insert key (c ∷ s) attrs

abbrev pub or_json : Bytes → Bytes
or_json [] = application_json
or_json (c ∷ s) = c ∷ s

abbrev pub decode_error : Bytes → Err → Err
decode_error what e = errorf (verb (sentinel decode) (lit what (verb e done)))

module _ (sdk : CloudEvents) (fmt : Formats sdk) where
  abbrev pub add_extension : Bytes → (Pairs → Result Pairs) → Pairs → Result Bytes → Result Pairs
  add_extension name rest attrs (err e) =
      err (
        errorf
          (lit (str "envelope: extension ") (lit (quoted name) (lit (str ": ") (verb e done)))))
  add_extension name rest attrs (ok s) = rest (insert (prefix ++ name) s attrs)

  -- The loop over the extensions.
  unfoldable pub encode_extensions : List (Bytes × sdk.Value) → Pairs → Result Pairs
  unfolding insert
  encode_extensions [] attrs = ok attrs
  encode_extensions ((name, v) ∷ rest) attrs =
      add_extension name (encode_extensions rest) attrs (fmt.format v)

  abbrev pub context_pairs : sdk.Event → Pairs
  context_pairs ce = set_if (str "ce-dataschema") (fmt.data_schema ce) (
      set_if (str "ce-time") (fmt.time_text ce) (
        set_if (str "ce-subject") (fmt.subject ce) (
          (str "ce-id", sdk.id ce)
          ∷ (str "ce-specversion", fmt.spec_version ce)
          ∷ (str "ce-type", sdk.type ce)
          ∷ (str "ce-source", sdk.source ce)
          ∷ [])))

  unfoldable pub encode : sdk.Event → Result Pairs
  unfolding encode_extensions insert
  encode ce = encode_extensions (sdk.extensions ce) (context_pairs ce)

  unfoldable pub content_type : sdk.Event → Bytes
  content_type ce = or_json (fmt.data_content_type ce)

  unfoldable pub is_json_media_type : Bytes → Bool
  is_json_media_type mt =
      is_empty mt || bytes_eq mt application_json || bytes_eq mt (str "text/json")

  abbrev pub structured_body : Result Bytes → Result Bytes
  structured_body (ok body) = ok body
  structured_body (err e) = err (errorf (lit (str "structured envelope: ") (verb e done)))

  unfoldable pub encode_structured : sdk.Event → Result Bytes
  unfolding is_json_media_type
  encode_structured ce =
      let inline =
        fmt.data_base64 ce
        && is_json_media_type (fmt.data_media_type ce)
        && fmt.valid_json (sdk.content ce) in
      structured_body (fmt.marshal (if inline then fmt.set_data_base64 false ce else ce))

  abbrev pub with_time : Bytes → sdk.Event → Result sdk.Time → Result sdk.Event
  with_time value ce (ok t) = ok (sdk.set_time t ce)
  with_time value ce (err e) = err (decode_error (str ": ce-time " ++ quoted value ++ str ": ") e)

  unfoldable pub set_attribute : Bytes → Bytes → sdk.Event → Result sdk.Event
  set_attribute name value ce =
      if bytes_eq name (str "id")
      then ok (sdk.set_id value ce)
      else if bytes_eq name (str "specversion")
      then ok (fmt.set_spec_version value ce)
      else if bytes_eq name (str "type")
      then ok (sdk.set_type value ce)
      else if bytes_eq name (str "source")
      then ok (sdk.set_source value ce)
      else if bytes_eq name (str "subject")
      then ok (fmt.set_subject value ce)
      else if bytes_eq name (str "dataschema")
      then ok (fmt.set_data_schema value ce)
      else if bytes_eq name (str "datacontenttype")
      then ok ce
      else if bytes_eq name (str "time")
      then with_time value ce (fmt.parse_time value)
      else ok (sdk.set_extension name (sdk.text value) ce)

  abbrev pub duplicate : Bytes → Result sdk.Event
  duplicate name =
      err (errorf (verb (sentinel decode) (lit (str ": duplicate attribute ce-") (lit name done))))

  abbrev pub and_rest : (sdk.Event → Result sdk.Event) → Result sdk.Event → Result sdk.Event
  and_rest rest (err e) = err e
  and_rest rest (ok ce) = rest ce

  -- One turn of the loop, on the attribute's name if it has the prefix.
  abbrev pub decode_named :
      List Bytes
      → Bytes
      → sdk.Event
      → (List Bytes → sdk.Event → Result sdk.Event)
      → Option Bytes
      → Result sdk.Event
  decode_named seen value ce rest none = rest seen ce
  decode_named seen value ce rest (some name) =
      if any (bytes_eq name) seen
      then duplicate name
      else and_rest (rest (name ∷ seen)) (set_attribute name value ce)

  -- The loop over the attributes; `seen` is the set of names.
  unfoldable pub decode_attributes : Pairs → List Bytes → sdk.Event → Result sdk.Event
  unfolding set_attribute
  decode_attributes [] seen ce = ok ce
  decode_attributes ((key, value) ∷ attrs) seen ce =
      decode_named seen value ce (decode_attributes attrs) (cut_prefix (fmt.to_lower key) prefix)

  abbrev pub defaulted : Defaults → sdk.Event
  defaulted def =
      sdk.set_source def.source
        (sdk.set_type def.type (sdk.set_id def.id (fmt.set_spec_version (str "1.0") sdk.new)))

  abbrev pub validated : Bytes → sdk.Event → Option Err → Result sdk.Event
  validated what ce none = ok ce
  validated what ce (some e) = err (decode_error what e)

  abbrev pub check_data : Result sdk.Event → Result sdk.Event
  check_data (err e) = err (decode_error (str ": set data: ") e)
  check_data (ok ce) = validated (str ": ") ce (fmt.validate ce)

  abbrev pub check_structured : Result sdk.Event → Result sdk.Event
  check_structured (err e) = err (decode_error (str ": structured envelope: ") e)
  check_structured (ok ce) = validated (str ": structured envelope: ") ce (fmt.validate ce)

  abbrev pub with_data : Bytes → Bytes → sdk.Event → Result sdk.Event
  with_data ct body ce = check_data (fmt.set_data (or_json ct) body ce)

  unfoldable pub decode_event : Bytes → Pairs → Bytes → Defaults → Result sdk.Event
  unfolding decode_attributes
  decode_event ct attrs body def =
      if bytes_eq ct structured_type
      then check_structured (fmt.unmarshal body)
      else and_rest (with_data ct body) (decode_attributes attrs [] (defaulted def))

  -- The error of SetData is dropped.
  abbrev pub or_same : sdk.Event → Result sdk.Event → sdk.Event
  or_same ce (ok ce') = ce'
  or_same ce (err e) = ce

  unfoldable pub rescue : Defaults → Bytes → Bytes → sdk.Event
  rescue def ct body = or_same (defaulted def) (fmt.set_data (or_json ct) body (defaulted def))
