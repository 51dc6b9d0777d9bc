-- ===== src/Http/Request.antt =====
-- pkg/transport/eventhttp/subscriber.go: the event of a request. What net/http, mime, io and the
-- CloudEvents SDK make of a request is part of Incoming; the clock and UUIDs come with the state.
pub mod Correlated
use event_driven.Prelude.{
  ℕ, if◌then◌else◌, Bytes, str, is_empty, bytes_eq, Bool, true, false, not, ◌||◌, Option, none,
  some, [], ◌++◌,
}
use event_driven.Error.{
  Err, Result, ok, err, errorf, Pieces, lit, verb, done, sentinel, invalid_correlation_id,
}
use event_driven.Event.CloudEvents.{CloudEvents}
use event_driven.Event.Correlation.{
  ext_correlation_id, correlation_id, validate_correlation_id, Refusal,
}
use event_driven.Http.{
  ErrorCode, code_invalid_request, code_invalid_correlation_id, code_payload_too_large,
  code_unsupported_media_type,
}

-- A body that the MaxBytesReader cut off, or another failure.
pub data ReadError : Type 0 where
  too_large : Err → ReadError
  unreadable : Err → ReadError

pub data Parsed (sdk : CloudEvents) : Type 0 where
  parsed : sdk.Event → Parsed sdk
  refused : ReadError → Parsed sdk

-- A read body.
pub data Body : Type 0 where
  read : Bytes → Body
  failed : ReadError → Body

-- A request: `as_cloud_event` is what the SDK's NewEventFromHTTPRequest gives, `media_type` what
-- mime.ParseMediaType gives of its Content-Type, and an absent header is empty.
pub record Incoming (sdk : CloudEvents) : Type 0 where
  pub method : Bytes
  pub path : Bytes
  pub host : Bytes
  pub tls : Bool
  pub spec_version_header : Bytes
  pub message_id_header : Bytes
  pub correlation_id_header : Bytes
  pub media_type : Result Bytes
  pub body : Body
  pub as_cloud_event : Parsed sdk

-- Go's runtime and standard library: time.Now, uuid.NewV7, %d and utf8.ValidString.
pub record Library (sdk : CloudEvents) (S : Type 0) : Type 0 where
  pub now : S → sdk.Time × S
  pub unix : S → ℕ
  pub new_uuid : S → Bytes × S
  pub decimal : ℕ → Bytes
  pub valid_string : Bytes → Bool

-- `max_body_bytes` is what NewSubscriber made of it.
pub record SubscriberConfig : Type 0 where
  pub route_pattern : Bytes
  pub default_type : Bytes
  pub max_body_bytes : ℕ

pub record Rejection : Type 0 where
  pub status : ℕ
  pub code : ErrorCode
  pub detail : Bytes
  pub cause : Err

abbrev pub refusal_error : Refusal → Err
refusal_error r = sentinel invalid_correlation_id

abbrev pub media_error : Result Bytes → Option Err
media_error (ok mt) = none
media_error (err e) = some e

abbrev pub is_media_type : Bytes → Result Bytes → Bool
is_media_type wanted (ok mt) = bytes_eq wanted mt
is_media_type wanted (err e) = false

abbrev pub or_detail : Bytes → Option Err → Err
or_detail detail none = errorf (lit detail done)
or_detail detail (some e) = e

module _ {sdk : CloudEvents} where
  unfoldable pub reject : Incoming sdk → ℕ → ErrorCode → Bytes → Option Err → Rejection
  reject r status code detail cause = record {
    status = status;
    code = code;
    detail = detail;
    cause = errorf (
        lit r.method
          (lit (str " ") (lit r.path (lit (str ": ") (verb (or_detail detail cause) done)))));
  }

  unfoldable pub request_scheme : Incoming sdk → Bytes
  request_scheme r = if r.tls then str "https" else str "http"

  unfoldable pub is_cloud_events_request : Incoming sdk → Bool
  is_cloud_events_request r =
      not (is_empty r.spec_version_header)
      || is_media_type (str "application/cloudevents+json") r.media_type

module _ (sdk : CloudEvents) where
  unfoldable pub echoable : sdk.Event → Bool → sdk.Event
  unfolding correlation_id
  echoable ce keep_type =
      let clean = if keep_type then sdk.set_type (sdk.type ce) sdk.new else sdk.new in
      let cid = correlation_id sdk ce in
      if is_empty cid then clean else sdk.set_extension ext_correlation_id (sdk.text cid) clean

module _ {sdk : CloudEvents} {S : Type 0} (lib : Library sdk S) (cfg : SubscriberConfig) where
  abbrev pub Extracted : Type 0
  Extracted = sdk.Event × Option Rejection

  abbrev pub body_too_large : Incoming sdk → Err → Rejection
  body_too_large r e =
      reject r 413 code_payload_too_large
        (str "Body exceeds " ++ lib.decimal cfg.max_body_bytes ++ str " bytes") (some e)

  abbrev pub set_data : Incoming sdk → sdk.Event → Result sdk.Event → Extracted
  set_data r ce (ok ce') = (ce', none)
  set_data r ce (err e) =
      (ce, some (reject r 400 code_invalid_request (str "Invalid body") (some e)))

  abbrev pub add_correlation_id : Bytes → sdk.Event → sdk.Event
  add_correlation_id cid ce =
      if is_empty cid then ce else sdk.set_extension ext_correlation_id (sdk.text cid) ce

  abbrev pub given_or : Bytes → S → Bytes × S
  given_or id s = if is_empty id then lib.new_uuid s else (id, s)

  abbrev pub with_body : Incoming sdk → sdk.Event → Body → S → Extracted × S
  with_body r ce (failed (too_large e)) s = ((ce, some (body_too_large r e)), s)
  with_body r ce (failed (unreadable e)) s =
      ((ce, some (reject r 400 code_invalid_request (str "Unreadable body") (some e))), s)
  with_body r ce (read content) s =
      let id = given_or r.message_id_header s in
      let named = add_correlation_id r.correlation_id_header (sdk.set_id id.0 ce) in
      (set_data r named (sdk.set_json content named), id.1)

  unfoldable pub plain_event : Incoming sdk → S → Extracted × S
  unfolding reject request_scheme
  plain_event r s =
      let now = lib.now s in
      let ce = sdk.set_time now.0 (
        sdk.set_source (request_scheme r ++ str "://" ++ r.host ++ r.path)
          (sdk.set_type cfg.default_type sdk.new)) in
      if is_media_type (str "application/json") r.media_type then with_body r ce r.body now.1 else (
        (
          ce,
          some (
              reject r 415 code_unsupported_media_type (str "Content-Type must be application/json")
                (media_error r.media_type)),
        ),
        now.1,
      )

  abbrev pub check_given_id : Incoming sdk → sdk.Event → Option Refusal → Extracted
  check_given_id r ce none = (ce, none)
  check_given_id r ce (some refusal) = (
    sdk.set_extension ext_correlation_id (sdk.text []) ce,
    some (
        reject r 400 code_invalid_correlation_id (str "Invalid correlation id")
          (some (refusal_error refusal))),
  )

  abbrev pub check_correlation_id : Incoming sdk → sdk.Event → Extracted
  check_correlation_id r ce =
      if is_empty (correlation_id sdk ce)
      then (sdk.set_extension ext_correlation_id (sdk.text (sdk.id ce)) ce, none)
      else check_given_id r ce (validate_correlation_id (correlation_id sdk ce))

  -- The checks that follow the switch, on an event from either path.
  abbrev pub check_event : Incoming sdk → sdk.Event → Option Refusal → Extracted
  check_event r ce (some refusal) = (
    echoable sdk ce true,
    some
        (reject r 400 code_invalid_request (str "Invalid event id") (some (refusal_error refusal))),
  )
  check_event r ce none = if lib.valid_string (sdk.type ce) then check_correlation_id r ce else (
    echoable sdk ce false,
    some (
        reject r 400 code_invalid_request (str "Invalid event type")
          (some (errorf (lit (str "type is not valid UTF-8") done)))),
  )

  abbrev pub after_plain : Incoming sdk → Extracted × S → Extracted × S
  after_plain r ((ce, some rejection), s) = ((ce, some rejection), s)
  after_plain r ((ce, none), s) = (check_event r ce (validate_correlation_id (sdk.id ce)), s)

  abbrev pub read_error : ReadError → Err
  read_error (too_large e) = e
  read_error (unreadable e) = e

  abbrev pub extract_parsed : Incoming sdk → Parsed sdk → S → Extracted × S
  extract_parsed r (parsed ce) s = (check_event r ce (validate_correlation_id (sdk.id ce)), s)
  extract_parsed r (refused (too_large e)) s = ((sdk.new, some (body_too_large r e)), s)
  extract_parsed r (refused (unreadable e)) s =
      if is_cloud_events_request r
      then (
        (sdk.new, some (reject r 400 code_invalid_request (str "Malformed CloudEvent") (some e))),
        s,
      )
      else after_plain r (plain_event r s)

  unfoldable pub extract_cloud_event : Incoming sdk → S → Extracted × S
  unfolding is_cloud_events_request plain_event echoable reject correlation_id
      validate_correlation_id
  extract_cloud_event r s = extract_parsed r r.as_cloud_event s
