-- ===== src/Http.antt =====
-- pkg/transport/eventhttp: response.go, codes.go and error.go. A written response is its status,
-- content type and body; json.Marshal is a parameter.
pub mod Rules
pub mod Request
pub mod Server
pub mod Token
pub mod Client
pub mod Forward
use event_driven.Prelude.{
  ℕ, zero, suc, ◌==◌, if◌then◌else◌, Bytes, str, Bool, true, false, Option, none, some, is_some,
  List, [], ◌∷◌, ◌++◌,
}
use event_driven.Error.{
  Err, Result, ok, err, find, is_sentinel, to_client_error, Sentinel, no_route, decode,
}
use event_driven.Event.CloudEvents.{CloudEvents}
use event_driven.Event.Correlation.{correlation_id}

abbrev pub ErrorCode : Type 0
ErrorCode = Bytes

abbrev pub code_invalid_request : ErrorCode
code_invalid_request = str "INVALID-REQUEST"

abbrev pub code_invalid_correlation_id : ErrorCode
code_invalid_correlation_id = str "INVALID-CORRELATION-ID"

abbrev pub code_payload_too_large : ErrorCode
code_payload_too_large = str "PAYLOAD-TOO-LARGE"

abbrev pub code_unsupported_media_type : ErrorCode
code_unsupported_media_type = str "UNSUPPORTED-MEDIA-TYPE"

abbrev pub code_route_not_found : ErrorCode
code_route_not_found = str "ROUTE-NOT-FOUND"

abbrev pub code_invalid_payload : ErrorCode
code_invalid_payload = str "INVALID-PAYLOAD"

abbrev pub code_validation_failed : ErrorCode
code_validation_failed = str "VALIDATION-FAILED"

abbrev pub code_handler_failed : ErrorCode
code_handler_failed = str "HANDLER-FAILED"

abbrev pub generic_failure_detail : Bytes
generic_failure_detail = str "The event could not be processed"

pub record Response : Type 0 where
  pub id : Bytes
  pub type : Bytes
  pub correlation_id : Bytes
  pub timestamp : ℕ
  pub instance_ : Bytes
  pub code : ErrorCode
  pub detail : Bytes
  pub status : ℕ

-- What a client receives.
pub record Written : Type 0 where
  pub status : ℕ
  pub content_type : Bytes
  pub body : Bytes

-- http.Error
abbrev pub http_error : Bytes → ℕ → Written
http_error text status = record {
  status = status;
  content_type = str "text/plain; charset=utf-8";
  body = text;
}

abbrev pub default_status : ℕ → ℕ
default_status zero = 202
default_status (suc n) = suc n

abbrev pub write_json : ℕ → Result Bytes → Written
write_json status (err e) = http_error (str "Internal Server Error") 500
write_json status (ok body) = record {
  status = status;
  content_type = str "application/json; charset=utf-8";
  body = body;
}

-- Response.JSON
unfoldable pub json : (Response → Result Bytes) → Response → Written
json marshal res =
    let res' = record res { status = default_status res.status } in
    write_json res'.status (marshal res')

-- newResponse, at this Unix time.
unfoldable pub new_response :
    (sdk : CloudEvents) → ℕ → sdk.Event → Bytes → ℕ → ErrorCode → Bytes → Response
unfolding correlation_id
new_response sdk now ce pattern_ status code detail = record {
  id = sdk.id ce;
  type = sdk.type ce;
  correlation_id = correlation_id sdk ce;
  timestamp = now;
  instance_ = pattern_;
  code = code;
  detail = detail;
  status = status;
}

pub record ErrorRule : Type 0 where
  pub match : Err → Bool
  pub status_code : ℕ
  pub error_code : ErrorCode
  pub detail_func : Err → Bytes

-- The detail of what errors.AsType finds; without a match it is asked of the zero value.
abbrev pub detail_of : {T : Type 0} → T → (T → Bytes) → Option T → Bytes
detail_of zero_value detail none = detail zero_value
detail_of zero_value detail (some e) = detail e

-- `as_type` is the type T: how one error is asserted to be a T.
unfoldable pub new_rule_for_type_with_detail :
    {T : Type 0} → T → (Err → Option T) → ℕ → ErrorCode → (T → Bytes) → ErrorRule
unfolding find
new_rule_for_type_with_detail zero_value as_type status code detail = record {
  match = λ e. is_some (find as_type e);
  status_code = status;
  error_code = code;
  detail_func = λ e. detail_of zero_value detail (find as_type e);
}

unfoldable pub new_rule_for_type :
    {T : Type 0} → T → (Err → Option T) → ℕ → ErrorCode → Bytes → ErrorRule
unfolding new_rule_for_type_with_detail
new_rule_for_type zero_value as_type status code detail =
    new_rule_for_type_with_detail zero_value as_type status code (λ _. detail)

unfoldable pub new_rule_for_value : Sentinel → ℕ → ErrorCode → Bytes → ErrorRule
unfolding is_sentinel
new_rule_for_value target status code detail = record {
  match = is_sentinel target;
  status_code = status;
  error_code = code;
  detail_func = λ _. detail;
}

unfoldable pub default_rules : List ErrorRule
unfolding new_rule_for_type_with_detail new_rule_for_value
default_rules =
    new_rule_for_type_with_detail [] to_client_error 400 code_validation_failed (λ d. d)
    ∷ new_rule_for_value no_route 400 code_route_not_found
        (str "Command or event type not supported")
    ∷ new_rule_for_value decode 400 code_invalid_payload (str "Payload could not be decoded")
    ∷ []

-- The rules of NewErrorResponder(extra...).
unfoldable pub new_error_responder : List ErrorRule → List ErrorRule
unfolding default_rules
new_error_responder extra = extra ++ default_rules

-- Respond: the response, or none where no rule matches.
unfoldable pub respond :
    (sdk : CloudEvents) → ℕ → List ErrorRule → Err → sdk.Event → Bytes → Option Response
unfolding new_response
respond sdk now [] e ce pattern_ = none
respond sdk now (rule ∷ rules) e ce pattern_ =
    if rule.match e
    then some
        (new_response sdk now ce pattern_ rule.status_code rule.error_code (rule.detail_func e))
    else respond sdk now rules e ce pattern_
