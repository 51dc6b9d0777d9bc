-- ===== src/Http/Token.antt =====
-- pkg/transport/eventhttp/token.go: a token that is fetched over HTTP and cached. Times and
-- durations are nanoseconds; the request and the clock are parameters. The lock of Token makes each
-- call one step.
pub mod Fresh
use event_driven.Prelude.{
  quoted, ℕ, zero, suc, ◌+◌, ◌*◌, ◌%◌, ◌^◌, ltb, if◌then◌else◌, Bytes, str, is_empty, Bool, true,
  false, not, ◌&&◌, Option, none, some, List, [], ◌∷◌, ◌++◌, lookup,
}
use event_driven.Error.{Err, Result, ok, err, errorf, lit, done, wrap}

-- A decoded JSON value, as far as a token response is read; a number is its whole seconds, where it
-- is positive.
pub data Value : Type 0 where
  text : Bytes → Value
  positive : ℕ → Value
  other : Value

-- What the request gives: an error, or the status and the decoded fields.
pub data Fetched : Type 0 where
  request_failed : Err → Fetched
  responded : (failure : Bool) → List (Bytes × Value) → Fetched

pub record TokenConfig : Type 0 where
  pub url : Bytes
  pub method : Bytes
  pub response_token_field : Bytes
  pub token_prefix : Bytes
  pub expires_in_field : Bytes
  pub cache_ttl : ℕ

abbrev or_default : Bytes → Bytes → Bytes
or_default default [] = default
or_default default (c ∷ s) = c ∷ s

-- NewTokenProvider's defaults.
unfoldable pub with_defaults : TokenConfig → TokenConfig
with_defaults cfg = record cfg {
  method = or_default (str "POST") cfg.method;
  response_token_field = or_default (str "access_token") cfg.response_token_field;
}

-- `outside` is the state of the clock and the network.
pub record Provider (S : Type 0) : Type 0 where
  pub cached : Bytes
  pub expires_at : ℕ
  pub outside : S

pub record Remote (S : Type 0) : Type 0 where
  pub now : S → ℕ
  pub execute : Bytes → Bytes → S → Fetched × S

abbrev pub failure : {A : Type 0} → Bytes → Result A
failure reason = err (errorf (lit reason done))

abbrev pub second : ℕ
second = 1000000000

-- time.Duration(v) * time.Second on int64: a negative product caches nothing, like 0.
abbrev pub seconds : ℕ → ℕ
seconds v = let n = v * second % 2 ^ 64 in if ltb n (2 ^ 63) then n else 0

abbrev pub ttl_of : ℕ → Option Value → ℕ
ttl_of cache_ttl (some (positive v)) = seconds v
ttl_of cache_ttl (some (text b)) = cache_ttl
ttl_of cache_ttl (some other) = cache_ttl
ttl_of cache_ttl none = cache_ttl

unfoldable pub resolve_ttl : TokenConfig → List (Bytes × Value) → ℕ
resolve_ttl cfg result =
    if is_empty cfg.expires_in_field
    then cfg.cache_ttl
    else ttl_of cfg.cache_ttl (lookup cfg.expires_in_field result)

abbrev pub token_in : TokenConfig → List (Bytes × Value) → Option Value → Result (Bytes × ℕ)
token_in cfg result none = failure (
    str "token provider: field " ++ quoted cfg.response_token_field ++ str " not found in response")
token_in cfg result (some (text token)) = ok (cfg.token_prefix ++ token, resolve_ttl cfg result)
token_in cfg result (some (positive v)) =
    failure
      (str "token provider: field " ++ quoted cfg.response_token_field ++ str " is not a string")
token_in cfg result (some other) =
    failure
      (str "token provider: field " ++ quoted cfg.response_token_field ++ str " is not a string")

abbrev pub read_response : TokenConfig → Fetched → Result (Bytes × ℕ)
read_response cfg (request_failed e) = err (wrap (str "token provider: request failed: ") e)
read_response cfg (responded true result) = failure (str "token provider: unexpected status")
read_response cfg (responded false result) =
    token_in cfg result (lookup cfg.response_token_field result)

module _ {S : Type 0} (remote : Remote S) (cfg : TokenConfig) where
  unfoldable pub fetch : S → Result (Bytes × ℕ) × S
  unfolding resolve_ttl
  fetch s = let r = remote.execute cfg.method cfg.url s in (read_response cfg r.0, r.1)

  abbrev pub keep : Bytes → ℕ → ℕ → Provider S → Provider S
  keep token ttl now tp =
      if ltb 0 ttl then record tp { cached = token; expires_at = now + ttl } else tp

  abbrev pub after_fetch : Provider S → Result (Bytes × ℕ) → Result Bytes × Provider S
  after_fetch tp (err e) = (err e, tp)
  after_fetch tp (ok (token, ttl)) = (ok token, keep token ttl (remote.now tp.outside) tp)

  abbrev pub refresh : Provider S → Result (Bytes × ℕ) × S → Result Bytes × Provider S
  refresh tp (r, s) = after_fetch (record tp { outside = s }) r

  -- httpTokenProvider.Token
  unfoldable pub token : Provider S → Result Bytes × Provider S
  unfolding fetch
  token tp =
      if not (is_empty tp.cached) && ltb (remote.now tp.outside) tp.expires_at
      then (ok tp.cached, tp)
      else refresh tp (fetch tp.outside)
