-- ===== src/Http/Forward.antt =====
-- pkg/transport/eventhttp/publisher.go: a publish over HTTP. resty's Post and the envelope of an event
-- are parameters.
pub mod Permanent
use event_driven.Prelude.{
  ℕ, leb, if◌then◌else◌, Bytes, str, is_empty, bytes_eq, not, ◌&&◌, ◌||◌, Option, none, some, List,
  [], ◌∷◌, ◌++◌, ℤ, pos, negsuc,
}
use event_driven.Error.{Err, Result, ok, err, errorf, lit, done, wrap, non_retryable}
use event_driven.Event.CloudEvents.{CloudEvents}
use event_driven.Event.Message.{Context}
use event_driven.Http.Client.{
  RetryConfig, Client, BuildInfo, new_client, or_agent, permanent_status,
}

-- A request: its headers in the order in which they are set, and its body.
pub record Request : Type 0 where
  pub url : Bytes
  pub headers : List (Bytes × Bytes)
  pub body : Bytes

-- url.Parse: the scheme and the host, or no URL.
pub record Url : Type 0 where
  pub scheme : Bytes
  pub host : Bytes

pub record PublisherConfig (S : Type 0) : Type 0 where
  pub target_url : Bytes
  pub timeout : ℤ
  pub headers : List (Bytes × Bytes)
  pub token_provider : Option (Context → S → Result Bytes × S)
  pub token_header : Bytes
  pub retry : Option RetryConfig
  pub user_agent : Bytes

pub record Publisher (S : Type 0) : Type 0 where
  pub cfg : PublisherConfig S
  pub client : Client
  pub token_header : Bytes

abbrev pub refuse : {A : Type 0} → Bytes → Result A
refuse text = err (errorf (lit text done))

module _ {S : Type 0} where
  abbrev pub checked_timeout : PublisherConfig S → Option BuildInfo → ℤ → Result (Publisher S)
  checked_timeout cfg bi (negsuc n) = refuse (str "eventhttp: PublisherConfig.Timeout is negative")
  checked_timeout cfg bi (pos n) = ok (record {
    cfg = cfg;
    client =
        new_client
          (record {
            timeout = n;
            retry = cfg.retry;
            user_agent = cfg.user_agent;
            default_retry = 3;
          })
          bi;
    token_header = or_agent (str "Authorization") cfg.token_header;
  })

  abbrev pub checked_url : PublisherConfig S → Option BuildInfo → Option Url → Result (Publisher S)
  checked_url cfg bi none = refuse (str "eventhttp: PublisherConfig.TargetURL is not a valid URL")
  checked_url cfg bi (some u) =
      if (not (bytes_eq u.scheme (str "http")) && not (bytes_eq u.scheme (str "https")))
        || is_empty u.host
      then refuse (str "eventhttp: PublisherConfig.TargetURL must be an absolute http(s) URL")
      else checked_timeout cfg bi cfg.timeout

  unfoldable pub new_publisher :
      (Bytes → Option Url) → Option BuildInfo → PublisherConfig S → Result (Publisher S)
  unfolding new_client
  new_publisher parse bi cfg =
      if is_empty cfg.target_url
      then refuse (str "eventhttp: PublisherConfig.TargetURL is empty")
      else checked_url cfg bi (parse cfg.target_url)

-- What Publish calls: the envelope of an event, and Post, which gives the status of the last response.
pub record Wire (sdk : CloudEvents) (S : Type 0) : Type 0 where
  pub encode : sdk.Event → Result (List (Bytes × Bytes))
  pub content_type : sdk.Event → Bytes
  pub traceparent : Context → Option Bytes
  pub post : Client → Request → S → Result ℕ × S

module _ {sdk : CloudEvents} {S : Type 0} (wire : Wire sdk S) (p : Publisher S) where
  abbrev pub after_post : Result ℕ → Option Err
  after_post (err e) = some (wrap (str "http publisher: send: ") e)
  after_post (ok status) =
      let failure = errorf (lit (str "http publisher: unexpected status") done) in
      if leb 400 status
      then (if permanent_status status then some (non_retryable failure) else some failure)
      else none

  abbrev pub trace_header : Option Bytes → List (Bytes × Bytes)
  trace_header none = []
  trace_header (some traceparent) = (str "traceparent", traceparent) ∷ []

  abbrev pub send : sdk.Event → List (Bytes × Bytes) → S → Option Err × S
  send ce headers s =
      let r =
        wire.post p.client
          (record { url = p.cfg.target_url; headers = headers; body = sdk.content ce }) s in
      (after_post r.0, r.1)

  abbrev pub with_token : sdk.Event → List (Bytes × Bytes) → Result Bytes × S → Option Err × S
  with_token ce headers (err e, s) = (some (wrap (str "http publisher: token provider: ") e), s)
  with_token ce headers (ok token, s) = send ce (headers ++ ((p.token_header, token) ∷ [])) s

  abbrev pub authorise :
      Context
      → sdk.Event
      → List (Bytes × Bytes)
      → S
      → Option (Context → S → Result Bytes × S)
      → Option Err × S
  authorise ctx ce headers s none = send ce headers s
  authorise ctx ce headers s (some provider) = with_token ce headers (provider ctx s)

  abbrev pub with_attributes :
      Context → sdk.Event → S → Result (List (Bytes × Bytes)) → Option Err × S
  with_attributes ctx ce s (err e) = (some (wrap (str "http publisher: ") e), s)
  with_attributes ctx ce s (ok attrs) =
      authorise ctx ce
        (p.cfg.headers
          ++ ((str "Content-Type", wire.content_type ce) ∷ [])
          ++ attrs
          ++ trace_header (wire.traceparent ctx))
        s p.cfg.token_provider

  unfoldable pub publish : Context → sdk.Event → S → Option Err × S
  unfolding permanent_status
  publish ctx ce s = with_attributes ctx ce s (wire.encode ce)
