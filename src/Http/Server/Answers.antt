-- ===== src/Http/Server/Answers.antt =====
-- Which answers a client gets.
use event_driven.Prelude.{
  ℕ, ◌≤◌, ◌<◌, ◌≡◌, refl, arith, none, some, Option, Bytes, All, [], ◌∷◌, List, if_both, is_empty,
}
use event_driven.Error.{Err, Result, ok, err}
use event_driven.Event.CloudEvents.{CloudEvents}
use event_driven.Event.Message.{Context, Outcome, pending, acked, nacked, discarded, new_message}
use event_driven.Event.Correlation.{correlation_id, validate_correlation_id, Refusal}
use event_driven.Http.{
  Response, Written, ErrorRule, ErrorCode, json, write_json, new_response, respond, default_status,
}
use event_driven.Http.Request.{
  Incoming, Library, SubscriberConfig, Rejection, Extracted, Parsed, parsed, refused, too_large,
  unreadable, Body, read, failed, reject, check_given_id, check_correlation_id, check_event,
  set_data, with_body, plain_event, after_plain, extract_parsed, extract_cloud_event,
  is_cloud_events_request, is_media_type,
}
use event_driven.Http.Server.{
  Router, Subscriber, http_delivery, write, or_generic, answer_failure, answer, hand_over,
  handler_func, serve, serve_with,
}

too_small : {G : Type 0} (n : ℕ) → 400 ≤ n → n < 400 → G
too_small n h k = absurd (omega arith)

-- A refusal answers with a client error.
abbrev Refuses : Option Rejection → Type 0
Refuses none = Unit
Refuses (some rej) = 400 ≤ rej.status

module _ {sdk : CloudEvents} {S : Type 0} (lib : Library sdk S) (cfg : SubscriberConfig) where
  abbrev Fair : Extracted lib cfg → Type 0
  Fair x = Refuses x.1

  abbrev FairStep : Extracted lib cfg × S → Type 0
  FairStep x = Refuses x.0.1

  check_given_id-Fair :
      (r : Incoming sdk) (ce : sdk.Event) (o : Option Refusal)
      → Fair (check_given_id lib cfg r ce o)
  unfolding reject
  check_given_id-Fair r ce none = tt
  check_given_id-Fair r ce (some refusal) = omega arith

  check_event-Fair :
      (r : Incoming sdk) (ce : sdk.Event) (o : Option Refusal) → Fair (check_event lib cfg r ce o)
  unfolding reject
  check_event-Fair r ce (some refusal) = omega arith
  check_event-Fair r ce none =
      if_both Fair (lib.valid_string (sdk.type ce)) (check_correlation_id lib cfg r ce) _
        (if_both Fair (is_empty (correlation_id sdk ce)) _
          (check_given_id lib cfg r ce (validate_correlation_id (correlation_id sdk ce))) tt
          (check_given_id-Fair r ce _))
        (omega arith)

  set_data-Fair :
      (r : Incoming sdk) (ce : sdk.Event) (x : Result sdk.Event) → Fair (set_data lib cfg r ce x)
  unfolding reject
  set_data-Fair r ce (ok ce') = tt
  set_data-Fair r ce (err e) = omega arith

  with_body-Fair :
      (r : Incoming sdk) (ce : sdk.Event) (b : Body) (s : S) → FairStep (with_body lib cfg r ce b s)
  unfolding reject
  with_body-Fair r ce (failed (too_large e)) s = omega arith
  with_body-Fair r ce (failed (unreadable e)) s = omega arith
  with_body-Fair r ce (read content) s = set_data-Fair r _ _

  plain_event-Fair : (r : Incoming sdk) (s : S) → FairStep (plain_event lib cfg r s)
  unfolding plain_event reject
  plain_event-Fair r s =
      if_both FairStep (is_media_type _ r.media_type) (with_body lib cfg r _ r.body _) _
        (with_body-Fair r _ r.body _) (omega arith)

  after_plain-Fair :
      (r : Incoming sdk) (x : Extracted lib cfg × S)
      → FairStep x
      → FairStep (after_plain lib cfg r x)
  after_plain-Fair r ((ce, some rejection), s) h = h
  after_plain-Fair r ((ce, none), s) h = check_event-Fair r ce _

  extract_parsed-Fair :
      (r : Incoming sdk) (p : Parsed sdk) (s : S) → FairStep (extract_parsed lib cfg r p s)
  unfolding reject
  extract_parsed-Fair r (parsed ce) s = check_event-Fair r ce _
  extract_parsed-Fair r (refused (too_large e)) s = omega arith
  extract_parsed-Fair r (refused (unreadable e)) s =
      if_both FairStep (is_cloud_events_request r) _
        (after_plain lib cfg r (plain_event lib cfg r s)) (omega arith)
        (after_plain-Fair r (plain_event lib cfg r s) (plain_event-Fair r s))

module _ {sdk : CloudEvents} {S : Type 0} (lib : Library sdk S) (marshal : Response → Result Bytes)
    (h : Subscriber sdk S) where
  abbrev IsFailure : Written → Type 0
  IsFailure w = 400 ≤ w.status

  abbrev FailsWith : Option Response → Type 0
  FailsWith none = Unit
  FailsWith (some res) = 400 ≤ res.status

  write_json-IsFailure :
      (status : ℕ) (x : Result Bytes) → 400 ≤ status → IsFailure (write_json status x)
  write_json-IsFailure status (ok b) k = k
  write_json-IsFailure status (err e) k = omega arith

  json-IsFailure : (res : Response) → 400 ≤ res.status → IsFailure (json marshal res)
  unfolding json
  json-IsFailure res k = write_json-IsFailure (default_status res.status) _ (ground arith)

  write-IsFailure :
      (ce : sdk.Event) (status : ℕ) (code : ErrorCode) (detail : Bytes) (s : S)
      → 400 ≤ status
      → IsFailure (write lib marshal h ce status code detail s)
  unfolding write new_response
  write-IsFailure ce status code detail s k = json-IsFailure _ k

  respond-FailsWith :
      (now : ℕ) (rules : List ErrorRule) (e : Err) (ce : sdk.Event) (p : Bytes)
      → All (λ r. 400 ≤ r.status_code) rules
      → FailsWith (respond sdk now rules e ce p)
  unfolding respond new_response
  respond-FailsWith now [] e ce p k = tt
  respond-FailsWith now (rule ∷ rules) e ce p k =
      if_both FailsWith (rule.match e) _ (respond sdk now rules e ce p) k.0
        (respond-FailsWith now rules e ce p k.1)

  or_generic-IsFailure :
      (ce : sdk.Event) (s : S) (o : Option Response)
      → FailsWith o
      → IsFailure (or_generic lib marshal h ce s o)
  or_generic-IsFailure ce s none k = write-IsFailure ce 500 _ _ s (omega arith)
  or_generic-IsFailure ce s (some res) k = json-IsFailure res k

  answer_failure-IsFailure :
      (ce : sdk.Event) (s : S) (cause : Option Err)
      → All (λ r. 400 ≤ r.status_code) h.rules
      → IsFailure (answer_failure lib marshal h ce s cause)
  answer_failure-IsFailure ce s none k = write-IsFailure ce 500 _ _ s (omega arith)
  answer_failure-IsFailure ce s (some cause) k =
      or_generic-IsFailure ce s _ (respond-FailsWith _ h.rules cause ce _ k)

  answer-acked :
      (ce : sdk.Event) (o : Outcome) (cause : Option Err) (s : S)
      → All (λ r. 400 ≤ r.status_code) h.rules
      → (answer lib marshal h ce o cause s).status < 400
      → o ≡ acked
  answer-acked ce acked cause s k small = refl
  answer-acked ce pending cause s k small =
      too_small _ (write-IsFailure ce 500 _ _ s (omega arith)) small
  answer-acked ce nacked cause s k small = too_small _ (answer_failure-IsFailure ce s cause k) small
  answer-acked ce discarded cause s k small =
      too_small _ (answer_failure-IsFailure ce s cause k) small

  -- Why a client is told of success: the router, wired and given an event that was not refused, acknowledged it.
  pub record Succeeded (ctx : Context) (wired : Option (Router sdk S)) (x : Extracted lib h.cfg × S)
      : Type 0 where
    pub handler : Router sdk S
    pub is_wired : wired ≡ some handler
    pub accepted : x.0.1 ≡ none
    pub acknowledged : (handler (new_message ctx x.0.0 http_delivery) x.1).0.outcome ≡ acked

  hand_over-Succeeded :
      (ctx : Context) (handler : Router sdk S) (x : Extracted lib h.cfg × S)
      → All (λ r. 400 ≤ r.status_code) h.rules
      → FairStep lib h.cfg x
      → (hand_over lib marshal h ctx handler x).0.status < 400
      → Succeeded ctx (some handler) x
  hand_over-Succeeded ctx handler ((ce, some rej), s) k fair small =
      too_small _ (write-IsFailure ce rej.status rej.code rej.detail s fair) small
  hand_over-Succeeded ctx handler ((ce, none), s) k fair small = record {
    handler = handler;
    is_wired = refl;
    accepted = refl;
    acknowledged = answer-acked ce _ _ _ k small;
  }

  serve_with-Succeeded :
      (ctx : Context) (r : Incoming sdk) (s : S) (wired : Option (Router sdk S))
      → All (λ rule. 400 ≤ rule.status_code) h.rules
      → (serve_with lib marshal h ctx r s wired).0.status < 400
      → Succeeded ctx wired (extract_cloud_event lib h.cfg r s)
  unfolding handler_func extract_cloud_event
  serve_with-Succeeded ctx r s none k small = too_small 503 (omega arith) small
  serve_with-Succeeded ctx r s (some handler) k small =
      hand_over-Succeeded ctx handler (extract_cloud_event lib h.cfg r s) k
        (extract_parsed-Fair lib h.cfg r r.as_cloud_event s) small

  -- A client is answered with a status below 400 only if the subscriber is started, the request held
  -- an event that was not refused, and the router acknowledged its message, where the rules for
  -- errors all answer with statuses of 400 and above.
  pub serve-Succeeded :
      (ctx : Context) (r : Incoming sdk) (s : S)
      → All (λ rule. 400 ≤ rule.status_code) h.rules
      → (serve lib marshal h ctx r s).0.status < 400
      → Succeeded ctx h.handler (extract_cloud_event lib h.cfg r s)
  unfolding serve
  serve-Succeeded ctx r s k small = serve_with-Succeeded ctx r s h.handler k small
