-- ===== src/Mux/Failure.antt =====
-- pkg/eventmux/failure.go and the observer and settlement parts of mux.go and observer.go.
pub mod Text
pub mod Settled
pub mod Recovered
pub mod Acks
pub mod Copy
pub mod Utf8
use event_driven.Prelude.{
  ℕ, ltb, Bytes, str, List, [], ◌∷◌, ◌++◌, Option, none, some, Bool, true, false, not, ◌&&◌, ◌||◌,
  is_some, Called, returned, panicked, Outside, if◌then◌else◌,
}
use event_driven.Error.{
  Err, sentinel, panic as panic_sentinel, publication_failed, errorf, lit, verb, done, find,
  to_panic_error, to_preflight_error, is_non_retryable, panic_error, preflight_error, error_text,
}
use event_driven.Event.CloudEvents.{CloudEvents}
use event_driven.Event.DeadLetter.{
  DeadLetterReason, decode, validation, panic, non_retryable, no_redelivery, max_retries, publish,
  reason_text, ext_dead_letter_reason, ext_dead_letter_error, max_dead_letter_error_len,
}
use event_driven.Event.Message.{
  Context, Message, Outcome, pending, acked, nacked, discarded, can_nack, delivery_count, nack,
  discard,
}
use event_driven.Mux.Types.{Config, Mux, Publisher, Observer, Route, HandlerFunc, Local, Reply}
use event_driven.Mux.Effects.{
  World, M, Effect, logged, published, observed_message, observed_publish, preflight_called,
  handler_called, Target, to_dead_letter, to_result, ◌>>=◌, ◌>>◌, pure, recovering, call, emit,
  get_msg, Log, ack_failed, observer_panicked, handling_failed, message_discarded,
  message_dead_lettered, dead_letter_publish_failed, panic_after_decision, panic_while_settling,
}
use event_driven.Mux.Failure.Text.{truncate, sanitize}

-- panicCause: fmt.Errorf("%w: %v", event.ErrPanic, r)
abbrev pub panic_cause : Bytes → Err
panic_cause r = errorf (verb (sentinel panic_sentinel) (lit (str ": " ++ r) done))

-- unwrapFailure, without the stack, which only the log record carries.
abbrev pub cause_of : Option (Err × Bytes) → Option Err → Err → Err
cause_of (some (cause, stack)) fe err = cause
cause_of none (some inner) err = inner
cause_of none none err = err

unfoldable pub unwrap_failure : Err → Err
unfolding find
unwrap_failure err = cause_of (find to_panic_error err) (find to_preflight_error err) err

abbrev pub above : ℕ → Option ℕ → Bool
above limit none = false
above limit (some count) = ltb limit count

abbrev pub is_pending : Outcome → Bool
is_pending pending = true
is_pending _ = false

abbrev pub Decision : CloudEvents → Type 0 → Type 0
Decision sdk S = Message sdk S → S → Called (Option Err) × Message sdk S × S

-- deadLetterEvent: Clone and the two extensions.
unfoldable pub dead_letter_event :
    (sdk : CloudEvents) → sdk.Event → DeadLetterReason → Err → sdk.Event
dead_letter_event sdk ce reason cause =
    sdk.set_extension ext_dead_letter_error
      (sdk.text (truncate (sanitize (error_text cause)) max_dead_letter_error_len))
      (sdk.set_extension ext_dead_letter_reason (sdk.text (reason_text reason)) ce)

module _ {sdk : CloudEvents} {S : Type 0} where
  unfoldable pub past_max_retries : Config sdk S → Message sdk S → Bool
  unfolding delivery_count
  past_max_retries cfg msg = ltb 0 cfg.max_retries && above cfg.max_retries (delivery_count msg)

  unfoldable pub redelivery_bounded : Config sdk S → Message sdk S → Bool
  unfolding delivery_count can_nack past_max_retries
  redelivery_bounded cfg msg =
      can_nack msg
      && ltb 0 cfg.max_retries
      && is_some (delivery_count msg)
      && not (past_max_retries cfg msg)

  -- `none` is the empty reason: retryable.
  unfoldable pub classify : Config sdk S → Message sdk S → Err → Option DeadLetterReason
  unfolding can_nack past_max_retries
  classify cfg msg err =
      if is_some (find to_panic_error err)
      then some panic
      else if is_some (find to_preflight_error err)
      then some validation
      else if is_non_retryable err
      then some non_retryable
      else if not (can_nack msg)
      then some no_redelivery
      else if past_max_retries cfg msg
      then some max_retries
      else none

  unfoldable pub classify_publish : Config sdk S → Message sdk S → Err → Option DeadLetterReason
  unfolding can_nack past_max_retries
  classify_publish cfg msg err =
      if is_non_retryable err || not (can_nack msg) || past_max_retries cfg msg
      then some publish
      else none

  -- Mux.observe around a callback.
  unfoldable pub observe : Outside S (Unit {0}) → M sdk S (Unit {0})
  observe fn = recovering (call fn) (λ _. emit (logged observer_panicked))

  unfoldable pub observe_message :
      Option (Observer sdk S) → Outcome → Option DeadLetterReason → M sdk S (Unit {0})
  unfolding observe
  observe_message none outcome reason = pure tt
  observe_message (some o) outcome reason = do
    msg ← get_msg
    emit (observed_message outcome reason)
    observe (o.on_message msg.event outcome reason)

  unfoldable pub observe_publish :
      Option (Observer sdk S) → sdk.Event → Option Err → M sdk S (Unit {0})
  unfolding observe
  observe_publish none ce err = pure tt
  observe_publish (some o) ce err = do emit (observed_publish ce err); observe (o.on_publish ce err)

  -- A Publish of the router; observedPublisher.Publish where Start wrapped the publisher.
  unfoldable pub publish_event :
      Config sdk S → Target → Publisher sdk S → Context → sdk.Event → M sdk S (Option Err)
  unfolding observe_publish
  publish_event cfg target p ctx ce = do
    emit (published target ce)
    err ← call (p.publish ctx ce)
    (if p.observed then observe_publish cfg.observer ce err else pure tt)
    pure err

  abbrev pub put :
      World sdk S → Called (Option Err) × Message sdk S × S → Called (Option Err) × World sdk S
  put w (r, m, s) = (r, record w { msg = m; outside = s })

  abbrev pub log_refusal : Option Err → M sdk S (Unit {0})
  log_refusal none = pure tt
  log_refusal (some err) = emit (logged ack_failed)

  unfoldable pub settle :
      Config sdk S → Outcome → Option DeadLetterReason → Decision sdk S → M sdk S (Unit {0})
  unfolding observe_message
  settle cfg outcome reason decide = do
    err ← λ w. put w (decide w.msg w.outside)
    log_refusal err
    observe_message cfg.observer outcome reason

  unfoldable pub publish_dead_letter :
      Config sdk S → Publisher sdk S → DeadLetterReason → Err → M sdk S (Option Err)
  unfolding publish_event dead_letter_event
  publish_dead_letter cfg p reason cause = do
    msg ← get_msg
    publish_event cfg to_dead_letter p (record (msg.context) { detached = true })
        (dead_letter_event sdk msg.event reason cause)

  -- The end of `fail`: discard with the log record that says whether a copy went out.
  unfoldable pub give_up : Config sdk S → DeadLetterReason → Err → Log → M sdk S (Unit {0})
  unfolding settle
  give_up cfg reason cause log = do
    emit (logged log)
    settle cfg discarded (some reason) (discard cause)

  -- The switch on the error of the dead-letter copy.
  unfoldable pub after_dead_letter :
      Config sdk S → DeadLetterReason → Err → Option Err → M sdk S (Unit {0})
  unfolding settle give_up redelivery_bounded
  after_dead_letter cfg reason cause none = give_up cfg reason cause message_dead_lettered
  after_dead_letter cfg reason cause (some pub_err) = do
    msg ← get_msg
    (if is_non_retryable pub_err || not (redelivery_bounded cfg msg)
        then give_up cfg reason cause message_discarded
        else do
          emit (logged dead_letter_publish_failed)
          settle cfg nacked none (
              nack (
                errorf (
                  verb cause (
                    lit (str "; ")
                      (verb (sentinel publication_failed) (lit (str ": ") (verb pub_err done))))))))

  abbrev pub dead_letter_or_discard :
      Config sdk S → Option (Publisher sdk S) → DeadLetterReason → Err → M sdk S (Unit {0})
  dead_letter_or_discard cfg none reason cause = give_up cfg reason cause message_discarded
  dead_letter_or_discard cfg (some p) reason cause = do
    pub_err ← publish_dead_letter cfg p reason cause
    after_dead_letter cfg reason cause pub_err

  unfoldable pub fail : Config sdk S → Option DeadLetterReason → Err → M sdk S (Unit {0})
  unfolding settle give_up publish_dead_letter after_dead_letter
  fail cfg none cause = do emit (logged handling_failed); settle cfg nacked none (nack cause)
  fail cfg (some reason) cause = dead_letter_or_discard cfg cfg.dead_letter reason cause

  -- recoverOutsideHandler, on the panic value that it recovers.
  unfoldable pub recover_outside_handler : Config sdk S → Bytes → M sdk S (Unit {0})
  unfolding fail
  recover_outside_handler cfg r = do
    msg ← get_msg
    (if is_pending msg.outcome
        then recovering (fail cfg (some panic) (panic_cause r))
            (λ _. emit (logged panic_while_settling))
        else emit (logged panic_after_decision))
