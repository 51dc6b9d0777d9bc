-- ===== src/Mux/Handle.antt =====
-- handle, findMatchingRoute, handleNoRouteFound, processAndHandle of pkg/eventmux/mux.go and
-- invoke of failure.go: what the router does with one message.
pub mod Untouched
pub mod Settles
pub mod Acks
pub mod Routing
pub mod Failing
use event_driven.Prelude.{
  ℕ, ltb, Bytes, str, is_empty, List, [], ◌∷◌, Option, none, some, is_some, Bool, true, false, not,
  ◌&&◌, ◌||◌, Called, returned, panicked, if◌then◌else◌,
}
use event_driven.Error.{
  Err, sentinel, no_route, publication_failed, panic_error, preflight_error, wrap_two, Result, ok,
  err,
}
use event_driven.Event.CloudEvents.{CloudEvents}
use event_driven.Event.DeadLetter.{decode}
use event_driven.Event.Correlation.{ext_correlation_id, correlation_id}
use event_driven.Event.Message.{Context, Message, acked, discarded, delivery_count, ack, discard}
use event_driven.Mux.Types.{Mux, Config, Publisher, Filter, Route, HandlerFunc, Local, Reply}
use event_driven.Mux.Effects.{
  World, M, Effect, logged, preflight_called, handler_called, ◌>>=◌, ◌>>◌, pure, recovering, call,
  emit, get_msg, no_delivery_count, no_route_matched, message_processed, result_publish_failed,
}
use event_driven.Mux.Failure.{
  panic_cause, unwrap_failure, classify, classify_publish, settle, fail, recover_outside_handler,
}
use event_driven.Mux.ResultEvent.{publish_result}

module _ {sdk : CloudEvents} {S : Type 0} where
  abbrev pub put_local : World sdk S → Called Reply × Local S → Called Reply × World sdk S
  put_local w (r, l) = (r, record w { outside = l.outside; store = l.store })

  abbrev pub after_preflight : M sdk S Reply → Reply → M sdk S Reply
  after_preflight rest (value, some perr) = pure (none, some (preflight_error perr))
  after_preflight rest (value, none) = rest

  -- What invoke answers for a panic that it recovers. The stack is left empty: only the log record
  -- shows it.
  abbrev pub recovered_reply : Bytes → M sdk S Reply
  recovered_reply r = pure (none, some (panic_error (panic_cause r) []))

  abbrev pub matches : Option (Filter sdk S) → sdk.Event → M sdk S Bool
  matches none ce = pure true
  matches (some f) ce = call (f.match ce)

  -- A terminal route has no store in its context; a result route starts with an empty one.
  abbrev pub handler_context : Message sdk S → Option (Publisher sdk S) → Context
  handler_context msg p = record (msg.context) { has_store = is_some p }

  abbrev pub new_store : M sdk S (Unit {0})
  new_store w = (returned tt, record w { store = [] })

  -- PublishAfterAck: the error of the publisher is only logged.
  abbrev pub log_lost : Option Err → M sdk S (Unit {0})
  log_lost none = pure tt
  log_lost (some e) = emit (logged result_publish_failed)

  -- The first event of a chain identifies the chain.
  unfoldable pub mint_correlation_id : World sdk S → World sdk S
  unfolding correlation_id
  mint_correlation_id w =
      if is_empty (correlation_id sdk w.msg.event) && not (is_empty (sdk.id w.msg.event))
      then record w {
        msg = record (w.msg) {
          event = sdk.set_extension ext_correlation_id (sdk.text (sdk.id w.msg.event)) w.msg.event;
        };
      }
      else w

module _ {sdk : CloudEvents} {S A : Type 0} where
  -- A call of a handler function: it sees the outside world and the store.
  abbrev pub run_handler : HandlerFunc S A → Context → A → M sdk S Reply
  run_handler h ctx payload w =
      put_local w (h ctx payload (record { outside = w.outside; store = w.store }))

  unfoldable pub invoke : Mux sdk S A → Route sdk S A → Context → A → M sdk S Reply
  invoke mux rt ctx payload =
      recovering
        (do
          emit preflight_called
          checked ← run_handler mux.preflight ctx payload
          after_preflight (do emit handler_called; run_handler rt.chained ctx payload) checked)
        recovered_reply

  abbrev pub choose :
      Route sdk S A → M sdk S (Option (Route sdk S A)) → Bool → M sdk S (Option (Route sdk S A))
  choose rt rest found = if found then pure (some rt) else rest

  unfoldable pub find_matching_route : List (Route sdk S A) → M sdk S (Option (Route sdk S A))
  find_matching_route [] = pure none
  find_matching_route (rt ∷ rts) =
      let rest = find_matching_route rts in
      do msg ← get_msg; found ← matches rt.filter msg.event; choose rt rest found

  unfoldable pub handle_no_route_found : Mux sdk S A → M sdk S (Unit {0})
  unfolding settle
  handle_no_route_found mux = do
    emit (logged no_route_matched)
    settle mux.cfg discarded none (discard (sentinel no_route))

  abbrev pub settle_processed : Mux sdk S A → M sdk S (Unit {0})
  settle_processed mux = do settle mux.cfg acked none ack; emit (logged message_processed)

  abbrev pub after_publish : Mux sdk S A → Option Err → M sdk S (Unit {0})
  after_publish mux none = settle_processed mux
  after_publish mux (some e) = do
    msg ← get_msg
    fail mux.cfg (classify_publish mux.cfg msg e) (wrap_two (sentinel publication_failed) e)

  abbrev pub publish_lost : Mux sdk S A → Context → Bytes → Publisher sdk S → M sdk S (Unit {0})
  publish_lost mux ctx value p = do
    e ← publish_result mux (record ctx { detached = true }) value p
    log_lost e

  -- The two orders that Config.PublishAfterAck chooses from.
  abbrev pub publish_and_settle :
      Bool → Mux sdk S A → Context → Bytes → Publisher sdk S → M sdk S (Unit {0})
  publish_and_settle true mux ctx value p = do settle_processed mux; publish_lost mux ctx value p
  publish_and_settle false mux ctx value p = do
    e ← publish_result mux ctx value p
    after_publish mux e

  -- The rest of processAndHandle once the handler succeeded.
  abbrev pub finish :
      Mux sdk S A → Context → Option (Publisher sdk S) → Option Bytes → M sdk S (Unit {0})
  finish mux ctx (some p) (some value) =
      publish_and_settle mux.cfg.publish_after_ack mux ctx value p
  finish mux ctx none value = settle_processed mux
  finish mux ctx (some p) none = settle_processed mux

  abbrev pub after_invoke :
      Mux sdk S A → Context → Option (Publisher sdk S) → Reply → M sdk S (Unit {0})
  after_invoke mux ctx p (value, some e) = do
    msg ← get_msg
    fail mux.cfg (classify mux.cfg msg e) (unwrap_failure e)
  after_invoke mux ctx p (value, none) = finish mux ctx p value

  abbrev pub after_decode : Mux sdk S A → Route sdk S A → Result A → M sdk S (Unit {0})
  after_decode mux rt (err e) = fail mux.cfg (some decode) e
  after_decode mux rt (ok payload) = do
    msg ← get_msg
    new_store
    reply ← invoke mux rt (handler_context msg rt.publisher) payload
    after_invoke mux (handler_context msg rt.publisher) rt.publisher reply

  unfoldable pub process_and_handle : Mux sdk S A → Route sdk S A → M sdk S (Unit {0})
  unfolding fail settle invoke classify classify_publish publish_result unwrap_failure
  process_and_handle mux rt = do
    msg ← get_msg
    decoded ← call (rt.decode (sdk.content msg.event))
    after_decode mux rt decoded

  -- warnNoDeliveryCount.Do
  unfoldable pub warn_no_delivery_count : Mux sdk S A → World sdk S → World sdk S
  unfolding delivery_count
  warn_no_delivery_count mux w =
      if ltb 0 mux.cfg.max_retries && not (is_some (delivery_count w.msg)) && not w.warned
      then record w { warned = true; trace = logged no_delivery_count ∷ w.trace }
      else w

  abbrev pub route_message : Mux sdk S A → Option (Route sdk S A) → M sdk S (Unit {0})
  route_message mux none = handle_no_route_found mux
  route_message mux (some rt) = process_and_handle mux rt

  abbrev pub dispatch : Mux sdk S A → Option Err → M sdk S (Unit {0})
  dispatch mux (some e) = fail mux.cfg (some decode) e
  dispatch mux none = do matching ← find_matching_route mux.routes; route_message mux matching

  -- The body of handle, without its deferred recover.
  unfoldable pub handle_body : Mux sdk S A → M sdk S (Unit {0})
  unfolding mint_correlation_id warn_no_delivery_count fail find_matching_route
      handle_no_route_found process_and_handle
  handle_body mux w =
      let w' = warn_no_delivery_count mux (mint_correlation_id w) in
      dispatch mux w'.msg.decode_err w'

  unfoldable pub handle : Mux sdk S A → M sdk S (Unit {0})
  unfolding handle_body recover_outside_handler
  handle mux = recovering (handle_body mux) (recover_outside_handler mux.cfg)
