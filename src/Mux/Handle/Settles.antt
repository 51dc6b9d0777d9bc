-- ===== src/Mux/Handle/Settles.antt =====
-- Every message that the router handles ends settled, and handle itself never panics.
use event_driven.Prelude.{
  Bytes, ◌≡◌, refl, arith, true, false, Bool, inl, inr, Option, some, none, [], Called, returned,
  panicked, ◌∙◌,
}
use event_driven.Error.{Err, Result, ok, err}
use event_driven.Event.CloudEvents.{CloudEvents}
use event_driven.Event.Message.{Context, Delivery, pending, acked, ack}
use event_driven.Mux.Types.{Config, Publisher, Mux, Route, Reply}
use event_driven.Mux.Effects.{M, World, continue, on_panic, call, emit, logged, message_processed}
use event_driven.Mux.Failure.{settle, recover_outside_handler}
use event_driven.Mux.Failure.Settled.{
  IsFresh, IsSettled, IsPost, settle-msg, ack-IsSettled, discard-IsSettled, classify-nackable,
  classify_publish-nackable, fail-IsPost,
}
use event_driven.Mux.Failure.Recovered.{
  IsSafeTopic, recover_outside_handler-returns, recover_outside_handler_settled,
  recover_outside_handler-IsSettled,
}
use event_driven.Mux.ResultEvent.{publish_result}
use event_driven.Mux.Handle.Untouched.{
  continue-msg, publish_result-msg, invoke-msg, find_matching_route-msg,
}
use event_driven.Mux.Handle.{
  invoke, publish_lost, publish_and_settle, find_matching_route, handle_no_route_found,
  settle_processed, after_publish, finish, after_invoke, after_decode, process_and_handle,
  mint_correlation_id, warn_no_delivery_count, route_message, dispatch, handle_body, handle,
  log_lost, handler_context,
}

module _ {sdk : CloudEvents} {S A B : Type 0} where
  continue-IsPost :
      (cfg : Config sdk S) (d : Delivery S) (f : A → M sdk S B) (x : Called A × World sdk S)
      → IsFresh d x.1.msg
      → ((a : A) (w : World sdk S) → IsFresh d w.msg → IsPost cfg d (f a w))
      → IsPost cfg d (continue f x)
  continue-IsPost cfg d f (returned a, w) fresh h = h a w fresh
  continue-IsPost cfg d f (panicked v, w) fresh h = inr (refl, fresh)

  continue-IsSettled :
      (cfg : Config sdk S) (d : Delivery S) (f : A → M sdk S B) (x : Called A × World sdk S)
      → IsSettled cfg d x.1.msg
      → ((a : A) (w : World sdk S) → (f a w).1.msg ≡ w.msg)
      → IsSettled cfg d (continue f x).1.msg
  continue-IsSettled cfg d f (returned a, w) settled h = rw (h a w) settled
  continue-IsSettled cfg d f (panicked v, w) settled h = settled

module _ {sdk : CloudEvents} {S A : Type 0} where
  module _ (mux : Mux sdk S A) (d : Delivery S) where
    settle_processed-IsSettled :
        (w : World sdk S) → IsFresh d w.msg → IsSettled mux.cfg d (settle_processed mux w).1.msg
    settle_processed-IsSettled w f =
        continue-IsSettled mux.cfg d (λ _. emit (logged message_processed))
          (settle mux.cfg acked none ack w)
          (rw settle-msg (ack-IsSettled mux.cfg d w.msg w.outside f)) (λ _ w'. refl)

    log_lost-msg : (e : Option Err) (w : World sdk S) → (log_lost e w).1.msg ≡ w.msg
    log_lost-msg none w = refl
    log_lost-msg (some e) w = refl

    after_publish-IsPost :
        (e : Option Err) (w : World sdk S)
        → IsFresh d w.msg
        → IsPost mux.cfg d (after_publish mux e w)
    after_publish-IsPost none w f = inl (settle_processed-IsSettled w f)
    after_publish-IsPost (some e) w f =
        fail-IsPost mux.cfg d _ _ w f (classify_publish-nackable mux.cfg d w.msg e f)

    publish_lost-msg :
        (ctx : Context) (value : Bytes) (p : Publisher sdk S) (w : World sdk S)
        → (publish_lost mux ctx value p w).1.msg ≡ w.msg
    publish_lost-msg ctx value p w =
        continue-msg log_lost (publish_result mux (record ctx { detached = true }) value p w)
          log_lost-msg
        ∙ publish_result-msg mux (record ctx { detached = true }) value p w

    publish_and_settle-IsPost :
        (early : Bool) (ctx : Context) (value : Bytes) (p : Publisher sdk S) (w : World sdk S)
        → IsFresh d w.msg
        → IsPost mux.cfg d (publish_and_settle early mux ctx value p w)
    publish_and_settle-IsPost true ctx value p w f = inl (
        continue-IsSettled mux.cfg d (λ _. publish_lost mux ctx value p) (settle_processed mux w)
          (settle_processed-IsSettled w f) (λ _. publish_lost-msg ctx value p))
    publish_and_settle-IsPost false ctx value p w f =
        continue-IsPost mux.cfg d (after_publish mux) (publish_result mux ctx value p w)
          (rw publish_result-msg f) after_publish-IsPost

    finish-IsPost :
        (ctx : Context) (p : Option (Publisher sdk S)) (value : Option Bytes) (w : World sdk S)
        → IsFresh d w.msg
        → IsPost mux.cfg d (finish mux ctx p value w)
    finish-IsPost ctx (some p) (some value) w f =
        publish_and_settle-IsPost mux.cfg.publish_after_ack ctx value p w f
    finish-IsPost ctx none value w f = inl (settle_processed-IsSettled w f)
    finish-IsPost ctx (some p) none w f = inl (settle_processed-IsSettled w f)

    after_invoke-IsPost :
        (ctx : Context) (p : Option (Publisher sdk S)) (r : Reply) (w : World sdk S)
        → IsFresh d w.msg
        → IsPost mux.cfg d (after_invoke mux ctx p r w)
    after_invoke-IsPost ctx p (value, some e) w f =
        fail-IsPost mux.cfg d _ _ w f (classify-nackable mux.cfg d w.msg e f)
    after_invoke-IsPost ctx p (value, none) w f = finish-IsPost ctx p value w f

    after_decode-IsPost :
        (rt : Route sdk S A) (r : Result A) (w : World sdk S)
        → IsFresh d w.msg
        → IsPost mux.cfg d (after_decode mux rt r w)
    after_decode-IsPost rt (err e) w f = fail-IsPost mux.cfg d _ e w f (λ h. cc)
    after_decode-IsPost rt (ok payload) w f =
        let ctx = handler_context w.msg rt.publisher in
        let w' : World sdk S = record w { store = [] } in
        continue-IsPost mux.cfg d (after_invoke mux ctx rt.publisher) (invoke mux rt ctx payload w')
          (rw invoke-msg f) (after_invoke-IsPost ctx rt.publisher)

    route_message-IsPost :
        (r : Option (Route sdk S A)) (w : World sdk S)
        → IsFresh d w.msg
        → IsPost mux.cfg d (route_message mux r w)
    unfolding process_and_handle handle_no_route_found
    route_message-IsPost none w f =
        inl (rw settle-msg (discard-IsSettled mux.cfg d _ w.msg w.outside f))
    route_message-IsPost (some rt) w f =
        continue-IsPost mux.cfg d (after_decode mux rt)
          (call (rt.decode (sdk.content w.msg.event)) w) f (after_decode-IsPost rt)

    dispatch-IsPost :
        (e : Option Err) (w : World sdk S) → IsFresh d w.msg → IsPost mux.cfg d (dispatch mux e w)
    dispatch-IsPost (some e) w f = fail-IsPost mux.cfg d _ e w f (λ h. cc)
    dispatch-IsPost none w f =
        continue-IsPost mux.cfg d (route_message mux) (find_matching_route mux.routes w)
          (rw find_matching_route-msg f) route_message-IsPost

    mint_correlation_id-IsFresh :
        (w : World sdk S) → IsFresh d w.msg → IsFresh d (mint_correlation_id w).msg
    unfolding mint_correlation_id
    mint_correlation_id-IsFresh w f = ground arith

    warn_no_delivery_count-IsFresh :
        (w : World sdk S) → IsFresh d w.msg → IsFresh d (warn_no_delivery_count mux w).msg
    unfolding warn_no_delivery_count
    warn_no_delivery_count-IsFresh w f = ground arith

    pub handle_body-IsPost :
        (w : World sdk S) → IsFresh d w.msg → IsPost mux.cfg d (handle_body mux w)
    unfolding handle_body
    handle_body-IsPost w f =
        dispatch-IsPost _ _ (warn_no_delivery_count-IsFresh _ (mint_correlation_id-IsFresh w f))

    recovering-returns :
        (x : Called (Unit {0}) × World sdk S)
        → (on_panic (recover_outside_handler mux.cfg) x).0 ≡ returned tt
    recovering-returns (returned a, w) = refl
    recovering-returns (panicked v, w) = recover_outside_handler-returns mux.cfg v w

    recovering-IsSettled :
        (x : Called (Unit {0}) × World sdk S)
        → IsPost mux.cfg d x
        → IsSafeTopic mux.cfg.dead_letter
        → IsSettled mux.cfg d (on_panic (recover_outside_handler mux.cfg) x).1.msg
    recovering-IsSettled (returned a, w) (inl done) safe = done
    recovering-IsSettled (returned a, w) (inr (h, f)) safe = cc
    recovering-IsSettled (panicked v, w) (inl done) safe =
        rw (recover_outside_handler_settled mux.cfg v w done.known) done
    recovering-IsSettled (panicked v, w) (inr (h, f)) safe =
        recover_outside_handler-IsSettled mux.cfg d v w f safe

module _ {sdk : CloudEvents} {S A : Type 0} (mux : Mux sdk S A) (w : World sdk S) where
  -- handle returns normally for every message, whatever panics in the code that it calls: filters,
  -- decoders, middlewares, handlers, publishers, broker callbacks and observers.
  pub handle-returns : (handle mux w).0 ≡ returned tt
  unfolding handle
  handle-returns = recovering-returns mux w.msg.delivery (handle_body mux w)

  -- A message that arrives undecided leaves handle settled, if the publisher of dead letters (if
  -- there is one) does not panic; and it leaves it nacked only where the transport can redeliver
  -- and the delivery count, where both it and a limit are known, is within Config.MaxRetries.
  pub handle-IsSettled :
      w.msg.decided ≡ false
      → w.msg.outcome ≡ pending
      → IsSafeTopic mux.cfg.dead_letter
      → IsSettled mux.cfg w.msg.delivery (handle mux w).1.msg
  unfolding handle
  handle-IsSettled h k safe =
      recovering-IsSettled mux w.msg.delivery (handle_body mux w)
        (handle_body-IsPost mux w.msg.delivery w (record { open_ = h; waiting = k; same = refl }))
        safe
