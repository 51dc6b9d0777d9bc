-- ===== src/Mux/Handle/Acks.antt =====
-- A message is acknowledged only after its handler, and all before it, succeeded.
use event_driven.Prelude.{
  Bool, true, false, [], ◌∷◌, Bytes, ◌≡◌, refl, ap, ◌∙◌, arith, Option, some, none, Called,
  returned, panicked,
}
use event_driven.Error.{Err, sentinel, no_route, Result, ok, err}
use event_driven.Event.CloudEvents.{CloudEvents}
use event_driven.Event.DeadLetter.{decode}
use event_driven.Event.Message.{Context, pending, acked, discarded, discard}
use event_driven.Mux.Types.{Publisher, Mux, Route, Reply, Local}
use event_driven.Mux.Effects.{
  World, M, call, continue, on_panic, emit, ◌>>◌, handler_called, preflight_called,
}
use event_driven.Mux.Handle.{
  after_publish, publish_and_settle, finish, invoke, find_matching_route, after_invoke,
  after_decode, process_and_handle, handle_no_route_found, route_message, dispatch, handle_body,
  handle, handler_context, put_local, after_preflight, run_handler, recovered_reply,
  mint_correlation_id, warn_no_delivery_count,
}
use event_driven.Mux.Handle.Settles.{handle_body-IsPost}
use event_driven.Mux.Handle.Untouched.{publish_result-msg, invoke-msg, find_matching_route-msg}
use event_driven.Mux.ResultEvent.{publish_result}
use event_driven.Mux.Failure.Acks.{
  continue-acked, settle-ne-acked, discard-ne-acked, recovering-acked, fail-ne-acked, IsOpen,
}

module _ {sdk : CloudEvents} {S A : Type 0} (mux : Mux sdk S A) where
  -- The state in which a handler of this route is invoked, once the payload is decoded from w.
  abbrev pub invoked_in : Route sdk S A → World sdk S → World sdk S
  invoked_in rt w = record w {
    outside = (rt.decode (sdk.content w.msg.event) w.outside).1;
    store = [];
  }

  -- The state after the filters have run.
  abbrev pub filtered : World sdk S → World sdk S
  filtered w = (find_matching_route mux.routes w).1

  -- The result event went out before the acknowledgement, if there was one to publish and it was to
  -- be published first.
  abbrev pub IsPublished : Context → Option (Publisher sdk S) → Option Bytes → World sdk S → Type 0
  IsPublished ctx (some p) (some v) w =
      mux.cfg.publish_after_ack ≡ false → (publish_result mux ctx v p w).0 ≡ returned none
  IsPublished ctx none value w = Unit
  IsPublished ctx (some p) none w = Unit

  -- The handler's part, from the state after decoding.
  abbrev pub invocation : Route sdk S A → A → World sdk S → Called Reply × World sdk S
  invocation rt payload w =
      invoke mux rt (handler_context w.msg rt.publisher) payload (record w { store = [] })

  -- The preflight chain on the payload, with an empty store, once the payload is decoded from w.
  abbrev pub preflight_run : Route sdk S A → A → World sdk S → Called Reply × Local S
  preflight_run rt payload w =
      mux.preflight (handler_context w.msg rt.publisher) payload
        (record { outside = (rt.decode (sdk.content w.msg.event) w.outside).1; store = [] })

  -- The handler chain of the route after it, in the state that it leaves.
  abbrev pub handler_run : Route sdk S A → A → World sdk S → Called Reply × Local S
  handler_run rt payload w =
      rt.chained (handler_context w.msg rt.publisher) payload (preflight_run rt payload w).1

  -- What happened to a message that came to the dispatch in this state: it was decodable, a route matched, its payload
  -- was decoded, the preflight chain and the handler chain returned without an error, and the result
  -- was published.
  pub record IsProcessed (w : World sdk S) : Type 0 where
    pub decodable : w.msg.decode_err ≡ none
    pub rt : Route sdk S A
    pub payload : A
    pub value : Option Bytes
    pub found : (find_matching_route mux.routes w).0 ≡ returned (some rt)
    pub decoded :
        (rt.decode (sdk.content (filtered w).msg.event) (filtered w).outside).0
        ≡ returned (ok payload)
    pub checked : Option Bytes
    pub preflighted : (preflight_run rt payload (filtered w)).0 ≡ returned (checked, none)
    pub handled : (handler_run rt payload (filtered w)).0 ≡ returned (value, none)
    pub published :
        IsPublished
          (handler_context (filtered w).msg rt.publisher)
          rt.publisher
          value
          (invoke mux rt
            (handler_context (filtered w).msg rt.publisher)
            payload
            (invoked_in rt (filtered w))).1

  run-succeeded :
      (w : World sdk S) (x : Called Reply × Local S) (value : Option Bytes)
      → (on_panic recovered_reply (put_local w x)).0 ≡ returned (value, none)
      → x.0 ≡ returned (value, none)
  run-succeeded w (returned r, l) value h = h
  run-succeeded w (panicked v, l) value h = cc

  preflight-succeeded :
      (rest : M sdk S Reply) (w : World sdk S) (x : Called Reply × Local S) (value : Option Bytes)
      → (on_panic recovered_reply (continue (after_preflight rest) (put_local w x))).0
        ≡ returned (value, none)
      → (checked : Option Bytes) × (x.0 ≡ returned (checked, none))
        × ((on_panic recovered_reply (rest (put_local w x).1)).0 ≡ returned (value, none))
  preflight-succeeded rest w (returned (v, none), l) value h = (v, refl, h)
  preflight-succeeded rest w (returned (v, some e), l) value h = cc
  preflight-succeeded rest w (panicked v, l) value h = cc

  -- invoke succeeds only where both chains returned without an error.
  invoke-succeeded :
      (rt : Route sdk S A) (payload : A) (w : World sdk S) (value : Option Bytes)
      → (invoke mux rt (handler_context w.msg rt.publisher) payload (invoked_in rt w)).0
        ≡ returned (value, none)
      → (checked : Option Bytes) × ((preflight_run rt payload w).0 ≡ returned (checked, none))
        × ((handler_run rt payload w).0 ≡ returned (value, none))
  unfolding invoke
  invoke-succeeded rt payload w value h =
      let ctx = handler_context w.msg rt.publisher in
      let before : World sdk S = record (invoked_in rt w) { trace = preflight_called ∷ w.trace } in
      let after : World sdk S = record ((put_local before (preflight_run rt payload w)).1) {
        trace = handler_called ∷ preflight_called ∷ w.trace;
      } in
      let (checked, passed, rest) =
        preflight-succeeded (do emit handler_called; run_handler rt.chained ctx payload) before
          (preflight_run rt payload w) value h in
      (checked, passed, run-succeeded after (handler_run rt payload w) value rest)

  after_publish-acked :
      (e : Option Err) (w : World sdk S)
      → IsOpen w
      → (after_publish mux e w).1.msg.outcome ≡ acked
      → e ≡ none
  after_publish-acked none w h k = refl
  after_publish-acked (some e) w h k = absurd (fail-ne-acked mux.cfg _ _ w h k)

  publish_and_settle-acked :
      (early : Bool) (ctx : Context) (v : Bytes) (p : Publisher sdk S) (w : World sdk S)
      → IsOpen w
      → (publish_and_settle early mux ctx v p w).1.msg.outcome ≡ acked
      → early ≡ false
      → (publish_result mux ctx v p w).0 ≡ returned none
  publish_and_settle-acked true ctx v p w h k q = cc
  publish_and_settle-acked false ctx v p w h k q =
      let x = publish_result mux ctx v p w in
      let open_ : IsOpen x.1 = rw publish_result-msg h in
      let step = continue-acked (after_publish mux) x open_.1 k in
      step.1 ∙ ap returned (after_publish-acked step.0 x.1 open_ step.2)

  finish-acked :
      (ctx : Context) (p : Option (Publisher sdk S)) (value : Option Bytes) (w : World sdk S)
      → IsOpen w
      → (finish mux ctx p value w).1.msg.outcome ≡ acked
      → IsPublished ctx p value w
  finish-acked ctx (some p) (some v) w h k =
      publish_and_settle-acked mux.cfg.publish_after_ack ctx v p w h k
  finish-acked ctx none value w h k = tt
  finish-acked ctx (some p) none w h k = tt

  after_invoke-acked :
      (ctx : Context) (p : Option (Publisher sdk S)) (r : Reply) (w : World sdk S)
      → IsOpen w
      → (after_invoke mux ctx p r w).1.msg.outcome ≡ acked
      → (value : Option Bytes) × (r ≡ (value, none)) × IsPublished ctx p value w
  after_invoke-acked ctx p (value, some e) w h k = absurd (fail-ne-acked mux.cfg _ _ w h k)
  after_invoke-acked ctx p (value, none) w h k = (value, refl, finish-acked ctx p value w h k)

  after_decode-acked :
      (rt : Route sdk S A) (r : Result A) (w : World sdk S)
      → IsOpen w
      → (after_decode mux rt r w).1.msg.outcome ≡ acked
      → (payload : A) × (value : Option Bytes) × (r ≡ ok payload)
        × ((invocation rt payload w).0 ≡ returned (value, none))
        × IsPublished
            (handler_context w.msg rt.publisher)
            rt.publisher
            value
            (invocation rt payload w).1
  after_decode-acked rt (err e) w h k = absurd (fail-ne-acked mux.cfg (some decode) e w h k)
  after_decode-acked rt (ok payload) w h k =
      let ctx = handler_context w.msg rt.publisher in
      let x = invoke mux rt ctx payload (record w { store = [] }) in
      let open_ : IsOpen x.1 = rw invoke-msg h in
      let step = continue-acked (after_invoke mux ctx rt.publisher) x open_.1 k in
      let reply = after_invoke-acked ctx rt.publisher step.0 x.1 open_ step.2 in
      (payload, reply.0, refl, step.1 ∙ ap returned reply.1, reply.2)

  route_message-acked :
      (r : Option (Route sdk S A)) (w : World sdk S)
      → IsOpen w
      → (route_message mux r w).1.msg.outcome ≡ acked
      → (rt : Route sdk S A) × (payload : A) × (value : Option Bytes) × (r ≡ some rt)
        × ((rt.decode (sdk.content w.msg.event) w.outside).0 ≡ returned (ok payload))
        × ((invoke mux rt (handler_context w.msg rt.publisher) payload (invoked_in rt w)).0
            ≡ returned (value, none))
        × IsPublished
            (handler_context w.msg rt.publisher)
            rt.publisher
            value
            (invoke mux rt (handler_context w.msg rt.publisher) payload (invoked_in rt w)).1
  unfolding process_and_handle handle_no_route_found
  route_message-acked none w h k = absurd (
      settle-ne-acked mux.cfg discarded none (discard (sentinel no_route)) _
        (discard-ne-acked _ w.msg w.outside h.0) k)
  route_message-acked (some rt) w h k =
      let x = call (rt.decode (sdk.content w.msg.event)) w in
      let step = continue-acked (after_decode mux rt) x h.1 k in
      let done = after_decode-acked rt step.0 x.1 h step.2 in
      (rt, done.0, done.1, refl, step.1 ∙ ap returned done.2, done.3, done.4)

  dispatch-acked :
      (e : Option Err) (w : World sdk S)
      → IsOpen w
      → w.msg.decode_err ≡ e
      → (dispatch mux e w).1.msg.outcome ≡ acked
      → (e ≡ none) × IsProcessed w
  dispatch-acked (some e) w h decodable k = absurd (fail-ne-acked mux.cfg (some decode) e w h k)
  dispatch-acked none w h decodable k =
      let x = find_matching_route mux.routes w in
      let same : x.1.msg ≡ w.msg = find_matching_route-msg mux.routes w in
      let step = continue-acked (route_message mux) x (rw same h.1) k in
      let done = route_message-acked step.0 x.1 (rw same h) step.2 in
      let runs = invoke-succeeded done.0 done.1 x.1 done.2 done.5 in
      (
        refl,
        record {
          decodable = decodable;
          rt = done.0;
          payload = done.1;
          value = done.2;
          found = step.1 ∙ ap returned done.3;
          decoded = done.4;
          checked = runs.0;
          preflighted = runs.1;
          handled = runs.2;
          published = done.6;
        },
      )

  prepared-IsOpen :
      (w : World sdk S) → IsOpen w → IsOpen (warn_no_delivery_count mux (mint_correlation_id w))
  unfolding mint_correlation_id warn_no_delivery_count
  prepared-IsOpen w h = ground arith

  -- A message that arrives undecided and leaves handle acknowledged was decodable, matched a route
  -- whose decoder accepted its payload, and the preflight chain and then the handler chain of that
  -- route returned without an error and without a panic; and unless results are to be published
  -- after the acknowledgement, the result that the handler gave to a route with a publisher was
  -- published without an error.
  pub handle-IsProcessed :
      (w : World sdk S)
      → w.msg.decided ≡ false
      → w.msg.outcome ≡ pending
      → (handle mux w).1.msg.outcome ≡ acked
      → IsProcessed (warn_no_delivery_count mux (mint_correlation_id w))
  unfolding handle handle_body
  handle-IsProcessed w d o k =
      (dispatch-acked _ (warn_no_delivery_count mux (mint_correlation_id w))
        (prepared-IsOpen w (d, o)) refl
        (recovering-acked mux.cfg w.msg.delivery (handle_body mux w)
          (handle_body-IsPost mux w.msg.delivery w (record { open_ = d; waiting = o; same = refl }))
          k)).1
