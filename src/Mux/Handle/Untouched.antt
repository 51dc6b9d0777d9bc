-- ===== src/Mux/Handle/Untouched.antt =====
-- Steps of handle that leave the message as it is.
use event_driven.Prelude.{
  Bytes, ◌≡◌, refl, arith, true, false, Bool, Option, some, none, List, [], ◌∷◌, Called, returned,
  panicked, ◌∙◌,
}
use event_driven.Error.{Result, ok, err}
use event_driven.Event.CloudEvents.{CloudEvents}
use event_driven.Event.Message.{Context}
use event_driven.Mux.Types.{Publisher, Filter, Mux, Route}
use event_driven.Mux.Effects.{M, World, continue, to_result}
use event_driven.Mux.Failure.{publish_event}
use event_driven.Mux.Failure.Settled.{publish_event-msg}
use event_driven.Mux.ResultEvent.{
  publish_result, send_result, log_hijacked, hijacked, extend_result, reserved_extensions,
}
use event_driven.Mux.Handle.{invoke, matches, choose, find_matching_route}

module _ {sdk : CloudEvents} {S A B : Type 0} where
  pub continue-msg :
      (f : A → M sdk S B) (x : Called A × World sdk S)
      → ((a : A) (w : World sdk S) → (f a w).1.msg ≡ w.msg)
      → (continue f x).1.msg ≡ x.1.msg
  continue-msg f (returned a, w) h = h a w
  continue-msg f (panicked v, w) h = refl

module _ {sdk : CloudEvents} {S : Type 0} where
  matches-msg :
      (f : Option (Filter sdk S)) (ce : sdk.Event) (w : World sdk S)
      → (matches f ce w).1.msg ≡ w.msg
  matches-msg none ce w = refl
  matches-msg (some f) ce w = refl

  log_hijacked-msg : (ks : List Bytes) (w : World sdk S) → (log_hijacked ks w).1.msg ≡ w.msg
  unfolding log_hijacked
  log_hijacked-msg [] w = refl
  log_hijacked-msg (k ∷ ks) w = log_hijacked-msg ks _

module _ {sdk : CloudEvents} {S A : Type 0} where
  pub invoke-msg :
      (mux : Mux sdk S A) (rt : Route sdk S A) (ctx : Context) (payload : A) (w : World sdk S)
      → (invoke mux rt ctx payload w).1.msg ≡ w.msg
  unfolding invoke
  invoke-msg mux rt ctx payload w = ground arith

  send_result-msg :
      (mux : Mux sdk S A) (ctx : Context) (p : Publisher sdk S) (parent : sdk.Event)
      (r : Result sdk.Event) (w : World sdk S)
      → (send_result mux ctx p parent r w).1.msg ≡ w.msg
  send_result-msg mux ctx p parent (err e) w = refl
  send_result-msg mux ctx p parent (ok ce) w =
      let keys = hijacked reserved_extensions w.store in
      let send = λ (_ : Unit {0}).
        publish_event mux.cfg to_result p ctx (extend_result sdk w.store parent ce) in
      continue-msg send (log_hijacked keys w)
        (λ _ w'. publish_event-msg mux.cfg to_result p ctx _ w')
      ∙ log_hijacked-msg keys w

  pub publish_result-msg :
      (mux : Mux sdk S A) (ctx : Context) (value : Bytes) (p : Publisher sdk S) (w : World sdk S)
      → (publish_result mux ctx value p w).1.msg ≡ w.msg
  unfolding publish_result
  publish_result-msg mux ctx value p w = send_result-msg mux ctx p _ _ _

  choose-msg :
      (rt : Route sdk S A) (rest : M sdk S (Option (Route sdk S A))) (found : Bool)
      (w : World sdk S)
      → (rest w).1.msg ≡ w.msg
      → (choose rt rest found w).1.msg ≡ w.msg
  choose-msg rt rest true w h = refl
  choose-msg rt rest false w h = h

  pub find_matching_route-msg :
      (rts : List (Route sdk S A)) (w : World sdk S) → (find_matching_route rts w).1.msg ≡ w.msg
  unfolding find_matching_route
  find_matching_route-msg [] w = refl
  find_matching_route-msg (rt ∷ rts) w =
      continue-msg (choose rt (find_matching_route rts)) (matches rt.filter w.msg.event w)
        (λ found w'.
          choose-msg rt (find_matching_route rts) found w' (find_matching_route-msg rts w'))
      ∙ matches-msg rt.filter w.msg.event w
