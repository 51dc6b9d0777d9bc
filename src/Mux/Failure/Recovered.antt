-- ===== src/Mux/Failure/Recovered.antt =====
-- What failing leaves behind with a dead-letter publisher that cannot panic, and recoverOutsideHandler.
use event_driven.Prelude.{
  Bytes, ◌≡◌, refl, arith, true, false, inl, inr, Option, some, none, Called, returned, panicked,
  is_panic, Bool-cases, ap,
}
use event_driven.Error.{Err}
use event_driven.Event.CloudEvents.{CloudEvents}
use event_driven.Event.DeadLetter.{DeadLetterReason, panic}
use event_driven.Event.Message.{Context, Delivery}
use event_driven.Mux.Types.{Config, Publisher}
use event_driven.Mux.Effects.{World, Target, continue, on_panic, emit, logged, panic_while_settling}
use event_driven.Mux.Failure.{
  publish_event, publish_dead_letter, after_dead_letter, dead_letter_or_discard, fail, is_pending,
  panic_cause, recover_outside_handler,
}
use event_driven.Mux.Failure.Settled.{
  nackable, IsFresh, IsSettled, settle-msg, nack-IsSettled, give_up-IsSettled,
  after_dead_letter-IsSettled, publish_dead_letter-msg,
}

module _ {sdk : CloudEvents} {S : Type 0} where
  -- A publisher that never panics.
  abbrev pub CannotPanic : Publisher sdk S → Type 0
  CannotPanic p = (ctx : Context) (ce : sdk.Event) (s : S) → is_panic (p.publish ctx ce s).0 ≡ false

  abbrev pub IsSafeTopic : Option (Publisher sdk S) → Type 0
  IsSafeTopic none = Unit
  IsSafeTopic (some p) = CannotPanic p

  publish_event-returns :
      (cfg : Config sdk S) (t : Target) (p : Publisher sdk S) (ctx : Context) (ce : sdk.Event)
      (w : World sdk S)
      → CannotPanic p
      → is_panic (publish_event cfg t p ctx ce w).0 ≡ false
  unfolding publish_event
  publish_event-returns cfg t p ctx ce w h = ground (arith, h ctx ce w.outside)

  publish_dead_letter-returns :
      (cfg : Config sdk S) (p : Publisher sdk S) (reason : DeadLetterReason) (e : Err)
      (w : World sdk S)
      → CannotPanic p
      → is_panic (publish_dead_letter cfg p reason e w).0 ≡ false
  unfolding publish_dead_letter
  publish_dead_letter-returns cfg p reason e w h = publish_event-returns cfg _ p _ _ w h

  after_copy-IsSettled :
      (cfg : Config sdk S) (d : Delivery S) (reason : DeadLetterReason) (e : Err)
      (x : Called (Option Err) × World sdk S)
      → IsFresh d x.1.msg
      → is_panic x.0 ≡ false
      → IsSettled cfg d (continue (after_dead_letter cfg reason e) x).1.msg
  after_copy-IsSettled cfg d reason e (returned pub_err, w) f h =
      after_dead_letter-IsSettled cfg d reason e pub_err w f
  after_copy-IsSettled cfg d reason e (panicked v, w) f h = cc

  dead_letter_or_discard-IsSettled :
      (cfg : Config sdk S) (d : Delivery S) (topic : Option (Publisher sdk S))
      (reason : DeadLetterReason) (e : Err) (w : World sdk S)
      → IsFresh d w.msg
      → IsSafeTopic topic
      → IsSettled cfg d (dead_letter_or_discard cfg topic reason e w).1.msg
  dead_letter_or_discard-IsSettled cfg d none reason e w f h =
      give_up-IsSettled cfg d reason e _ w f
  dead_letter_or_discard-IsSettled cfg d (some p) reason e w f h =
      after_copy-IsSettled cfg d reason e (publish_dead_letter cfg p reason e w)
        (rw publish_dead_letter-msg f) (publish_dead_letter-returns cfg p reason e w h)

  -- With a publisher of dead letters that does not panic, every failure settles the message.
  pub fail-IsSettled :
      (cfg : Config sdk S) (d : Delivery S) (reason : Option DeadLetterReason) (e : Err)
      (w : World sdk S)
      → IsFresh d w.msg
      → (reason ≡ none → nackable cfg d ≡ true)
      → IsSafeTopic cfg.dead_letter
      → IsSettled cfg d (fail cfg reason e w).1.msg
  unfolding fail
  fail-IsSettled cfg d none e w f h safe =
      rw settle-msg (nack-IsSettled cfg d e w.msg w.outside f (h refl))
  fail-IsSettled cfg d (some reason) e w f h safe =
      dead_letter_or_discard-IsSettled cfg d cfg.dead_letter reason e w f safe

  -- recoverOutsideHandler ends normally whatever it meets.
  recovered-returns :
      (x : Called (Unit {0}) × World sdk S)
      → (on_panic (λ _. emit (logged panic_while_settling)) x).0 ≡ returned tt
  recovered-returns (returned a, w) = refl
  recovered-returns (panicked v, w) = refl

  pub recovered-msg :
      (x : Called (Unit {0}) × World sdk S)
      → (on_panic (λ _. emit (logged panic_while_settling)) x).1.msg ≡ x.1.msg
  recovered-msg (returned a, w) = refl
  recovered-msg (panicked v, w) = refl

  pub recover_outside_handler-returns :
      (cfg : Config sdk S) (v : Bytes) (w : World sdk S)
      → (recover_outside_handler cfg v w).0 ≡ returned tt
  unfolding recover_outside_handler
  recover_outside_handler-returns cfg v w = elim (Bool-cases (is_pending w.msg.outcome)) [
    | inl waiting ↦ rw waiting (recovered-returns (fail cfg (some panic) (panic_cause v) w))
    | inr over ↦ rw over
  ]

  pub recover_outside_handler-IsSettled :
      (cfg : Config sdk S) (d : Delivery S) (v : Bytes) (w : World sdk S)
      → IsFresh d w.msg
      → IsSafeTopic cfg.dead_letter
      → IsSettled cfg d (recover_outside_handler cfg v w).1.msg
  unfolding recover_outside_handler
  recover_outside_handler-IsSettled cfg d v w f safe =
      rw (ap is_pending f.waiting)
        (rw recovered-msg (fail-IsSettled cfg d (some panic) (panic_cause v) w f (λ h. cc) safe))

  pub recover_outside_handler_settled :
      (cfg : Config sdk S) (v : Bytes) (w : World sdk S)
      → is_pending w.msg.outcome ≡ false
      → (recover_outside_handler cfg v w).1.msg ≡ w.msg
  unfolding recover_outside_handler
  recover_outside_handler_settled cfg v w h = rw h
