-- ===== src/Mux/Failure/Acks.antt =====
-- No failure of a message acknowledges it, and a deferred recover acknowledges nothing.
use event_driven.Prelude.{
  Bytes, ◌≡◌, ◌≢◌, refl, sym, ap, ◌∙◌, arith, false, inl, inr, Option, some, none, Called, returned,
  panicked, Bool-cases, not, ◌||◌, if_true,
}
use event_driven.Error.{Err, is_non_retryable}
use event_driven.Event.CloudEvents.{CloudEvents}
use event_driven.Event.DeadLetter.{DeadLetterReason, panic}
use event_driven.Event.Message.{
  Delivery, Message, pending, acked, nacked, discarded, nack, discard, Outcome,
}
use event_driven.Mux.Types.{Config, Publisher}
use event_driven.Mux.Effects.{
  M, World, continue, on_panic, emit, logged, panic_while_settling, panic_after_decision, Log,
}
use event_driven.Mux.Failure.{
  Decision, settle, give_up, publish_dead_letter, after_dead_letter, dead_letter_or_discard, fail,
  panic_cause, is_pending, redelivery_bounded, recover_outside_handler,
}
use event_driven.Mux.Failure.Settled.{settle-msg, publish_dead_letter-msg, IsPost}
use event_driven.Mux.Failure.Recovered.{recovered-msg, recover_outside_handler_settled}

module _ {sdk : CloudEvents} {S A B : Type 0} where
  -- A step that follows others acknowledges only if they returned.
  pub continue-acked :
      (f : A → M sdk S B) (x : Called A × World sdk S)
      → x.1.msg.outcome ≡ pending
      → (continue f x).1.msg.outcome ≡ acked
      → (a : A) × (x.0 ≡ returned a) × ((f a x.1).1.msg.outcome ≡ acked)
  continue-acked f (returned a, w) open_ h = (a, refl, h)
  continue-acked f (panicked v, w) open_ h = cc

module _ {sdk : CloudEvents} {S : Type 0} where
  abbrev pub IsOpen : World sdk S → Type 0
  IsOpen w = (w.msg.decided ≡ false) × (w.msg.outcome ≡ pending)

  abbrev pub NotAcked : {R : Type 0} → Called R × World sdk S → Type 0
  NotAcked x = x.1.msg.outcome ≢ acked

  nack-ne-acked :
      (e : Err) (m : Message sdk S) (s : S) → m.decided ≡ false → (nack e m s).1.outcome ≢ acked
  unfolding nack
  nack-ne-acked e m s h = ground arith

  pub discard-ne-acked :
      (e : Err) (m : Message sdk S) (s : S) → m.decided ≡ false → (discard e m s).1.outcome ≢ acked
  unfolding discard
  discard-ne-acked e m s h = ground arith

  pub settle-ne-acked :
      (cfg : Config sdk S) (o : Outcome) (reason : Option DeadLetterReason) (d : Decision sdk S)
      (w : World sdk S)
      → (d w.msg w.outside).1.outcome ≢ acked
      → NotAcked (settle cfg o reason d w)
  settle-ne-acked cfg o reason d w h =
      λ k. h (ap (λ (m : Message sdk S). m.outcome) (sym (settle-msg cfg o reason d w)) ∙ k)

  give_up-ne-acked :
      (cfg : Config sdk S) (reason : DeadLetterReason) (e : Err) (log : Log) (w : World sdk S)
      → w.msg.decided ≡ false
      → NotAcked (give_up cfg reason e log w)
  unfolding give_up
  give_up-ne-acked cfg reason e log w h =
      settle-ne-acked cfg discarded _ (discard e) _ (discard-ne-acked e w.msg w.outside h)

  after_dead_letter-ne-acked :
      (cfg : Config sdk S) (reason : DeadLetterReason) (e : Err) (pub_err : Option Err)
      (w : World sdk S)
      → w.msg.decided ≡ false
      → NotAcked (after_dead_letter cfg reason e pub_err w)
  unfolding after_dead_letter
  after_dead_letter-ne-acked cfg reason e none w h = give_up-ne-acked cfg reason e _ w h
  after_dead_letter-ne-acked cfg reason e (some pub_err) w h =
      elim (Bool-cases (is_non_retryable pub_err || not (redelivery_bounded cfg w.msg))) [
        | inl lost ↦ rw lost (give_up-ne-acked cfg reason e _ w h)
        | inr again ↦
            rw again
              (settle-ne-acked cfg nacked none (nack _) _ (nack-ne-acked _ w.msg w.outside h))
      ]

  after_copy-ne-acked :
      (cfg : Config sdk S) (reason : DeadLetterReason) (e : Err)
      (x : Called (Option Err) × World sdk S)
      → IsOpen x.1
      → NotAcked (continue (after_dead_letter cfg reason e) x)
  after_copy-ne-acked cfg reason e (returned pub_err, w) h =
      after_dead_letter-ne-acked cfg reason e pub_err w h.0
  after_copy-ne-acked cfg reason e (panicked v, w) h = λ k. cc

  dead_letter_or_discard-ne-acked :
      (cfg : Config sdk S) (topic : Option (Publisher sdk S)) (reason : DeadLetterReason) (e : Err)
      (w : World sdk S)
      → IsOpen w
      → NotAcked (dead_letter_or_discard cfg topic reason e w)
  dead_letter_or_discard-ne-acked cfg none reason e w h = give_up-ne-acked cfg reason e _ w h.0
  dead_letter_or_discard-ne-acked cfg (some p) reason e w h =
      after_copy-ne-acked cfg reason e (publish_dead_letter cfg p reason e w)
        (rw publish_dead_letter-msg h)

  pub fail-ne-acked :
      (cfg : Config sdk S) (reason : Option DeadLetterReason) (e : Err) (w : World sdk S)
      → IsOpen w
      → NotAcked (fail cfg reason e w)
  unfolding fail
  fail-ne-acked cfg none e w h =
      settle-ne-acked cfg nacked none (nack e) _ (nack-ne-acked e w.msg w.outside h.0)
  fail-ne-acked cfg (some reason) e w h =
      dead_letter_or_discard-ne-acked cfg cfg.dead_letter reason e w h

  recover-ne-acked :
      (cfg : Config sdk S) (v : Bytes) (w : World sdk S)
      → IsOpen w
      → NotAcked (recover_outside_handler cfg v w)
  unfolding recover_outside_handler
  recover-ne-acked cfg v w h =
      if_true (λ (f : M sdk S (Unit {0})). NotAcked (f w)) (is_pending w.msg.outcome)
        (λ w'.
          on_panic (λ _. emit (logged panic_while_settling))
            (fail cfg (some panic) (panic_cause v) w'))
        (emit (logged panic_after_decision)) (rw h.1 refl)
        (λ k. fail-ne-acked cfg (some panic) (panic_cause v) w h (
          ap (λ (m : Message sdk S). m.outcome)
            (sym (recovered-msg (fail cfg (some panic) (panic_cause v) w)))
          ∙ k))

  -- The deferred recover acknowledges nothing.
  pub recovering-acked :
      (cfg : Config sdk S) (d : Delivery S) (x : Called (Unit {0}) × World sdk S)
      → IsPost cfg d x
      → (on_panic (recover_outside_handler cfg) x).1.msg.outcome ≡ acked
      → x.1.msg.outcome ≡ acked
  recovering-acked cfg d (returned a, w) h k = k
  recovering-acked cfg d (panicked v, w) (inl settled) k =
      ap (λ (m : Message sdk S). m.outcome)
        (sym (recover_outside_handler_settled cfg v w settled.known))
      ∙ k
  recovering-acked cfg d (panicked v, w) (inr (p, fresh)) k =
      absurd (recover-ne-acked cfg v w (fresh.open_, fresh.waiting) k)
