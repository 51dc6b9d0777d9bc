-- ===== src/Mux/Failure/Settled.antt =====
-- What settling and failing a message leave behind, unless the dead-letter publisher panics.
use event_driven.Prelude.{
  ◌≡◌, refl, arith, true, false, Bool, not, ◌&&◌, ◌⊎◌, inl, inr, Option, some, none, Called,
  returned, panicked, is_panic, ltb, is_some, Bool-cases, ◌||◌,
}
use event_driven.Error.{Err, is_non_retryable}
use event_driven.Event.CloudEvents.{CloudEvents}
use event_driven.Event.DeadLetter.{DeadLetterReason}
use event_driven.Event.Message.{
  Context, Delivery, Outcome, nacked, pending, Message, ack, nack, discard,
}
use event_driven.Mux.Types.{Config, Publisher}
use event_driven.Mux.Effects.{World, Target, Log, continue}
use event_driven.Mux.Failure.{
  Decision, settle, give_up, publish_event, publish_dead_letter, after_dead_letter,
  dead_letter_or_discard, fail, is_pending, redelivery_bounded, classify, classify_publish,
}

module _ {sdk : CloudEvents} {S : Type 0} where
  -- A nack is allowed: the transport can redeliver, and the broker's count, if it is known and a
  -- limit is set, is still within the limit.
  abbrev pub nackable : Config sdk S → Delivery S → Bool
  nackable cfg d =
      is_some d.nack && not (ltb 0 cfg.max_retries && ltb 0 d.count && ltb cfg.max_retries d.count)

  -- Before the decision, with the delivery that the message arrived with.
  pub record IsFresh (d : Delivery S) (m : Message sdk S) : Type 0 where
    pub open_ : m.decided ≡ false
    pub waiting : m.outcome ≡ pending
    pub same : m.delivery ≡ d

  -- After it.
  pub record IsSettled (cfg : Config sdk S) (d : Delivery S) (m : Message sdk S) : Type 0 where
    pub closed : m.decided ≡ true
    pub known : is_pending m.outcome ≡ false
    pub allowed : m.outcome ≡ nacked → nackable cfg d ≡ true

  pub settle-msg :
      (cfg : Config sdk S) (o : Outcome) (reason : Option DeadLetterReason) (d : Decision sdk S)
      (w : World sdk S)
      → (settle cfg o reason d w).1.msg ≡ (d w.msg w.outside).1
  unfolding settle
  settle-msg cfg o reason d w = ground arith

  pub publish_event-msg :
      (cfg : Config sdk S) (t : Target) (p : Publisher sdk S) (ctx : Context) (ce : sdk.Event)
      (w : World sdk S)
      → (publish_event cfg t p ctx ce w).1.msg ≡ w.msg
  unfolding publish_event
  publish_event-msg cfg t p ctx ce w = ground arith

  pub nack-IsSettled :
      (cfg : Config sdk S) (d : Delivery S) (e : Err) (m : Message sdk S) (s : S)
      → IsFresh d m
      → nackable cfg d ≡ true
      → IsSettled cfg d (nack e m s).1
  unfolding nack
  nack-IsSettled cfg d e m s f h = ground arith

  pub discard-IsSettled :
      (cfg : Config sdk S) (d : Delivery S) (e : Err) (m : Message sdk S) (s : S)
      → IsFresh d m
      → IsSettled cfg d (discard e m s).1
  unfolding discard
  discard-IsSettled cfg d e m s f = ground arith

  pub ack-IsSettled :
      (cfg : Config sdk S) (d : Delivery S) (m : Message sdk S) (s : S)
      → IsFresh d m
      → IsSettled cfg d (ack m s).1
  unfolding ack
  ack-IsSettled cfg d m s f = ground arith

  redelivery_bounded-nackable :
      (cfg : Config sdk S) (d : Delivery S) (m : Message sdk S)
      → IsFresh d m
      → redelivery_bounded cfg m ≡ true
      → nackable cfg d ≡ true
  unfolding redelivery_bounded
  redelivery_bounded-nackable cfg d m f h = ground arith

  pub classify-nackable :
      (cfg : Config sdk S) (d : Delivery S) (m : Message sdk S) (e : Err)
      → IsFresh d m
      → classify cfg m e ≡ none
      → nackable cfg d ≡ true
  unfolding classify
  classify-nackable cfg d m e f h = ground arith

  pub classify_publish-nackable :
      (cfg : Config sdk S) (d : Delivery S) (m : Message sdk S) (e : Err)
      → IsFresh d m
      → classify_publish cfg m e ≡ none
      → nackable cfg d ≡ true
  unfolding classify_publish
  classify_publish-nackable cfg d m e f h = ground arith

  pub give_up-IsSettled :
      (cfg : Config sdk S) (d : Delivery S) (reason : DeadLetterReason) (e : Err) (log : Log)
      (w : World sdk S)
      → IsFresh d w.msg
      → IsSettled cfg d (give_up cfg reason e log w).1.msg
  unfolding give_up
  give_up-IsSettled cfg d reason e log w f =
      rw settle-msg (discard-IsSettled cfg d e w.msg w.outside f)

  -- What a step leaves behind: the message settled, or a panic before the decision.
  abbrev pub IsPost : {A : Type 0} → Config sdk S → Delivery S → Called A × World sdk S → Type 0
  IsPost cfg d x = IsSettled cfg d x.1.msg ⊎ ((is_panic x.0 ≡ true) × IsFresh d x.1.msg)

  pub after_dead_letter-IsSettled :
      (cfg : Config sdk S) (d : Delivery S) (reason : DeadLetterReason) (e : Err)
      (pub_err : Option Err) (w : World sdk S)
      → IsFresh d w.msg
      → IsSettled cfg d (after_dead_letter cfg reason e pub_err w).1.msg
  unfolding after_dead_letter
  after_dead_letter-IsSettled cfg d reason e none w f = give_up-IsSettled cfg d reason e _ w f
  after_dead_letter-IsSettled cfg d reason e (some pub_err) w f =
      elim (Bool-cases (is_non_retryable pub_err || not (redelivery_bounded cfg w.msg))) [
        | inl lost ↦ rw lost (give_up-IsSettled cfg d reason e _ w f)
        | inr again ↦ rw again (
            rw settle-msg (
              nack-IsSettled cfg d _ w.msg w.outside f
                (redelivery_bounded-nackable cfg d w.msg f (ground arith))))
      ]

  after_copy-IsPost :
      (cfg : Config sdk S) (d : Delivery S) (reason : DeadLetterReason) (e : Err)
      (x : Called (Option Err) × World sdk S)
      → IsFresh d x.1.msg
      → IsPost cfg d (continue (after_dead_letter cfg reason e) x)
  after_copy-IsPost cfg d reason e (returned pub_err, w) f =
      inl (after_dead_letter-IsSettled cfg d reason e pub_err w f)
  after_copy-IsPost cfg d reason e (panicked v, w) f = inr (refl, f)

  pub publish_dead_letter-msg :
      (cfg : Config sdk S) (p : Publisher sdk S) (reason : DeadLetterReason) (e : Err)
      (w : World sdk S)
      → (publish_dead_letter cfg p reason e w).1.msg ≡ w.msg
  unfolding publish_dead_letter
  publish_dead_letter-msg cfg p reason e w = publish_event-msg cfg _ p _ _ w

  dead_letter_or_discard-IsPost :
      (cfg : Config sdk S) (d : Delivery S) (topic : Option (Publisher sdk S))
      (reason : DeadLetterReason) (e : Err) (w : World sdk S)
      → IsFresh d w.msg
      → IsPost cfg d (dead_letter_or_discard cfg topic reason e w)
  dead_letter_or_discard-IsPost cfg d none reason e w f =
      inl (give_up-IsSettled cfg d reason e _ w f)
  dead_letter_or_discard-IsPost cfg d (some p) reason e w f =
      after_copy-IsPost cfg d reason e (publish_dead_letter cfg p reason e w)
        (rw publish_dead_letter-msg f)

  -- A failed message is settled, unless the publisher of the dead-letter copy panics.
  pub fail-IsPost :
      (cfg : Config sdk S) (d : Delivery S) (reason : Option DeadLetterReason) (e : Err)
      (w : World sdk S)
      → IsFresh d w.msg
      → (reason ≡ none → nackable cfg d ≡ true)
      → IsPost cfg d (fail cfg reason e w)
  unfolding fail
  fail-IsPost cfg d none e w f h =
      inl (rw settle-msg (nack-IsSettled cfg d e w.msg w.outside f (h refl)))
  fail-IsPost cfg d (some reason) e w f h =
      dead_letter_or_discard-IsPost cfg d cfg.dead_letter reason e w f
