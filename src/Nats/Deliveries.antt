-- ===== src/Nats/Deliveries.antt =====
-- What becomes of a message of Core NATS.
use event_driven.Prelude.{◌≡◌, ◌≢◌, refl, ap, ◌∙◌, arith, false, none, Bytes}
use event_driven.Error.{Result, ok, err}
use event_driven.Event.CloudEvents.{CloudEvents}
use event_driven.Event.Message.{Context, Message, pending, nacked, new_message, new_undecodable}
use event_driven.Envelope.{Formats}
use event_driven.Mux.Types.{Mux}
use event_driven.Mux.Effects.{World}
use event_driven.Mux.Handle.{handle}
use event_driven.Mux.Failure.Recovered.{IsSafeTopic}
use event_driven.Mux.Handle.Settles.{handle-IsSettled}
use event_driven.Nats.{NatsMessage, message_of, message_for, unmarshal}

module _ {sdk : CloudEvents} (fmt : Formats sdk) {S : Type 0} (ctx : Context) where
  pub record IsBare (m : Message sdk S) : Type 0 where
    pub undecided : m.decided ≡ false
    pub waiting : m.outcome ≡ pending
    pub bare : m.delivery.nack ≡ none

  message_of-IsBare :
      (uuid : Bytes) (m : NatsMessage) (x : Result sdk.Event)
      → IsBare (message_of sdk fmt ctx uuid m x)
  unfolding new_message new_undecodable
  message_of-IsBare uuid m (ok ce) = record { undecided = refl; waiting = refl; bare = refl }
  message_of-IsBare uuid m (err e) = record { undecided = refl; waiting = refl; bare = refl }

  -- The message that the subscriber makes of a NATS message, decodable or not, leaves the router
  -- acknowledged or discarded, never nacked, since nothing would deliver it again, if the publisher of
  -- dead letters does not panic.
  pub message_for-ne-nacked :
      {A : Type 0} (mux : Mux sdk S A) (uuid rescue_uuid : Bytes) (m : NatsMessage)
      (w : World sdk S)
      → w.msg ≡ message_for sdk fmt ctx uuid rescue_uuid m
      → IsSafeTopic mux.cfg.dead_letter
      → ((handle mux w).1.msg.outcome ≢ nacked) × ((handle mux w).1.msg.outcome ≢ pending)
  unfolding message_for
  message_for-ne-nacked mux uuid rescue_uuid m w h safe =
      let b = message_of-IsBare rescue_uuid m (unmarshal sdk fmt uuid m) in
      let s =
        handle-IsSettled mux w (ap (λ (v : Message sdk S). v.decided) h ∙ b.undecided)
          (ap (λ (v : Message sdk S). v.outcome) h ∙ b.waiting) safe in
      let bare : w.msg.delivery.nack ≡ none =
        ap (λ (v : Message sdk S). v.delivery.nack) h ∙ b.bare in
      (λ k. ground (arith, bare, s.allowed k), λ k. ground (arith, s.known, k))
