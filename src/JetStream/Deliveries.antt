-- ===== src/JetStream/Deliveries.antt =====
-- What the server is told about a message.
use event_driven.Prelude.{
  ◌≡◌, refl, ap, ◌∙◌, arith, false, List, [], ◌∷◌, ltb_ℤ, ℤ, pos, to_ℕ, if◌then◌else◌, Bytes,
  Option,
}
use event_driven.Error.{Err, Result, ok, err}
use event_driven.Event.CloudEvents.{CloudEvents}
use event_driven.Event.Message.{
  Context, Message, new_message, new_undecodable, ack, nack, discard, decide,
}
use event_driven.Event.Message.Decide.{
  Settlement, do_ack, do_nack, do_discard, settlement, settlements, first_decision_wins,
}
use event_driven.Envelope.{Formats}
use event_driven.Nats.{unmarshal}
use event_driven.JetStream.{Msg, new_delivery, term_reason_discarded, message_of, message_for}

module _ {S : Type 0} where
  -- What the server is told for each settlement.
  abbrev pub told : ℤ → Msg S → Settlement → S → Option Err × S
  told nak_delay msg do_ack s = msg.ack s
  told nak_delay msg (do_nack e) s =
      if ltb_ℤ (pos 0) nak_delay then msg.nak_with_delay (to_ℕ nak_delay) s else msg.nak s
  told nak_delay msg (do_discard e) s = msg.term_with_reason term_reason_discarded s

module _ {sdk : CloudEvents} (fmt : Formats sdk) {S : Type 0} (ctx : Context) where
  message_of-undecided :
      (uuid : Bytes) (nak_delay : ℤ) (msg : Msg S) (x : Result sdk.Event)
      → (message_of sdk fmt ctx uuid nak_delay msg x).decided ≡ false
  unfolding new_message new_undecodable
  message_of-undecided uuid nak_delay msg (ok ce) = refl
  message_of-undecided uuid nak_delay msg (err e) = refl

  message_of-told :
      (uuid : Bytes) (nak_delay : ℤ) (msg : Msg S) (x : Result sdk.Event) (c : Settlement) (s : S)
      → (settlements (c ∷ []) (message_of sdk fmt ctx uuid nak_delay msg x) s).1
        ≡ (told nak_delay msg c s).1
  unfolding new_message new_undecodable settlements settlement ack nack discard decide new_delivery
  message_of-told uuid nak_delay msg (ok ce) do_ack s = refl
  message_of-told uuid nak_delay msg (err e) do_ack s = refl
  message_of-told uuid nak_delay msg (ok ce) (do_nack c) s = ground arith
  message_of-told uuid nak_delay msg (err e) (do_nack c) s = ground arith
  message_of-told uuid nak_delay msg (ok ce) (do_discard c) s = refl
  message_of-told uuid nak_delay msg (err e) (do_discard c) s = refl

  -- However many calls of Ack, Nack and Discard a message of JetStream gets, decodable or not, the server
  -- is told the first of them and nothing else: an acknowledgement, a redelivery, after the delay if that
  -- is positive, or, for a discarded message, its termination, which is no acknowledgement.
  pub settlements-told :
      (uuid rescue_uuid : Bytes) (nak_delay : ℤ) (msg : Msg S) (c : Settlement)
      (cs : List Settlement) (s : S)
      → (settlements (c ∷ cs) (message_for sdk fmt ctx uuid rescue_uuid nak_delay msg) s).1
        ≡ (told nak_delay msg c s).1
  unfolding message_for
  settlements-told uuid rescue_uuid nak_delay msg c cs s =
      let x = unmarshal sdk fmt uuid msg.received in
      let first =
        first_decision_wins c cs (message_of sdk fmt ctx rescue_uuid nak_delay msg x) s
          (message_of-undecided rescue_uuid nak_delay msg x) in
      ap (λ (r : Message sdk S × S). r.1) first.0 ∙ message_of-told rescue_uuid nak_delay msg x c s
