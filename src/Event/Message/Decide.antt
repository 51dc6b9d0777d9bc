-- ===== src/Event/Message/Decide.antt =====
-- What the settlement of a message guarantees: the first decision is the only one.
use event_driven.Prelude.{
  ◌≡◌, refl, arith, true, false, Option, some, none, List, [], ◌∷◌, Called, returned,
}
use event_driven.Error.{Err}
use event_driven.Event.CloudEvents.{CloudEvents}
use event_driven.Event.Message.{
  Outcome, acked, nacked, discarded, Callback, Message, decide, ack, nack, discard,
}

-- A call of Ack, Nack or Discard.
pub data Settlement : Type 0 where
  do_ack : Settlement
  do_nack do_discard : Err → Settlement

abbrev pub decided_outcome : Settlement → Outcome
decided_outcome do_ack = acked
decided_outcome (do_nack e) = nacked
decided_outcome (do_discard e) = discarded

abbrev pub decided_cause : Settlement → Option Err
decided_cause do_ack = none
decided_cause (do_nack e) = some e
decided_cause (do_discard e) = some e

module _ {sdk : CloudEvents} {S : Type 0} where
  unfoldable pub settlement :
      Settlement → Message sdk S → S → Called (Option Err) × Message sdk S × S
  unfolding ack nack discard
  settlement do_ack m s = ack m s
  settlement (do_nack e) m s = nack e m s
  settlement (do_discard e) m s = discard e m s

  -- A sequence of calls, whatever each of them returns.
  unfoldable pub settlements : List Settlement → Message sdk S → S → Message sdk S × S
  settlements [] m s = (m, s)
  settlements (c ∷ cs) m s = let (r, m', s') = settlement c m s in settlements cs m' s'

  pub decide_decided :
      (o : Outcome) (e : Option Err) (fn : Option (Callback S)) (m : Message sdk S) (s : S)
      → m.decided ≡ true
      → decide o e fn m s ≡ (returned none, m, s)
  unfolding decide
  decide_decided o e fn m s h = rw h

  settlement_decided :
      (c : Settlement) (m : Message sdk S) (s : S)
      → m.decided ≡ true
      → settlement c m s ≡ (returned none, m, s)
  unfolding settlement
  settlement_decided do_ack m s h = rw h
  settlement_decided (do_nack e) m s h = rw h
  settlement_decided (do_discard e) m s h = rw h

  settlement-decides :
      (c : Settlement) (m : Message sdk S) (s : S)
      → m.decided ≡ false
      → ((settlement c m s).1.decided ≡ true)
        × ((settlement c m s).1.outcome ≡ decided_outcome c)
        × ((settlement c m s).1.cause ≡ decided_cause c)
  unfolding settlement
  settlement-decides do_ack m s h = ground arith
  settlement-decides (do_nack e) m s h = ground arith
  settlement-decides (do_discard e) m s h = ground arith

  settlements_decided :
      (cs : List Settlement) (m : Message sdk S) (s : S)
      → m.decided ≡ true
      → settlements cs m s ≡ (m, s)
  unfolding settlements
  settlements_decided [] m s h = refl
  settlements_decided (c ∷ cs) m s h =
      rw (settlement_decided c m s h) (settlements_decided cs m s h)

  -- Whatever further calls of Ack, Nack and Discard follow the first one on an undecided message,
  -- they change neither the message nor the outside world, which the broker is part of; the
  -- recorded outcome and cause are those of the first call, also if its callback panicked.
  pub first_decision_wins :
      (c : Settlement) (cs : List Settlement) (m : Message sdk S) (s : S)
      → m.decided ≡ false
      → (settlements (c ∷ cs) m s ≡ settlements (c ∷ []) m s)
        × ((settlements (c ∷ cs) m s).0.outcome ≡ decided_outcome c)
        × ((settlements (c ∷ cs) m s).0.cause ≡ decided_cause c)
  unfolding settlements
  first_decision_wins c cs m s h =
      let (done, same_outcome, same_cause) = settlement-decides c m s h in
      let stays = settlements_decided cs (settlement c m s).1 (settlement c m s).2 done in
      (stays, rw stays same_outcome, rw stays same_cause)
