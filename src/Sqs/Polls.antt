-- ===== src/Sqs/Polls.antt =====
-- How a worker of the queue ends: the loop of worker in pkg/transport/aws/sqs/subscriber.go.
use event_driven.Prelude.{
  ◌≡◌, refl, ◌∙◌, arith, ap, ℕ, suc, ◌+◌, ◌≤◌, Bytes, Bool, true, List, [], ◌∷◌, ◌++◌, ◌&&◌, length,
  if◌then◌else◌,
}
use event_driven.Error.{Result, ok, err}
use event_driven.Event.CloudEvents.{CloudEvents}
use event_driven.Event.Message.{Context, Message}
use event_driven.Envelope.{Formats}
use event_driven.Sqs.{
  SqsMessage, Client, Handler, worker, receive_batch, process_message, message_for, process_all,
  after_receive,
}

module _ {sdk : CloudEvents} (fmt : Formats sdk) {S : Type 0} (client : Client S) (ctx : Context)
    (handler : Handler sdk S) (url : Bytes) where
  worker-cut :
      (turns more : List (Bool × Bool)) (asleep : Bool) (s : S)
      → worker fmt client ctx (turns ++ (true, asleep) ∷ more) handler url s
        ≡ worker fmt client ctx turns handler url s
  unfolding worker
  worker-cut [] more asleep s = refl
  worker-cut ((ended, slept) ∷ turns) more asleep s =
      let batch = receive_batch fmt client ctx handler url s in
      ap (λ rest. if ended then s else if batch.0 && slept then batch.1 else rest)
        (worker-cut turns more asleep batch.1)

  module _ (calls : S → ℕ)
      (counted : (s : S) → calls (client.receive_message url s).1 ≡ suc (calls s))
      (kept : (m : Message sdk S) (s : S) → calls (handler m s) ≡ calls s) where
    process_all-calls :
        (ms : List SqsMessage) (s : S)
        → calls (process_all fmt client ctx handler url ms s) ≡ calls s
    unfolding process_message
    process_all-calls [] s = refl
    process_all-calls (m ∷ ms) s =
        let msg = message_for fmt client ctx url m in
        process_all-calls ms (handler msg s) ∙ kept msg s

    after_receive-calls :
        (x : Result (List SqsMessage) × S)
        → calls (after_receive fmt client ctx handler url x).1 ≡ calls x.1
    after_receive-calls (err e, s) = refl
    after_receive-calls (ok ms, s) = process_all-calls ms s

    receive_batch-calls :
        (s : S) → calls (receive_batch fmt client ctx handler url s).1 ≡ suc (calls s)
    unfolding receive_batch
    receive_batch-calls s = rw after_receive-calls (counted s)

    worker-calls :
        (turns : List (Bool × Bool)) (s : S)
        → calls (worker fmt client ctx turns handler url s) ≤ calls s + length turns
    unfolding worker
    worker-calls [] s = ground arith
    worker-calls ((ended, slept) ∷ turns) s =
        let polled = receive_batch-calls s in
        let h = worker-calls turns (receive_batch fmt client ctx handler url s).1 in ground arith

    -- A worker ends at the first turn that finds its context ended: the turns that would follow
    -- change nothing, and until then it has polled the queue at most once a turn, if the client
    -- counts its polls and the handler does not poll.
    pub worker-ends :
        (turns more : List (Bool × Bool)) (asleep : Bool) (s : S)
        → let final = worker fmt client ctx (turns ++ (true, asleep) ∷ more) handler url s in
          (final ≡ worker fmt client ctx turns handler url s)
          × (calls final ≤ calls s + length turns)
    worker-ends turns more asleep s =
        (worker-cut turns more asleep s, rw worker-cut (worker-calls turns s))
