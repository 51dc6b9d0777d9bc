-- ===== src/Subscriptions/Queues.antt =====
-- The contract, for the subscribers of SQS and Core NATS.
use event_driven.Prelude.{
  ◌≡◌, refl, ap, ◌∙◌, ◌-◌, Bool, true, false, not, Option, none, some, Bool-cases, inl, inr,
  if_both, if_true, if_false, if◌then◌else◌, Bytes,
}
use event_driven.Error.{Err, Result, ok, err, sentinel, already_started}
use event_driven.Sqs
use event_driven.Nats.Core as Nats
use event_driven.Subscriptions.{Keeps}

-- A Stop of what is not started does nothing, and any other one is as the rest of it.
stop-if :
    {A : Type 0} (on : A → Bool) (sub sub' : A) (rest : Option Err × A)
    → on sub' ≡ on sub
    → Keeps on false (on sub) rest
    → Keeps on false (on sub) (if not (on sub) then (none, sub') else rest)
stop-if on sub sub' rest same keeps = elim (Bool-cases (on sub)) [
  | inl up ↦ if_false (Keeps on false (on sub)) (not (on sub)) (none, sub') rest (ap not up) keeps
  | inr down ↦
      if_true (Keeps on false (on sub)) (not (on sub)) (none, sub') rest (ap not down) (same ∙ down)
]

module _ {S : Type 0} where
  abbrev pub sqs_on : Sqs.Subscriber S → Bool
  sqs_on sub = sub.started

  abbrev pub nats_on : Nats.Subscriber S → Bool
  nats_on sub = sub.subscribed

  sqs-spawn :
      (client : Sqs.Client S) (sub : Sqs.Subscriber S) (x : Result Bytes × S)
      → Keeps sqs_on true (sqs_on sub) (Sqs.spawn client sub x)
  sqs-spawn client sub (err e, s) = refl
  sqs-spawn client sub (ok url, s) = refl

  pub sqs-start :
      (client : Sqs.Client S) (sub : Sqs.Subscriber S)
      → Keeps sqs_on true (sqs_on sub) (Sqs.start client sub)
  unfolding Sqs.start
  sqs-start client sub =
      if_both (Keeps sqs_on true (sqs_on sub)) sub.started (some (sentinel already_started), sub)
        (Sqs.spawn client sub _) refl (sqs-spawn client sub _)

  pub sqs-stop :
      (expired : Bool) (sub : Sqs.Subscriber S)
      → Keeps sqs_on false (sqs_on sub) (Sqs.stop expired sub)
  unfolding Sqs.stop
  sqs-stop expired sub = stop-if sqs_on sub sub _ refl (
      if_both (Keeps sqs_on false (sqs_on sub)) expired (some _, sub)
        (none, record sub { started = false; groups = sub.groups - 1 }) refl refl)

  nats-after_subscribe :
      (nc : Nats.Connection S) (sub : Nats.Subscriber S) (x : Option Err × S)
      → Keeps nats_on true (nats_on sub) (Nats.after_subscribe nc sub x)
  nats-after_subscribe nc sub (some e, s) = refl
  nats-after_subscribe nc sub (none, s) = refl

  pub nats-start :
      (nc : Nats.Connection S) (sub : Nats.Subscriber S)
      → Keeps nats_on true (nats_on sub) (Nats.start nc sub)
  unfolding Nats.start
  nats-start nc sub =
      if_both (Keeps nats_on true (nats_on sub)) sub.subscribed
        (some (sentinel already_started), sub) (Nats.after_subscribe nc sub _) refl
        (nats-after_subscribe nc sub _)

  nats-await_drain :
      (nc : Nats.Connection S) (expired before : Bool) (sub : Nats.Subscriber S)
      → sub.subscribed ≡ before
      → Keeps nats_on false before (Nats.await_drain nc expired sub)
  nats-await_drain nc true before sub h = h
  nats-await_drain nc false before sub h = refl

  nats-after_drain :
      (nc : Nats.Connection S) (expired : Bool) (sub : Nats.Subscriber S) (x : Option Err × S)
      → Keeps nats_on false (nats_on sub) (Nats.after_drain nc expired sub x)
  nats-after_drain nc expired sub (some e, s) = refl
  nats-after_drain nc expired sub (none, s) = nats-await_drain nc expired sub.subscribed _ refl

  pub nats-stop :
      (nc : Nats.Connection S) (expired : Bool) (sub : Nats.Subscriber S)
      → Keeps nats_on false (nats_on sub) (Nats.stop nc expired sub)
  unfolding Nats.stop
  nats-stop nc expired sub =
      stop-if nats_on sub (record sub { draining = false }) _ refl
        (if_both (Keeps nats_on false (nats_on sub)) sub.draining (Nats.await_drain nc expired sub)
          (Nats.after_drain nc expired sub (nc.drain sub.outside))
          (nats-await_drain nc expired sub.subscribed sub refl)
          (nats-after_drain nc expired sub (nc.drain sub.outside)))
