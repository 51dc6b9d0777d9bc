-- ===== src/Event/Message.antt =====
-- pkg/event/message.go: a CloudEvent with the broker mechanics of one delivery, and the single
-- decision that settles it. A decision calls the broker, which is outside code.
pub mod Decide
use event_driven.Prelude.{
  ℕ, ltb, Bool, true, false, Option, none, some, is_some, Called, returned, panicked, Outside,
  if◌then◌else◌,
}
use event_driven.Error.{Err}
use event_driven.Event.CloudEvents.{CloudEvents}

pub data Outcome : Type 0 where
  pending acked nacked discarded : Outcome

-- The context of a message as the library reads it: the values it puts there, and whether
-- WithoutCancel detached it.
pub record Context : Type 0 where
  pub delivery_count : Option ℕ
  pub has_store : Bool
  pub detached : Bool

-- A callback tells the broker and returns the broker's error, nil on success.
abbrev pub Callback : Type 0 → Type 0
Callback S = Outside S (Option Err)

-- `count` is a uint64; 0 = unknown.
pub record Delivery (S : Type 0) : Type 0 where
  pub ack : Option (Callback S)
  pub nack : Option (Callback S)
  pub discard : Option (Callback S)
  pub count : ℕ

-- `decided` is the sync.Once, `cancelled` tells whether the context's cancel ran.
pub record Message (sdk : CloudEvents) (S : Type 0) : Type 0 where
  pub event : sdk.Event
  pub delivery : Delivery S
  pub decided : Bool
  pub context : Context
  pub cancelled : Bool
  pub outcome : Outcome
  pub cause : Option Err
  pub decode_err : Option Err

-- `if d.Discard == nil { d.Discard = d.Ack }`
abbrev or_ack : {S : Type 0} → Option (Callback S) → Option (Callback S) → Option (Callback S)
or_ack none ack = ack
or_ack (some d) ack = some d

module _ {sdk : CloudEvents} {S : Type 0} where
  unfoldable pub new_message : Context → sdk.Event → Delivery S → Message sdk S
  new_message parent ce d = record {
    event = ce;
    delivery = record d { discard = or_ack d.discard d.ack };
    decided = false;
    context = if ltb 0 d.count then record parent { delivery_count = some d.count } else parent;
    cancelled = false;
    outcome = pending;
    cause = none;
    decode_err = none;
  }

  unfoldable pub new_undecodable : Context → sdk.Event → Delivery S → Err → Message sdk S
  unfolding new_message
  new_undecodable parent ce d err = record (new_message parent ce d) { decode_err = some err }

  unfoldable pub can_nack : Message sdk S → Bool
  can_nack m = is_some m.delivery.nack

  -- The count, if the transport reported one.
  unfoldable pub delivery_count : Message sdk S → Option ℕ
  delivery_count m = if ltb 0 m.delivery.count then some m.delivery.count else none

  -- What `decide` makes of the callback's end: cancel runs unless the callback panicked.
  abbrev finish_decision :
      Message sdk S → Called (Option Err) × S → Called (Option Err) × Message sdk S × S
  finish_decision m (returned err, s) = (returned err, record m { cancelled = true }, s)
  finish_decision m (panicked v, s) = (panicked v, m, s)

  abbrev run_callback :
      Message sdk S → Option (Callback S) → S → Called (Option Err) × Message sdk S × S
  run_callback m none s = (returned none, record m { cancelled = true }, s)
  run_callback m (some fn) s = finish_decision m (fn s)

  -- decide: the first decision is recorded and applied, later ones return nil.
  unfoldable pub decide :
      Outcome
      → Option Err
      → Option (Callback S)
      → Message sdk S
      → S
      → Called (Option Err) × Message sdk S × S
  decide outcome cause fn m s =
      if m.decided
      then (returned none, m, s)
      else run_callback (record m { decided = true; outcome = outcome; cause = cause }) fn s

  unfoldable pub ack : Message sdk S → S → Called (Option Err) × Message sdk S × S
  unfolding decide
  ack m = decide acked none m.delivery.ack m

  unfoldable pub nack : Err → Message sdk S → S → Called (Option Err) × Message sdk S × S
  unfolding decide
  nack cause m = decide nacked (some cause) m.delivery.nack m

  unfoldable pub discard : Err → Message sdk S → S → Called (Option Err) × Message sdk S × S
  unfolding decide
  discard cause m = decide discarded (some cause) m.delivery.discard m
