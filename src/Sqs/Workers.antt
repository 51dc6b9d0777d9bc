-- ===== src/Sqs/Workers.antt =====
-- Which workers poll the queue.
use event_driven.Prelude.{◌≡◌, Bool, if◌then◌else◌, List, [], ◌∷◌}
use event_driven.Sqs.{Client, Subscriber, start, stop}

-- A call of the subscriber's owner.
pub data Action : Type 0 where
  starts : Action
  stops : (expired : Bool) → Action

module _ {S : Type 0} (client : Client S) where
  abbrev pub act : Action → Subscriber S → Subscriber S
  act starts sub = (start client sub).1
  act (stops expired) sub = (stop expired sub).1

  abbrev pub act_all : List Action → Subscriber S → Subscriber S
  act_all [] sub = sub
  act_all (a ∷ actions) sub = act_all actions (act a sub)

  -- One group of workers if the subscriber is started, otherwise none.
  abbrev pub IsExclusive : Subscriber S → Type 0
  IsExclusive sub = sub.groups ≡ (if sub.started then 1 else 0)
