-- ===== src/Subscriptions.antt =====
-- The contract between the router (pkg/eventmux) and a transport: what the router relies on of Start and
-- Stop of its Subscription, and what the subscribers of pkg/transport keep.
pub mod Coupled
pub mod Receivers
pub mod Queues
pub mod Transports
use event_driven.Prelude.{◌≡◌, Bool, true, false, Option, none, some, Called, returned, panicked}
use event_driven.Error.{Err}
use event_driven.Mux.Types.{Subscription}

-- A call that returns nil has brought the subscription to the target, any other call has left it as it was.
abbrev pub Follows : Bool → Bool → Bool → Called (Option Err) → Type 0
Follows target before after (returned none) = after ≡ target
Follows target before after (returned (some e)) = after ≡ before
Follows target before after (panicked v) = after ≡ before

-- The same of a call with what it answers and leaves, of which `on` tells whether it is started.
abbrev pub Keeps : {A : Type 0} → (A → Bool) → Bool → Bool → Option Err × A → Type 0
Keeps on target before x = Follows target before (on x.1) (returned x.0)

-- `on` tells of a state of the outside world whether the subscription is started.
pub record IsSubscription {S : Type 0} (sub : Subscription S) (on : S → Bool) : Type 0 where
  pub starts : (s : S) → Follows true (on s) (on (sub.start s).1) (sub.start s).0
  pub stops : (s : S) → Follows false (on s) (on (sub.stop s).1) (sub.stop s).0
