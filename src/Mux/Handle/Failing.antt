-- ===== src/Mux/Handle/Failing.antt =====
-- What becomes of a message whose handler fails.
use event_driven.Prelude.{Bool, is_some, not, ◌&&◌}
use event_driven.Error.{Err, find, to_panic_error, to_preflight_error, is_non_retryable}
use event_driven.Event.CloudEvents.{CloudEvents}
use event_driven.Event.Message.{Message, can_nack}
use event_driven.Mux.Types.{Config, Mux}
use event_driven.Mux.Failure.{past_max_retries}

module _ {sdk : CloudEvents} {S : Type 0} where
  -- A failure that a redelivery may cure: neither a panic, nor a rejection by the preflight chain,
  -- nor an error that is marked as final, where the broker redelivers and the retries are not used up.
  abbrev pub is_transient : Config sdk S → Message sdk S → Err → Bool
  is_transient cfg msg e =
      not (is_some (find to_panic_error e))
      && not (is_some (find to_preflight_error e))
      && not (is_non_retryable e)
      && can_nack msg
      && not (past_max_retries cfg msg)
