-- ===== src/Sqs/Deliveries.antt =====
-- What the queue is told about a message.
use event_driven.Prelude.{Bytes}
use event_driven.Event.CloudEvents.{CloudEvents}
use event_driven.Event.Message.{Message}
use event_driven.Event.Message.Decide.{Settlement, do_ack, do_nack, do_discard}
use event_driven.Sqs.{SqsMessage, Client, delete_message}

module _ {S : Type 0} (client : Client S) where
  -- What the client is called with for each settlement.
  abbrev pub told : Bytes → SqsMessage → Settlement → S → S
  told url m do_ack s = (client.delete_message url m.receipt_handle s).1
  told url m (do_nack e) s = s
  told url m (do_discard e) s = (client.delete_message url m.receipt_handle s).1
