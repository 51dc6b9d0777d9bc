-- ===== src/Tests/Copies.antt =====
-- The events that a concrete router publishes, and a message that it acknowledges.
use event_driven.Prelude.{
  ℕ, Bytes, str, lookup, bytes_eq, ◌≡◌, refl, [], ◌∷◌, some, none, cut_prefix,
}
use event_driven.Event.CloudEvents.{is_extension_name}
use event_driven.Event.Message.{new_message, ack}
use event_driven.Mux.Types.{Metadata, Mux}
use event_driven.Mux.ResultEvent.{extend_result}
use event_driven.Mux.ResultEvent.Extensions.{result_extensions}
use event_driven.Mux.Handle.{handle, mint_correlation_id, warn_no_delivery_count}
use event_driven.Mux.Handle.Acks.{IsProcessed, handle-IsProcessed}
use event_driven.Tests.Sdk.{TestEvent, test_sdk}
use event_driven.Tests.Router.{order, delivery, start_world, reply, route, config, router}

abbrev metadata : Metadata
metadata = (str "tenant", str "b") ∷ (str "correlationid", str "forged") ∷ []

abbrev parent : TestEvent
parent = record order {
  extensions = (str "tenant", str "a") ∷ (str "correlationid", str "c1") ∷ [];
}

result_extensions_example :
    lookup (str "correlationid") ((extend_result test_sdk metadata parent test_sdk.new).extensions)
    ≡ some (str "c1")
unfolding is_extension_name lookup bytes_eq cut_prefix
result_extensions_example =
    result_extensions test_sdk metadata parent test_sdk.new (str "correlationid")
      (refl, refl, (refl, refl, tt)) (refl, refl, (refl, refl, tt)) refl

abbrev passing : Mux test_sdk ℕ Bytes
passing = router (config 3 none) (route (reply (none, none)) none ∷ [])

handle-IsProcessed_example :
    IsProcessed passing
      (warn_no_delivery_count passing (mint_correlation_id (start_world (delivery 2))))
unfolding new_message handle lookup ack
handle-IsProcessed_example = handle-IsProcessed passing (start_world (delivery 2)) refl refl refl
