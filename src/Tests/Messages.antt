-- ===== src/Tests/Messages.antt =====
-- Messages through a concrete router.
use event_driven.Prelude.{ℕ, Bytes, ◌≡◌, refl, [], ◌∷◌, some, none, returned}
use event_driven.Event.Message.{new_message, acked}
use event_driven.Event.Message.Decide.{
  do_ack, do_nack, do_discard, settlements, first_decision_wins,
}
use event_driven.Mux.Types.{Mux}
use event_driven.Mux.Handle.{handle}
use event_driven.Mux.Handle.Settles.{handle-returns, handle-IsSettled}
use event_driven.Mux.Failure.Settled.{IsSettled}
use event_driven.Tests.Sdk.{test_sdk}
use event_driven.Tests.Router.{
  boom, bad_publisher, delivery, start_world, reply, route, config, router,
}

abbrev failing : Mux test_sdk ℕ Bytes
failing = router (config 3 (some bad_publisher)) (route (reply (none, some boom)) none ∷ [])

first_decision_wins_example :
    (settlements (do_ack ∷ do_nack boom ∷ do_discard boom ∷ []) (start_world (delivery 1)).msg 0
      ≡ settlements (do_ack ∷ []) (start_world (delivery 1)).msg 0)
    × ((settlements
          (do_ack ∷ do_nack boom ∷ do_discard boom ∷ [])
          (start_world (delivery 1)).msg
          0).0.outcome
        ≡ acked)
    × ((settlements
          (do_ack ∷ do_nack boom ∷ do_discard boom ∷ [])
          (start_world (delivery 1)).msg
          0).0.cause
        ≡ none)
unfolding new_message
first_decision_wins_example =
    first_decision_wins do_ack (do_nack boom ∷ do_discard boom ∷ []) (start_world (delivery 1)).msg
      0 refl

handle-returns_example : (handle failing (start_world (delivery 2))).0 ≡ returned tt
handle-returns_example = handle-returns failing (start_world (delivery 2))

handle-IsSettled_example :
    IsSettled failing.cfg
      (start_world (delivery 2)).msg.delivery
      (handle failing (start_world (delivery 2))).1.msg
unfolding new_message
handle-IsSettled_example =
    handle-IsSettled failing (start_world (delivery 2)) refl refl (λ ctx ce s. refl)
