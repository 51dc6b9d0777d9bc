-- ===== src/Tests/Failures.antt =====
-- Routing and failing concrete messages, and a correlation id.
use event_driven.Prelude.{ℕ, refl, false, [], ◌∷◌, some, none, Bytes, List}
use event_driven.Mux.Types.{Mux, Route}
use event_driven.Mux.Effects.{World}
use event_driven.Mux.Handle.{find_matching_route}
use event_driven.Mux.Handle.Routing.{IsFirst, find_matching_route-IsFirst}
use event_driven.Tests.Sdk.{test_sdk}
use event_driven.Tests.Router.{answer, boom, delivery, start_world, reply, route, config, router}

-- A route whose filter turns everything down, before one without a filter.
abbrev closed : Route test_sdk ℕ Bytes
closed = record (route (reply (none, none)) none) {
  filter = some (record { identity = some 1; match = λ ce. answer false });
}

abbrev open_ : Route test_sdk ℕ Bytes
open_ = route (reply (none, some boom)) none

abbrev routes : List (Route test_sdk ℕ Bytes)
routes = closed ∷ open_ ∷ []

abbrev filtered_once : World test_sdk ℕ
filtered_once = record (start_world (delivery 2)) { outside = 1 }

find_matching_route-IsFirst_example : IsFirst routes open_ (start_world (delivery 2)) filtered_once
unfolding find_matching_route
find_matching_route-IsFirst_example =
    find_matching_route-IsFirst routes open_ (start_world (delivery 2)) filtered_once refl

abbrev bounded : Mux test_sdk ℕ Bytes
bounded = router (config 3 none) routes
