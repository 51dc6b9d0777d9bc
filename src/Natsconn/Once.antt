-- ===== src/Natsconn/Once.antt =====
-- What a sequence of Stops does, and what a failed Dial shows.
use event_driven.Prelude.{suc, ◌≡◌, refl, ap, true, false, Option, none, List, [], ◌∷◌, map}
use event_driven.Error.{Err}
use event_driven.Natsconn.{Nats, Conn, stop, wait_closed}

module _ {S : Type 0} (nats : Nats S) where
  -- The answers of Stops, one after the other; each has the error of its context, if that ends first.
  abbrev pub stop_all : List (Option Err) → Conn S → List (Option Err) × Conn S
  stop_all [] c = ([], c)
  stop_all (expired ∷ stops) c =
      let (e, c') = stop nats expired c in let (es, c'') = stop_all stops c' in (e ∷ es, c'')

  stop_all-stopped :
      (stops : List (Option Err)) (c : Conn S)
      → c.stopped ≡ true
      → stop_all stops c ≡ (map (λ _. none) stops, c)
  unfolding stop
  stop_all-stopped [] c h = refl
  stop_all-stopped (expired ∷ stops) c h = rw h (
      ap (λ (r : List (Option Err) × Conn S). (none ∷ r.0, r.1))
        (stop_all-stopped stops (record { stopped = true; drains = c.drains; outside = c.outside })
          refl))

  -- However often a connection is stopped, only the first Stop drains it: that one answers with what
  -- the drain and the wait give, and all the later ones return nil and change nothing.
  pub stop_all-first :
      (expired : Option Err) (stops : List (Option Err)) (c : Conn S)
      → c.stopped ≡ false
      → stop_all (expired ∷ stops) c ≡ (
        (wait_closed nats expired c.outside).0 ∷ map (λ _. none) stops,
        record {
          stopped = true;
          drains = suc c.drains;
          outside = (wait_closed nats expired c.outside).1;
        },
      )
  unfolding stop
  stop_all-first expired stops c h =
      let (e, s) = wait_closed nats expired c.outside in
      rw h (
        ap (λ (r : List (Option Err) × Conn S). (e ∷ r.0, r.1))
          (stop_all-stopped stops (record { stopped = true; drains = suc c.drains; outside = s })
            refl))
