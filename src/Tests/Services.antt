-- ===== src/Tests/Services.antt =====
-- Concrete retries and a concrete group of two components.
use event_driven.Prelude.{
  true, false, ℕ, suc, ◌≤◌, ltb, if◌then◌else◌, ◌≡◌, refl, arith, some, none, [], ◌∷◌, List, Bytes,
  str, inl, returned,
}
use event_driven.Mux.Types.{Local, HandlerFunc}
use event_driven.Retry.{Waiting, Policy, delay_for, jittered, run, retries_for}
use event_driven.Retry.Delay.{delay_for-eq, jittered_delay-bounds}
use event_driven.Retry.Calls.{Trace, run-Trace}
use event_driven.Lifecycle.{
  Component, Member, World, callers, start, stop, run as run_group, while_waiting,
}
use event_driven.Lifecycle.Live.{IsOver, Ended, start-Ended, stop-IsOver, run-IsOver}
use event_driven.Lifecycle.Order.{failed_stops}
use event_driven.Lifecycle.Errors.{fatal_error}
use event_driven.Lifecycle.Reports.{stop-fatal}
use event_driven.Tests.Router.{boom, background}

abbrev waiting : Waiting ℕ
waiting = record { jitter = λ d s. (7, s); warn = λ e n d s. s; sleep = λ ctx d s. (none, s) }

abbrev policy : Policy
policy = record {
  options = record { logger = false; skip_on_redelivery = false };
  base = 100;
  max_delay = 1000;
  max_retries = 3;
}

-- A handler that succeeds from its second call on.
abbrev second_time : HandlerFunc ℕ Bytes
second_time ctx payload l = (
  returned (none, if ltb 0 l.outside then none else some boom),
  record l { outside = suc l.outside },
)

abbrev local : Local ℕ
local = record { outside = 0; store = [] }

delay_for-eq_example : delay_for 100 1000 3 ≡ 800
unfolding delay_for
delay_for-eq_example = delay_for-eq 100 1000 3 (omega arith) (omega arith)

jittered_delay-bounds_example :
    (100 ≤ jittered 300 (delay_for 100 1000 3) 1000)
    × (jittered 300 (delay_for 100 1000 3) 1000 ≤ 1000)
jittered_delay-bounds_example = jittered_delay-bounds 100 1000 3 300 (omega arith) (omega arith)

run-Trace_example :
    Trace waiting policy second_time background []
      (retries_for policy background)
      0
      local
      (run waiting policy second_time background [] local)
run-Trace_example = run-Trace waiting policy second_time background [] local

abbrev steady : Component ℕ
steady = record {
  start = λ s. record { error = none; reports = []; stop_called = false; outside = suc s };
  stop = λ ctx s. record { error = some boom; reports = boom ∷ []; outside = suc s };
}

abbrev broken : Component ℕ
broken = record {
  start = λ s. record { error = some boom; reports = []; stop_called = false; outside = suc s };
  stop = λ ctx s. record { error = none; reports = []; outside = suc s };
}

abbrev service : List (Member ℕ) → World ℕ
service ms = record {
  group = record {
    shutdown_timeout = 5;
    members = ms;
    started = false;
    running = 0;
    stopping = false;
  };
  outside = 0;
  fatal = none;
  trace = [];
}

abbrev two : List (Member ℕ)
two = record { name = str "db"; c = steady } ∷ record { name = str "http"; c = steady } ∷ []

abbrev failing : List (Member ℕ)
failing = record { name = str "db"; c = steady } ∷ record { name = str "http"; c = broken } ∷ []

abbrev service-IsOver : (ms : List (Member ℕ)) → IsOver (service ms)
service-IsOver ms = record { closed = refl; none_runs = refl; none_left = refl }

start-Ended_example : Ended (start (service failing))
start-Ended_example = start-Ended (service failing) (service-IsOver failing)

stop-IsOver_example :
    IsOver (stop callers (start (service two)).1).1
    × ((stop callers (start (service two)).1).0 ≡ none
        → failed_stops (stop callers (start (service two)).1).1.trace
          ≡ failed_stops (start (service two)).1.trace)
unfolding start stop
stop-IsOver_example = stop-IsOver callers (start (service two)).1 (inl (refl, refl, refl))

run-IsOver_example : IsOver (run_group ((str "db", boom) ∷ []) false (service two)).1
run-IsOver_example = run-IsOver ((str "db", boom) ∷ []) false (service two) (service-IsOver two)

-- A service of a component that reports a failure while it is stopped.
abbrev noisy : Component ℕ
noisy = record {
  start = λ s. record { error = none; reports = []; stop_called = false; outside = s };
  stop = λ ctx s. record { error = none; reports = boom ∷ []; outside = s };
}

abbrev noisy_up : World ℕ
noisy_up = record (service (record { name = str "db"; c = noisy } ∷ [])) {
  group = record {
    shutdown_timeout = 5;
    members = record { name = str "db"; c = noisy } ∷ [];
    started = true;
    running = 1;
    stopping = false;
  };
}

stop-fatal_example :
    ((while_waiting ((str "db", boom) ∷ (str "http", boom) ∷ []) noisy_up).fatal
      ≡ some (fatal_error (str "db") boom))
    × ((stop callers noisy_up).1.fatal ≡ none)
stop-fatal_example = stop-fatal callers ((str "db", boom) ∷ (str "http", boom) ∷ []) noisy_up refl
