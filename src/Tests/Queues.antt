-- ===== src/Tests/Queues.antt =====
-- A worker of a queue on concrete turns.
use event_driven.Prelude.{
  ◌≡◌, ◌≤◌, ◌==◌, refl, ℕ, suc, Bool, true, false, none, if◌then◌else◌, List, [], ◌∷◌, ◌++◌, str,
}
use event_driven.Error.{ok, err}
use event_driven.Sqs.{Client, worker}
use event_driven.Sqs.Polls.{worker-ends}
use event_driven.Tests.Sdk.{test_sdk}
use event_driven.Tests.Router.{boom, background}
use event_driven.Tests.Transports.{formats, received}

-- The second poll fails.
abbrev flaky : Client ℕ
flaky = record {
  get_queue_url = λ queue s. (ok queue, s);
  receive_message = λ url s. (if s == 1 then err boom else ok (received ∷ []), suc s);
  delete_message = λ url handle s. (none, s);
}

abbrev two_turns : List (Bool × Bool)
two_turns = (false, false) ∷ (false, false) ∷ []

abbrev late_turns : List (Bool × Bool)
late_turns = (false, false) ∷ []

abbrev run_worker : List (Bool × Bool) → ℕ
run_worker turns =
    worker {sdk = test_sdk} formats flaky background turns (λ m s. s) (str "https://q") 0

worker-ends_example :
    (run_worker (two_turns ++ (true, false) ∷ late_turns) ≡ run_worker two_turns)
    × (run_worker (two_turns ++ (true, false) ∷ late_turns) ≤ 2)
worker-ends_example =
    worker-ends formats flaky background (λ m s. s) (str "https://q") (λ s. s) (λ s. refl)
      (λ m s. refl) two_turns late_turns false 0
