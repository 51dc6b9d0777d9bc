-- ===== src/JetStream/Health.antt =====
-- pkg/transport/nats/jetstream/health.go.
use event_driven.Prelude.{
  ℕ, zero, suc, ◌++◌, ℤ, pos, negsuc, Bytes, str, quoted, is_empty, Option, none, some, List, [],
  ◌∷◌, Called, returned, panicked, if◌then◌else◌,
}
use event_driven.Error.{Err, errorf, lit, verb, done, wrap, join}

pub record HealthChecker : Type 0 where
  pub streams : List Bytes
  -- in nanoseconds
  pub timeout : ℕ

abbrev pub default_check_timeout : ℕ
default_check_timeout = 15000000000

abbrev pub HealthCheckerOption : Type 0
HealthCheckerOption = HealthChecker → HealthChecker

-- It panics unless the duration is positive; the duration is printed by `duration`.
unfoldable pub with_timeout : (ℤ → Bytes) → ℤ → Called HealthCheckerOption
with_timeout duration (pos (suc n)) = returned (λ c. record c { timeout = suc n })
with_timeout duration (pos zero) =
    panicked (str "jetstream: WithTimeout(" ++ duration (pos zero) ++ str "): must be positive")
with_timeout duration (negsuc n) =
    panicked (str "jetstream: WithTimeout(" ++ duration (negsuc n) ++ str "): must be positive")

unfoldable pub with_streams : List Bytes → HealthCheckerOption
with_streams streams c = record c { streams = c.streams ++ streams }

abbrev pub apply_all : List HealthCheckerOption → HealthChecker → HealthChecker
apply_all [] c = c
apply_all (opt ∷ opts) c = apply_all opts (opt c)

unfoldable pub new_health_checker : List HealthCheckerOption → HealthChecker
new_health_checker opts = apply_all opts (record { streams = []; timeout = default_check_timeout })

abbrev pub add_error : Bytes → Option Err → List Err → List Err
add_error name none errs = errs
add_error name (some e) errs =
    errorf (lit (str "required stream ") (lit (quoted name) (lit (str ": ") (verb e done)))) ∷ errs

abbrev pub check_error : Option Err → Option Err
check_error none = none
check_error (some e) = some (wrap (str "nats health check: ") e)

-- `stream` is the error of js.Stream.
module _ {S : Type 0} (stream : Bytes → S → Option Err × S) where
  -- The loop of Check.
  unfoldable pub check_streams : List Bytes → S → List Err × S
  check_streams [] s = ([], s)
  check_streams (name ∷ names) s =
      let answer = stream name s in
      let skipped = check_streams names s in
      let rest = check_streams names answer.1 in
      if is_empty name then skipped else (add_error name answer.0 rest.0, rest.1)

  -- Check, under a context that has the timeout.
  unfoldable pub check : HealthChecker → S → Option Err × S
  unfolding check_streams join
  check h s = let errs = check_streams h.streams s in (check_error (join errs.0), errs.1)
