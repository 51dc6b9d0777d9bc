-- ===== src/Pubsub/Health.antt =====
-- pkg/transport/gcp/pubsub/health.go.
pub mod Exists
use event_driven.Prelude.{
  ℕ, zero, suc, ◌++◌, ℤ, pos, negsuc, Bytes, str, quoted, is_empty, Bool, Option, none, some, List,
  [], ◌∷◌, Called, returned, panicked, if◌then◌else◌,
}
use event_driven.Error.{Err, errorf, lit, verb, done, wrap, join}

-- The admin calls, and whether the status of an error is NotFound.
pub record Admin (S : Type 0) : Type 0 where
  pub get_topic : Bytes → S → Option Err × S
  pub get_subscription : Bytes → S → Option Err × S
  pub is_not_found : Err → Bool

pub record HealthChecker : Type 0 where
  pub project_id : Bytes
  pub topics : List Bytes
  pub subscriptions : List Bytes
  -- in nanoseconds
  pub timeout : ℕ

abbrev pub default_check_timeout : ℕ
default_check_timeout = 15000000000

abbrev pub HealthCheckerOption : Type 0
HealthCheckerOption = HealthChecker → HealthChecker

-- It panics unless the duration is positive; the duration is printed by `duration`.
unfoldable pub with_timeout : (ℤ → Bytes) → ℤ → Called HealthCheckerOption
with_timeout duration (pos (suc n)) = returned (λ c. record c { timeout = suc n })
with_timeout duration (pos zero) =
    panicked (str "pubsub: WithTimeout(" ++ duration (pos zero) ++ str "): must be positive")
with_timeout duration (negsuc n) =
    panicked (str "pubsub: WithTimeout(" ++ duration (negsuc n) ++ str "): must be positive")

unfoldable pub with_topics : List Bytes → HealthCheckerOption
with_topics topics c = record c { topics = c.topics ++ topics }

unfoldable pub with_subscriptions : List Bytes → HealthCheckerOption
with_subscriptions subscriptions c = record c { subscriptions = c.subscriptions ++ subscriptions }

abbrev pub apply_all : List HealthCheckerOption → HealthChecker → HealthChecker
apply_all [] c = c
apply_all (opt ∷ opts) c = apply_all opts (opt c)

unfoldable pub new_health_checker : Bytes → List HealthCheckerOption → HealthChecker
new_health_checker project_id opts = apply_all opts (record {
  project_id = project_id;
  topics = [];
  subscriptions = [];
  timeout = default_check_timeout;
})

module _ (is_not_found : Err → Bool) where
  abbrev pub describe : Bytes → Bytes → Err → Err
  describe kind id e =
      if is_not_found e
      then errorf
          (lit (str "required " ++ kind ++ str " " ++ quoted id ++ str " does not exist") done)
      else errorf (lit (str "error checking " ++ kind ++ str " " ++ id ++ str ": ") (verb e done))

  abbrev pub add_error : Bytes → Bytes → Option Err → List Err → List Err
  add_error kind id none errs = errs
  add_error kind id (some e) errs = describe kind id e ∷ errs

abbrev pub path : HealthChecker → Bytes → Bytes → Bytes
path c kind id = str "projects/" ++ c.project_id ++ str "/" ++ kind ++ str "s/" ++ id

module _ {S : Type 0} (is_not_found : Err → Bool) (c : HealthChecker) where
  -- The method check: its loop over the ids of one kind.
  unfoldable pub check : Bytes → List Bytes → (Bytes → S → Option Err × S) → S → List Err × S
  check kind [] get s = ([], s)
  check kind (id ∷ ids) get s =
      let answer = get (path c kind id) s in
      let skipped = check kind ids get s in
      let rest = check kind ids get answer.1 in
      if is_empty id then skipped else (add_error is_not_found kind id answer.0 rest.0, rest.1)

abbrev pub check_error : Option Err → Option Err
check_error none = none
check_error (some e) = some (wrap (str "pubsub health check: ") e)

module _ {S : Type 0} (admin : Admin S) where
  -- Check, under a context that has the timeout.
  unfoldable pub check_all : HealthChecker → S → Option Err × S
  unfolding check join
  check_all c s =
      let topics = check admin.is_not_found c (str "topic") c.topics admin.get_topic s in
      let subscriptions =
        check admin.is_not_found c (str "subscription") c.subscriptions admin.get_subscription
          topics.1 in
      (check_error (join (topics.0 ++ subscriptions.0)), subscriptions.1)
