-- ===== src/Http/Client.antt =====
-- pkg/transport/eventhttp/client.go: the settings of the HTTP client, and the
-- statuses that publisher.go calls permanent.
-- A response of resty is its status; durations are nanoseconds.
pub mod Statuses
use event_driven.Prelude.{
  positive_or, ℕ, zero, suc, ltb, leb, ◌==◌, if◌then◌else◌, Bytes, str, is_empty, bytes_eq, Bool,
  true, false, not, ◌&&◌, ◌||◌, Option, none, some, List, [], ◌∷◌, ◌++◌, ℤ, pos, negsuc, Called,
  returned, Outside,
}
use event_driven.Error.{Err, Result, ok, err, errorf, lit, done, wrap, non_retryable}
use event_driven.Event.CloudEvents.{CloudEvents}
use event_driven.Event.Message.{Context}

-- A response of resty is its status.
pub record RetryConfig : Type 0 where
  pub count : ℤ
  pub wait_time : ℤ
  pub max_wait_time : ℤ
  pub retry_on : Option (Option ℕ → Option Err → Bool)

pub record ClientOpts : Type 0 where
  pub timeout : ℕ
  pub retry : Option RetryConfig
  pub user_agent : Bytes
  pub default_retry : ℕ

-- The settings of the resty client.
pub record Client : Type 0 where
  pub timeout : ℕ
  pub retry_count : ℕ
  pub retry_wait_time : ℕ
  pub retry_max_wait_time : ℕ
  pub retry_conditions : List (Option ℕ → Option Err → Bool)
  pub user_agent : Bytes

abbrev pub default_timeout : ℕ
default_timeout = 10000000000

abbrev pub default_wait_time : ℕ
default_wait_time = 200000000

abbrev pub default_max_wait_time : ℕ
default_max_wait_time = 5000000000

abbrev pub transient_status_from : ℕ
transient_status_from = 500

-- The module path and version of a Go module.
pub record Module : Type 0 where
  pub path : Bytes
  pub version : Bytes

pub record BuildInfo : Type 0 where
  pub main : Module
  pub deps : List Module

abbrev pub module_path : Bytes
module_path = str "github.com/norlis/event-driven/v2"

abbrev last_version : Bytes → List Module → Bytes
last_version version [] = version
last_version version (dep ∷ deps) =
    last_version (if bytes_eq dep.path module_path then dep.version else version) deps

abbrev named_version : Bytes → Bytes
named_version version =
    if is_empty version || bytes_eq version (str "(devel)")
    then str "go event-driven"
    else str "go event-driven/" ++ version

unfoldable pub user_agent : Option BuildInfo → Bytes
user_agent none = str "go event-driven"
user_agent (some bi) =
    named_version
      (last_version (if bytes_eq bi.main.path module_path then bi.main.version else []) bi.deps)

unfoldable pub default_retry_condition : Option ℕ → Option Err → Bool
default_retry_condition resp (some e) = true
default_retry_condition none none = false
default_retry_condition (some status) none = status == 429 || leb transient_status_from status

abbrev pub count_or : ℕ → ℤ → ℕ
count_or default (negsuc n) = 0
count_or default (pos zero) = default
count_or default (pos (suc n)) = suc n

abbrev pub retry_on_of : Option (Option ℕ → Option Err → Bool) → List (Option ℕ → Option Err → Bool)
retry_on_of none = []
retry_on_of (some condition) = condition ∷ []

abbrev pub or_agent : Bytes → Bytes → Bytes
or_agent default agent = if is_empty agent then default else agent

abbrev pub or_timeout : ℕ → ℕ
or_timeout zero = default_timeout
or_timeout (suc n) = suc n

abbrev pub with_retry : ClientOpts → Option BuildInfo → Option RetryConfig → Client
with_retry opts bi none = record {
  timeout = or_timeout opts.timeout;
  retry_count = opts.default_retry;
  retry_wait_time = default_wait_time;
  retry_max_wait_time = default_max_wait_time;
  retry_conditions = default_retry_condition ∷ [];
  user_agent = or_agent (user_agent bi) opts.user_agent;
}
with_retry opts bi (some retry) = record {
  timeout = or_timeout opts.timeout;
  retry_count = count_or opts.default_retry retry.count;
  retry_wait_time = positive_or default_wait_time retry.wait_time;
  retry_max_wait_time = positive_or default_max_wait_time retry.max_wait_time;
  retry_conditions = default_retry_condition ∷ retry_on_of retry.retry_on;
  user_agent = or_agent (user_agent bi) opts.user_agent;
}

unfoldable pub new_client : ClientOpts → Option BuildInfo → Client
unfolding user_agent default_retry_condition
new_client opts bi = with_retry opts bi opts.retry

unfoldable pub permanent_status : ℕ → Bool
permanent_status status =
    leb 400 status && ltb status 500 && not (status == 408) && not (status == 429)
