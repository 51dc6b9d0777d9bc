-- ===== src/Http/Forward/Permanent.antt =====
-- Which publish errors are final.
use event_driven.Prelude.{ℕ, ◌≤◌, ◌≡◌, ◌↔◌, ◌≢◌, arith, false, true, Bool, Option, none, some}
use event_driven.Error.{Err, ok, is_non_retryable, find}
use event_driven.Event.CloudEvents.{CloudEvents}
use event_driven.Http.Client.{permanent_status, default_retry_condition}
use event_driven.Http.Forward.{Wire, Publisher, after_post}

abbrev pub final_error : Option Err → Bool
final_error none = false
final_error (some e) = is_non_retryable e

module _ {sdk : CloudEvents} {S : Type 0} (wire : Wire sdk S) (p : Publisher S) where
  -- The answer of the endpoint ends a publish with an error exactly where its status is 400 or
  -- above. The error is marked as final exactly for the client errors 400 to 499 but a request timeout
  -- (408) and too many requests (429); so no status that the HTTP client retries by default makes a
  -- publish fail for good.
  pub after_post-final :
      (status : ℕ)
      → ((after_post wire p (ok status) ≡ none) ↔ (status ≤ 399))
        × ((final_error (after_post wire p (ok status)) ≡ true)
            ↔ ((400 ≤ status) × (status ≤ 499) × (status ≢ 408) × (status ≢ 429)))
        × (default_retry_condition (some status) none ≡ true
            → final_error (after_post wire p (ok status)) ≡ false)
  unfolding is_non_retryable find permanent_status default_retry_condition
  after_post-final status = (ground arith, ground arith, ground arith)
