-- ===== src/Http/Client/Statuses.antt =====
-- Which failed publishes are tried again, and by whom.
use event_driven.Prelude.{ℕ, ◌≤◌, ◌≡◌, ◌≢◌, arith, true, false, none, some, ◌↔◌}
use event_driven.Http.Client.{default_retry_condition, permanent_status}

-- A failure status makes the publish error permanent exactly where the client does not retry it and
-- it is not a request timeout: no status is retried by the client and then called permanent.
pub permanent_status_iff :
    (status : ℕ)
    → 400 ≤ status
    → ((permanent_status status ≡ true)
        ↔ ((default_retry_condition (some status) none ≡ false) × (status ≢ 408)))
unfolding permanent_status default_retry_condition
permanent_status_iff status h = ground arith
