-- ===== src/Error/Laws.antt =====
-- What wrapping does to errors.Is and errors.AsType.
use event_driven.Prelude.{◌≡◌, Bytes, ◌||◌, arith}
use event_driven.Error.{Err, is_non_retryable, wrap, wrap_two, Sentinel, is_sentinel}

-- A wrapped error is non-retryable exactly when what it wraps is.
pub is_non_retryable-wrap : (s : Bytes) (e : Err) → is_non_retryable (wrap s e) ≡ is_non_retryable e
unfolding is_non_retryable
is_non_retryable-wrap s e = ground arith

pub is_non_retryable-wrap_two :
    (a b : Err) → is_non_retryable (wrap_two a b) ≡ (is_non_retryable a || is_non_retryable b)
unfolding is_non_retryable
is_non_retryable-wrap_two a b = ground arith

pub is_sentinel-wrap :
    (t : Sentinel) (s : Bytes) (e : Err) → is_sentinel t (wrap s e) ≡ is_sentinel t e
unfolding is_sentinel
is_sentinel-wrap t s e = ground arith
