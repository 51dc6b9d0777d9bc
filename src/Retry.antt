-- ===== src/Retry.antt =====
-- pkg/middleware/retry/retry.go: the middleware that calls a handler again after a transient failure.
-- A duration is its number of nanoseconds, an int64.
pub mod Delay
pub mod Calls
use event_driven.Prelude.{
  ℕ, zero, suc, ◌+◌, ◌-◌, ◌*◌, ◌/◌, ◌%◌, ◌^◌, ltb, leb, ◌==◌, if◌then◌else◌, Bytes, str, Bool, true,
  false, ◌&&◌, ◌||◌, not, Option, none, some, List, [], ◌∷◌, Called, returned, panicked, Outside, ℤ,
  pos, ltb_ℤ, to_ℕ,
}
use event_driven.Error.{Err, is_non_retryable}
use event_driven.Event.Message.{Context}
use event_driven.Mux.Types.{Reply, HandlerFunc, TotalMiddleware, Local}

-- What the middleware takes from outside: rand.Float64()·delay·0.2 as a duration, the record of
-- WithLogger, and the select on the clock and the context, which gives ctx.Err() if that ends first.
pub record Waiting (S : Type 0) : Type 0 where
  pub jitter : ℕ → S → ℕ × S
  pub warn : Err → ℕ → ℕ → S → S
  pub sleep : Context → ℕ → S → Option Err × S

pub record Options : Type 0 where
  pub logger : Bool
  pub skip_on_redelivery : Bool

abbrev pub with_logger : Options → Options
with_logger o = record o { logger = true }

abbrev pub skip_on_redelivery : Options → Options
skip_on_redelivery o = record o { skip_on_redelivery = true }

abbrev pub apply_options : List (Options → Options) → Options → Options
apply_options [] o = o
apply_options (opt ∷ opts) o = apply_options opts (opt o)

pub record Policy : Type 0 where
  pub options : Options
  pub base : ℕ
  pub max_delay : ℕ
  pub max_retries : ℕ

unfoldable pub delay_for : ℕ → ℕ → ℕ → ℕ
delay_for base_delay max_delay attempt =
    if leb 62 attempt || ltb (max_delay / 2 ^ attempt) base_delay
    then max_delay
    else base_delay * 2 ^ attempt % 2 ^ 64

unfoldable pub jittered : ℕ → ℕ → ℕ → ℕ
jittered jitter delay max_delay =
    let room = max_delay - delay in (delay + (if ltb room jitter then room else jitter)) % 2 ^ 64

abbrev pub more_than_one : Option ℕ → Bool
more_than_one none = false
more_than_one (some count) = ltb 1 count

unfoldable pub redelivered : Context → Bool
redelivered ctx = more_than_one ctx.delivery_count

unfoldable pub retries_for : Policy → Context → ℕ
unfolding redelivered
retries_for b ctx = if b.options.skip_on_redelivery && redelivered ctx then 0 else b.max_retries

module _ {S : Type 0} (env : Waiting S) where
  -- A sleep of the jittered delay: the context's error where that ends first.
  unfoldable pub wait : Policy → Context → ℕ → Err → Local S → Option Err × Local S
  unfolding delay_for jittered
  wait b ctx attempt cause l =
      let jitter = env.jitter (delay_for b.base b.max_delay attempt) l.outside in
      let delay = jittered jitter.0 (delay_for b.base b.max_delay attempt) b.max_delay in
      let warned =
        if b.options.logger then env.warn cause (attempt + 1) delay jitter.1 else jitter.1 in
      let slept = env.sleep ctx delay warned in (slept.0, record l { outside = slept.1 })

  -- What follows a wait: the context's error, or the rest of the loop.
  abbrev pub after_wait :
      (Local S → Called Reply × Local S) → Option Err × Local S → Called Reply × Local S
  after_wait again (some werr, l) = (returned (none, some werr), l)
  after_wait again (none, l) = again l

  -- What follows a call of the handler, when `left` retries remain.
  abbrev pub after_call :
      Policy
      → Context
      → ℕ
      → ℕ
      → (Local S → Called Reply × Local S)
      → Called Reply × Local S
      → Called Reply × Local S
  after_call b ctx left attempt again (panicked v, l) = (panicked v, l)
  after_call b ctx left attempt again (returned (value, none), l) = (returned (value, none), l)
  after_call b ctx left attempt again (returned (value, some err), l) =
      if left == 0 || is_non_retryable err
      then (returned (none, some err), l)
      else after_wait again (wait b ctx attempt err l)

module _ {S A : Type 0} (env : Waiting S) where
  -- The loop on `attempt`; `left` is `retries - attempt`, so `attempt == retries` is `left == 0`,
  -- where the loop ends and nothing comes after the call.
  unfoldable pub attempts :
      Policy → HandlerFunc S A → Context → A → ℕ → ℕ → Local S → Called Reply × Local S
  unfolding wait
  attempts b next ctx payload zero attempt l =
      after_call env b ctx 0 attempt (λ l'. (returned (none, none), l')) (next ctx payload l)
  attempts b next ctx payload (suc left) attempt l =
      after_call env b ctx (suc left) attempt (attempts b next ctx payload left (suc attempt))
        (next ctx payload l)

  unfoldable pub run : Policy → HandlerFunc S A → HandlerFunc S A
  unfolding attempts retries_for
  run b next ctx payload l = attempts b next ctx payload (retries_for b ctx) 0 l

  -- The middleware, or the panic on an invalid configuration.
  unfoldable pub backoff : ℤ → ℤ → ℤ → List (Options → Options) → Called (TotalMiddleware S A)
  unfolding run
  backoff base_delay max_delay max_retries opts =
      if ltb_ℤ max_retries (pos 0) || not (ltb_ℤ (pos 0) base_delay) || ltb_ℤ max_delay base_delay
      then panicked (str "retry: invalid config")
      else returned (
          run (record {
            options = apply_options opts (record { logger = false; skip_on_redelivery = false });
            base = to_ℕ base_delay;
            max_delay = to_ℕ max_delay;
            max_retries = to_ℕ max_retries;
          }))
