-- ===== src/Middlewares.antt =====
-- pkg/middleware/skiperr/skiperr.go and pkg/middleware/validate/validate.go: the other middlewares.
-- Log records are left out; the validator is a parameter.
pub mod Skips
use event_driven.Prelude.{
  ℕ, if◌then◌else◌, Bytes, Bool, true, false, Option, none, some, is_some, List, [], ◌∷◌, Called,
  returned, panicked,
}
use event_driven.Error.{Err, Sentinel, is_sentinel, find, validation_error}
use event_driven.Event.Message.{Context}
use event_driven.Mux.Types.{Reply, HandlerFunc, TotalMiddleware, Local}

pub record Predicate : Type 0 where
  pub description : Bytes
  pub matches : Err → Bool

unfoldable pub by_err : Bytes → Sentinel → Predicate
unfolding is_sentinel
by_err name target = record { description = name; matches = is_sentinel target }

-- `as_type` is the type: how one error is asserted to be of it.
unfoldable pub by_type : {T : Type 0} → Bytes → (Err → Option T) → Predicate
unfolding find
by_type name as_type = record { description = name; matches = λ e. is_some (find as_type e) }

-- The loop over the predicates.
unfoldable pub skipped : List Predicate → Option Bytes → Err → Reply
skipped [] result e = (result, some e)
skipped (predicate ∷ predicates) result e =
    if predicate.matches e then (result, none) else skipped predicates result e

-- What the middleware makes of the reply of the next handler.
abbrev pub after_reply : List Predicate → Reply → Reply
after_reply predicates (result, none) = (result, none)
after_reply predicates (result, some e) = skipped predicates result e

module _ {S : Type 0} where
  abbrev pub after_next : List Predicate → Called Reply × Local S → Called Reply × Local S
  after_next predicates (panicked v, l) = (panicked v, l)
  after_next predicates (returned reply, l) = (returned (after_reply predicates reply), l)

  abbrev pub if_valid :
      Option Err → (Local S → Called Reply × Local S) → Local S → Called Reply × Local S
  if_valid (some e) rest l = (returned (none, some (validation_error e)), l)
  if_valid none rest l = rest l

module _ {S A : Type 0} where
  -- Skipper.Middleware
  unfoldable pub skip_middleware : List Predicate → TotalMiddleware S A
  unfolding skipped
  skip_middleware predicates next ctx payload l = after_next predicates (next ctx payload l)

  -- validate.New, with the validator's Struct.
  unfoldable pub validate_middleware : (A → Option Err) → TotalMiddleware S A
  validate_middleware check next ctx payload l = if_valid (check payload) (next ctx payload) l
