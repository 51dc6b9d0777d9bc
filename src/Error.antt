-- ===== src/Error.antt =====
-- Go errors as trees: pkg/event/errors.go and the error types of the other packages, with the
-- standard library's fmt.Errorf, errors.Join, errors.Is and errors.AsType as far as they are used.
pub mod Laws
use event_driven.Prelude.{
  ℕ, ◌++◌, Bytes, str, Bool, true, false, ◌||◌, Option, none, some, ◌==◌, is_some, List, [], ◌∷◌,
  if◌then◌else◌,
}

-- The package-level error variables, compared by identity.
pub data Sentinel : Type 0 where
  publication_failed no_route decode panic already_started invalid_correlation_id : Sentinel
  component_failed stopped_during_start too_many_attributes : Sentinel
  canceled deadline_exceeded consume_stopped : Sentinel

-- The identity of the variable.
abbrev pub sentinel_index : Sentinel → ℕ
sentinel_index publication_failed = 0
sentinel_index no_route = 1
sentinel_index decode = 2
sentinel_index panic = 3
sentinel_index already_started = 4
sentinel_index invalid_correlation_id = 5
sentinel_index component_failed = 6
sentinel_index stopped_during_start = 7
sentinel_index too_many_attributes = 8
sentinel_index canceled = 9
sentinel_index deadline_exceeded = 10
sentinel_index consume_stopped = 11

-- An error value of code outside the library: its identity, its text, and the detail it offers to
-- clients if it implements eventhttp.ClientError.
pub record Foreign : Type 0 where
  pub identity : ℕ
  pub text : Bytes
  pub client_detail : Option Bytes

mutual
  pub data Err : Type 0 where
    sentinel : Sentinel → Err
    foreign : Foreign → Err
    non_retryable : Err → Err
    panic_error : Err → Bytes → Err
    preflight_error : Err → Err
    validation_error : Err → Err
    errorf : Pieces → Err

  -- The format of an Errorf: literal text and %w verbs. Join is the verbs with a newline between.
  pub data Pieces : Type 0 where
    done : Pieces
    lit : Bytes → Pieces → Pieces
    verb : Err → Pieces → Pieces

-- A value, or the error that came instead of it.
pub data Result {ℓ} (A : Type ℓ) : Type ℓ where
  ok : A → Result A
  err : Err → Result A

unfoldable pub sentinel_text : Sentinel → Bytes
sentinel_text publication_failed = str "failed to publish message"
sentinel_text no_route = str "message does not match any route"
sentinel_text decode = str "payload decode failed"
sentinel_text panic = str "handler panicked"
sentinel_text already_started = str "event: already started"
sentinel_text invalid_correlation_id = str "invalid correlation id"
sentinel_text component_failed = str "lifecycle: component failed"
sentinel_text stopped_during_start = str "lifecycle: group stopped during start"
sentinel_text too_many_attributes = str "aws/sns: too many message attributes"
sentinel_text canceled = str "context canceled"
sentinel_text deadline_exceeded = str "context deadline exceeded"
sentinel_text consume_stopped = str "jetstream: consume stopped unexpectedly"

-- err.Error()
unfoldable mutual
  unfolding sentinel_text

  pub error_text : Err → Bytes
  error_text (sentinel s) = sentinel_text s
  error_text (foreign f) = f.text
  error_text (non_retryable e) = error_text e
  error_text (panic_error e stack) = error_text e
  error_text (preflight_error e) = error_text e
  error_text (validation_error e) = str "validation failed: " ++ error_text e
  error_text (errorf ps) = pieces_text ps

  pub pieces_text : Pieces → Bytes
  pieces_text done = []
  pieces_text (lit s ps) = s ++ pieces_text ps
  pieces_text (verb e ps) = error_text e ++ pieces_text ps

-- The first of two optional results.
abbrev pub or_else {ℓ} : {A : Type ℓ} → Option A → Option A → Option A
or_else none b = b
or_else (some a) b = some a

-- The walk of errors.Is and errors.AsType: the error itself, then what it unwraps to, in order.
module _ {A : Type 0} (test : Err → Option A) where
  unfoldable mutual
    pub find : Err → Option A
    find (sentinel s) = test (sentinel s)
    find (foreign f) = test (foreign f)
    find (non_retryable e) = or_else (test (non_retryable e)) (find e)
    find (panic_error e stack) = or_else (test (panic_error e stack)) (find e)
    find (preflight_error e) = or_else (test (preflight_error e)) (find e)
    find (validation_error e) = or_else (test (validation_error e)) (find e)
    find (errorf ps) = or_else (test (errorf ps)) (find_pieces ps)

    pub find_pieces : Pieces → Option A
    find_pieces done = none
    find_pieces (lit s ps) = find_pieces ps
    find_pieces (verb e ps) = or_else (find e) (find_pieces ps)

-- errors.AsType[*event.NonRetryableError], [*panicError], [*preflightError], [ClientError]
abbrev pub to_non_retryable : Err → Option Err
to_non_retryable (non_retryable e) = some e
to_non_retryable _ = none

abbrev pub to_panic_error : Err → Option (Err × Bytes)
to_panic_error (panic_error e stack) = some (e, stack)
to_panic_error _ = none

abbrev pub to_preflight_error : Err → Option Err
to_preflight_error (preflight_error e) = some e
to_preflight_error _ = none

-- ClientDetail(): validate.Error shows the text of the validator's error.
abbrev pub to_client_error : Err → Option Bytes
to_client_error (validation_error e) = some (error_text e)
to_client_error (foreign f) = f.client_detail
to_client_error _ = none

abbrev pub same_sentinel : Sentinel → Err → Option (Unit {0})
same_sentinel s (sentinel t) = if sentinel_index s == sentinel_index t then some tt else none
same_sentinel s _ = none

-- errors.Is with one of the library's error variables.
unfoldable pub is_sentinel : Sentinel → Err → Bool
unfolding find
is_sentinel s e = is_some (find (same_sentinel s) e)

unfoldable pub is_non_retryable : Err → Bool
unfolding find
is_non_retryable e = is_some (find to_non_retryable e)

-- errors.Join of two errors, and of a list: nil entries are dropped, and no entry gives nil.
unfoldable pub join_pieces : List Err → Pieces
join_pieces [] = done
join_pieces (e ∷ []) = verb e done
join_pieces (e ∷ es) = verb e (lit (str "\n") (join_pieces es))

unfoldable pub join : List Err → Option Err
unfolding join_pieces
join [] = none
join (e ∷ es) = some (errorf (join_pieces (e ∷ es)))

-- fmt.Errorf("prefix%w", e)
abbrev pub wrap : Bytes → Err → Err
wrap prefix e = errorf (lit prefix (verb e done))

-- fmt.Errorf("%w: %w", a, b)
abbrev pub wrap_two : Err → Err → Err
wrap_two a b = errorf (verb a (lit (str ": ") (verb b done)))
