-- ===== src/Lifecycle/Errors.antt =====
-- The errors of pkg/kit/lifecycle/group.go and how failures are joined.
use event_driven.Prelude.{if◌then◌else◌, Bytes, str, Bool, Option, none, some, List, [], ◌∷◌}
use event_driven.Error.{
  Err, sentinel, errorf, lit, verb, done, component_failed, stopped_during_start, join,
}

abbrev pub stop_error : Bytes → Option Err → List Err
stop_error name none = []
stop_error name (some err) =
    errorf (lit (str "lifecycle: stop ") (lit name (lit (str ": ") (verb err done)))) ∷ []

abbrev pub start_error : Bytes → Err → Err
start_error name err =
    errorf (lit (str "lifecycle: start ") (lit name (lit (str ": ") (verb err done))))

-- errors.Join of an error and one that may be nil.
abbrev pub join_with : Err → Option Err → Option Err
join_with e none = join (e ∷ [])
join_with e (some e') = join (e ∷ e' ∷ [])

abbrev pub unaccounted_error : Bytes → Option Err → Option Err
unaccounted_error name none = some (start_error name (sentinel stopped_during_start))
unaccounted_error name (some err) =
    join (start_error name (sentinel stopped_during_start) ∷ stop_error name (some err))

abbrev pub fatal_error : Bytes → Err → Err
fatal_error name err =
    errorf (
      verb (sentinel component_failed) (lit (str ": ") (lit name (lit (str ": ") (verb err done)))))

-- once.Do: what onFatal has received already, or else this failure.
abbrev pub first_failure : Bytes → Err → Option Err → Option Err
first_failure name err (some e) = some e
first_failure name err none = some (fatal_error name err)

abbrev pub joined_failure : Option Err → Option Err → Option Err
joined_failure none e = e
joined_failure (some f) e = join_with f e

abbrev pub run_aborted : Bool → Err → Option Err → Option Err
run_aborted ctx_ended e (some f) = join_with f (some e)
run_aborted ctx_ended e none = if ctx_ended then none else some e
