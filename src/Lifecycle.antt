-- ===== src/Lifecycle.antt =====
-- pkg/kit/lifecycle/group.go and lifecycle.go: components started in order and stopped in reverse.
-- The group's lock makes each operation one step; what components and other goroutines do while a
-- component starts is part of that component's answer. A panic of a component ends the process.
pub mod Errors
pub mod Order
pub mod Live
pub mod Reports
use event_driven.Prelude.{
  ℕ, zero, suc, ◌+◌, ltb, if◌then◌else◌, Bytes, str, is_empty, Bool, true, false, not, Option, none,
  some, List, [], ◌∷◌, ◌++◌, Called, returned, panicked, ℤ, pos, negsuc, ltb_ℤ,
}
use event_driven.Error.{
  Err, sentinel, errorf, Pieces, lit, verb, done, component_failed, stopped_during_start, join,
  wrap, deadline_exceeded,
}
use event_driven.Lifecycle.Errors.{
  stop_error, start_error, join_with, unaccounted_error, fatal_error, first_failure, joined_failure,
  run_aborted,
}

-- The context of a stop: the caller's, or one with a deadline of the group.
pub data StopContext : Type 0 where
  callers : StopContext
  within : ℕ → StopContext

-- What happens in a component's Start: its error, the failures it reports before it returns, and
-- whether the group's Stop was called meanwhile (by onFatal, or by another goroutine).
pub record Starting (S : Type 0) : Type 0 where
  pub error : Option Err
  pub reports : List Err
  pub stop_called : Bool
  pub outside : S

-- In Stop: the error, the failures it reports, and the outside world.
pub record Stopping (S : Type 0) : Type 0 where
  pub error : Option Err
  pub reports : List Err
  pub outside : S

pub record Component (S : Type 0) : Type 0 where
  pub start : S → Starting S
  pub stop : StopContext → S → Stopping S

pub record Member (S : Type 0) : Type 0 where
  pub name : Bytes
  pub c : Component S

pub record Group (S : Type 0) : Type 0 where
  pub shutdown_timeout : ℕ
  pub members : List (Member S)
  pub started : Bool
  pub running : ℕ
  pub stopping : Bool

-- What the group did with its components, by name.
pub data Call : Type 0 where
  came_up start_failed stopped stop_failed : Bytes → Call

-- `fatal` is the error that the Once of the last Start let through to onFatal; `trace` has the latest call first.
pub record World (S : Type 0) : Type 0 where
  pub group : Group S
  pub outside : S
  pub fatal : Option Err
  pub trace : List Call

abbrev pub stop_mark : Bytes → Option Err → Call
stop_mark name none = stopped name
stop_mark name (some e) = stop_failed name

abbrev pub mark : Bytes → Option Err → Call
mark name none = came_up name
mark name (some e) = start_failed name

-- Nanoseconds: 25 s.
abbrev pub default_shutdown_timeout : ℕ
default_shutdown_timeout = 25000000000

abbrev pub positive_or_default : ℤ → ℕ
positive_or_default (pos zero) = default_shutdown_timeout
positive_or_default (pos (suc n)) = suc n
positive_or_default (negsuc n) = default_shutdown_timeout

module _ {S : Type 0} where
  unfoldable pub new_group : ℤ → Group S
  new_group timeout = record {
    shutdown_timeout = positive_or_default timeout;
    members = [];
    started = false;
    running = 0;
    stopping = false;
  }

  -- A nil component is `none`.
  unfoldable pub add : Bytes → Option (Component S) → World S → Called (Unit {0}) × World S
  add name none w = (panicked (str "lifecycle: Add of a nil component"), w)
  add name (some c) w =
      if is_empty name
      then (panicked (str "lifecycle: Add with an empty name"), w)
      else if w.group.started
      then (panicked (str "lifecycle: Add after Start"), w)
      else (
        returned tt,
        record w {
          group = record (w.group) {
            members = w.group.members ++ (record { name = name; c = c } ∷ []);
          };
        },
      )

  -- The report that Start hands to the component of this name: the group drops it while it stops,
  -- and lets only the first of a Start through to onFatal.
  unfoldable pub report : Bytes → Err → World S → World S
  report name err w =
      if w.group.stopping then w else record w { fatal = first_failure name err w.fatal }

  unfoldable pub report_all : Bytes → List Err → World S → World S
  unfolding report
  report_all name [] w = w
  report_all name (e ∷ es) w = report_all name es (report name e w)

  -- m.c.Stop(ctx)
  abbrev pub call_stop : StopContext → Member S → World S → Option Err × World S
  call_stop ctx m w =
      let r = m.c.stop ctx w.outside in
      (
        r.error,
        report_all m.name r.reports
            (record w { outside = r.outside; trace = stop_mark m.name r.error ∷ w.trace }),
      )

  -- members[n-1] down to members[0].
  abbrev pub top_down : ℕ → List (Member S) → List (Member S) → List (Member S)
  top_down zero ms above = above
  top_down (suc n) [] above = above
  top_down (suc n) (m ∷ ms) above = top_down n ms (m ∷ above)

  unfoldable pub stop_members : StopContext → List (Member S) → World S → List Err × World S
  unfolding report_all
  stop_members ctx [] w = ([], w)
  stop_members ctx (m ∷ ms) w =
      let r = call_stop ctx m w in
      let rest = stop_members ctx ms r.1 in (stop_error m.name r.0 ++ rest.0, rest.1)

  abbrev pub set_stopping : World S → World S
  set_stopping w = record w { group = record (w.group) { stopping = true } }

  abbrev pub set_down : World S → World S
  set_down w = record w { group = record (w.group) { started = false; running = 0 } }

  unfoldable pub stop_locked : StopContext → World S → Option Err × World S
  unfolding stop_members join
  stop_locked ctx w =
      let r = stop_members ctx (top_down w.group.running w.group.members []) (set_stopping w) in
      (join r.0, set_down r.1)

  unfoldable pub stop : StopContext → World S → Option Err × World S
  unfolding stop_locked
  stop ctx w = if w.group.started then stop_locked ctx w else (none, w)

  unfoldable pub abort_start : Bytes → Err → World S → Option Err × World S
  unfolding stop_locked join
  abort_start name err w =
      let r = stop_locked (within w.group.shutdown_timeout) w in
      (join_with (start_error name err) r.0, r.1)

  unfoldable pub stop_unaccounted : Member S → World S → Option Err × World S
  unfolding report_all join
  stop_unaccounted m w =
      let r = call_stop (within w.group.shutdown_timeout) m w in (unaccounted_error m.name r.0, r.1)

  abbrev pub interrupt : Bool → World S → World S
  interrupt true w = (stop callers w).1
  interrupt false w = w

  -- m.c.Start(ctx, report(m.name)): the component is up when its Start returns.
  unfoldable pub call_start : Member S → Starting S → World S → World S
  unfolding report_all stop
  call_start m r w =
      let w' =
        interrupt r.stop_called (report_all m.name r.reports (record w { outside = r.outside })) in
      record w' { trace = mark m.name r.error ∷ w'.trace }

  abbrev pub count_running : World S → World S
  count_running w = record w { group = record (w.group) { running = suc w.group.running } }

  abbrev pub after_start :
      (World S → Option Err × World S) → Member S → Option Err → World S → Option Err × World S
  after_start rest m (some err) w = abort_start m.name err w
  after_start rest m none w =
      if w.group.started then rest (count_running w) else stop_unaccounted m w

  unfoldable pub start_members : List (Member S) → World S → Option Err × World S
  unfolding call_start abort_start stop_unaccounted
  start_members [] w = (none, w)
  start_members (m ∷ ms) w =
      let r = m.c.start w.outside in after_start (start_members ms) m r.error (call_start m r w)

  -- The group's state, and a new Once, at the beginning of Start.
  abbrev pub set_up : World S → World S
  set_up w = record w {
    group = record (w.group) { started = true; running = 0; stopping = false };
    fatal = none;
  }

  unfoldable pub start : World S → Option Err × World S
  unfolding start_members
  start w =
      if w.group.started
      then (some (errorf (lit (str "lifecycle: already started") done)), w)
      else start_members w.group.members (set_up w)

  -- What happens while Run waits: failures that components report, by name.
  abbrev pub while_waiting : List (Bytes × Err) → World S → World S
  while_waiting [] w = w
  while_waiting ((name, err) ∷ es) w = while_waiting es (report name err w)

  -- `fresh`: the Start was not refused, so that the failures are those of this Run.
  abbrev pub run_started :
      List (Bytes × Err) → Bool → Bool → Option Err × World S → Option Err × World S
  run_started failures ctx_ended fresh (some e, w) =
      (run_aborted ctx_ended e (if fresh then w.fatal else none), w)
  run_started failures ctx_ended fresh (none, w) =
      let r = stop (within w.group.shutdown_timeout) (while_waiting failures w) in
      (joined_failure r.1.fatal r.0, r.1)

  -- Run: `ctx_ended` tells whether its context had ended when Start returned.
  unfoldable pub run : List (Bytes × Err) → Bool → World S → Option Err × World S
  unfolding start stop report
  run failures ctx_ended w = run_started failures ctx_ended (not w.group.started) (start w)

-- Closer: the Once, and what the select on fn and the context gives in the first Stop.
unfoldable pub closer_stop :
    {S : Type 0} → (S → Option Err × S) → Bool → Bool × S → Option Err × Bool × S
closer_stop fn expired (true, s) = (none, true, s)
closer_stop fn expired (false, s) =
    let r = fn s in
    (
      if expired then some (wrap (str "lifecycle: close: ") (sentinel deadline_exceeded)) else r.0,
      true,
      r.1,
    )
