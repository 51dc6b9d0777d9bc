-- ===== src/Lifecycle/Live.antt =====
-- The starts and stops of a group: what comes up is stopped again, the latest first.
use event_driven.Prelude.{
  not, ◌≡◌, refl, Bytes, Bool, true, false, Option, none, some, List, [], ◌∷◌, drop, arith, is_some,
  inl, inr, ◌⊎◌, if_true, if_false, if_both,
}
use event_driven.Error.{Err}
use event_driven.Lifecycle.{
  StopContext, callers, Starting, Member, World, report, report_all, stop_locked, stop, abort_start,
  stop_unaccounted, mark, interrupt, call_start, count_running, after_start, start_members, set_up,
  start, while_waiting, run_started, run,
}
use event_driven.Lifecycle.Order.{
  failed_stops, stop_locked-failed_stops, unstopped, join_with-is_some, unaccounted-is_some, IsLive,
  report-trace, report-group, report_all-trace, report_all-group, call_stop-unstopped,
  stop_locked-unstopped, top_down-next, drop-next,
}

module _ {S : Type 0} where
  -- While Start has brought up the members before ms.
  pub record InLoop (w : World S) (ms : List (Member S)) : Type 0 where
    pub open_ : w.group.started ≡ true
    pub rest : drop w.group.running w.group.members ≡ ms
    pub ordered : IsLive w

  -- The group is not started, and Stop has been called on all that came up.
  pub record IsOver (w : World S) : Type 0 where
    pub closed : w.group.started ≡ false
    pub none_runs : w.group.running ≡ 0
    pub none_left : unstopped w.trace ≡ some []

  pub stop_locked-IsOver :
      (ctx : StopContext) (w : World S) → IsLive w → IsOver (stop_locked ctx w).1
  unfolding stop_locked
  stop_locked-IsOver ctx w h = record {
    closed = refl;
    none_runs = refl;
    none_left = stop_locked-unstopped ctx w h;
  }

  abbrev OverAfter : Option Err × World S → Type 0
  OverAfter x = IsOver x.1

  IsOver-IsLive : (w : World S) → IsOver w → IsLive w
  IsOver-IsLive w h = rw h.none_runs h.none_left

  abbrev reported : Member S → Starting S → World S → World S
  reported m r w = report_all m.name r.reports (record w { outside = r.outside })

  -- After the Stop that may run while a component starts.
  interrupt-cases :
      (b : Bool) (w : World S) (ms : List (Member S))
      → InLoop w ms
      → InLoop (interrupt b w) ms ⊎ IsOver (interrupt b w)
  unfolding stop
  interrupt-cases true w ms h = inr (
      if_true OverAfter w.group.started (stop_locked callers w) (none, w) h.open_
        (stop_locked-IsOver callers w h.ordered))
  interrupt-cases false w ms h = inl h

  report_all-InLoop :
      (n : Bytes) (es : List Err) (w : World S) (ms : List (Member S))
      → InLoop w ms
      → InLoop (report_all n es w) ms
  report_all-InLoop n es w ms h = record {
    open_ = rw report_all-group h.open_;
    rest = rw report_all-group h.rest;
    ordered = rw report_all-group (rw report_all-trace h.ordered);
  }

  -- How Start ends: everything came up, or all that did has been stopped.
  abbrev pub Started : World S → Type 0
  Started w = (w.group.started ≡ true) × (drop w.group.running w.group.members ≡ []) × IsLive w

  abbrev pub Ended : Option Err × World S → Type 0
  Ended x = ((x.0 ≡ none) × Started x.1) ⊎ ((is_some x.0 ≡ true) × IsOver x.1)

  abort_start-Ended : (n : Bytes) (e : Err) (w : World S) → IsLive w → Ended (abort_start n e w)
  unfolding abort_start
  abort_start-Ended n e w h = inr (join_with-is_some _ _, stop_locked-IsOver _ w h)

  stop_unaccounted-Ended :
      (m : Member S) (w : World S)
      → w.group.started ≡ false
      → w.group.running ≡ 0
      → unstopped w.trace ≡ some (m.name ∷ [])
      → Ended (stop_unaccounted m w)
  unfolding stop_unaccounted
  stop_unaccounted-Ended m w c r h = inr (
    unaccounted-is_some m.name _,
    record {
      closed = rw report_all-group c;
      none_runs = rw report_all-group r;
      none_left = call_stop-unstopped _ m w [] h;
    },
  )

  -- The mark of the component's own Start.
  abbrev marked : Member S → Option Err → World S → World S
  marked m e w = record w { trace = mark m.name e ∷ w.trace }

  InLoop-next :
      (m : Member S) (ms : List (Member S)) (w : World S)
      → InLoop w (m ∷ ms)
      → InLoop (count_running (marked m none w)) ms
  InLoop-next m ms w h = record {
    open_ = h.open_;
    rest = drop-next w.group.running w.group.members m ms h.rest;
    ordered = rw (top_down-next w.group.running w.group.members [] m ms h.rest) (rw h.ordered refl);
  }

  after_start-Ended :
      (rest : World S → Option Err × World S) (m : Member S) (ms : List (Member S)) (e : Option Err)
      (w : World S)
      → ((w' : World S) → InLoop w' ms → Ended (rest w'))
      → InLoop w (m ∷ ms) ⊎ IsOver w
      → Ended (after_start rest m e (marked m e w))
  after_start-Ended rest m ms (some e) w k (inl h) = abort_start-Ended m.name e _ h.ordered
  after_start-Ended rest m ms (some e) w k (inr d) =
      abort_start-Ended m.name e _ (IsOver-IsLive w d)
  after_start-Ended rest m ms none w k (inl h) =
      if_true Ended w.group.started (rest (count_running (marked m none w)))
        (stop_unaccounted m (marked m none w)) h.open_ (k _ (InLoop-next m ms w h))
  after_start-Ended rest m ms none w k (inr d) =
      if_false Ended w.group.started (rest (count_running (marked m none w)))
        (stop_unaccounted m (marked m none w)) d.closed
        (stop_unaccounted-Ended m _ d.closed d.none_runs (rw d.none_left refl))

  start_members-Ended :
      (ms : List (Member S)) (w : World S) → InLoop w ms → Ended (start_members ms w)
  unfolding start_members call_start
  start_members-Ended [] w h = inl (refl, (h.open_, h.rest, h.ordered))
  start_members-Ended (m ∷ ms) w h =
      let r = m.c.start w.outside in
      after_start-Ended (start_members ms) m ms r.error (interrupt r.stop_called (reported m r w))
        (start_members-Ended ms)
        (interrupt-cases r.stop_called (reported m r w) (m ∷ ms) (
          report_all-InLoop m.name r.reports (record w { outside = r.outside }) (m ∷ ms)
            (record { open_ = h.open_; rest = h.rest; ordered = h.ordered })))

  -- Start of a group that is down either brings every component up, in the order of Add, or fails
  -- once Stop has been called on all that came up, the latest first, whether a component failed or the
  -- group was stopped meanwhile.
  pub start-Ended : (w : World S) → IsOver w → Ended (start w)
  unfolding start
  start-Ended w d =
      if_false Ended w.group.started (some _, w) (start_members w.group.members (set_up w)) d.closed
        (start_members-Ended w.group.members (set_up w)
          (record { open_ = refl; rest = refl; ordered = d.none_left }))

  stop-IsOver_lem : (ctx : StopContext) (w : World S) → Started w ⊎ IsOver w → IsOver (stop ctx w).1
  unfolding stop
  stop-IsOver_lem ctx w (inl s) =
      if_true OverAfter w.group.started (stop_locked ctx w) (none, w) s.0
        (stop_locked-IsOver ctx w s.2)
  stop-IsOver_lem ctx w (inr d) =
      if_false OverAfter w.group.started (stop_locked ctx w) (none, w) d.closed d

  -- Stop calls Stop on every component that came up, in the reverse of the order in which they came up,
  -- whether one of them fails or not, and it answers nil only where none failed.
  pub stop-IsOver :
      (ctx : StopContext) (w : World S)
      → Started w ⊎ IsOver w
      → IsOver (stop ctx w).1
        × ((stop ctx w).0 ≡ none → failed_stops (stop ctx w).1.trace ≡ failed_stops w.trace)
  unfolding stop
  stop-IsOver ctx w h = (
    stop-IsOver_lem ctx w h,
    if_both
        (λ (x : Option Err × World S). x.0 ≡ none → failed_stops x.1.trace ≡ failed_stops w.trace)
        w.group.started (stop_locked ctx w) (none, w) (stop_locked-failed_stops ctx w) (λ k. refl),
  )

  while_waiting-Started :
      (es : List (Bytes × Err)) (w : World S) → Started w → Started (while_waiting es w)
  while_waiting-Started [] w h = h
  while_waiting-Started ((n, e) ∷ es) w h =
      while_waiting-Started es (report n e w) (rw report-group (rw report-trace h))

  run_started-IsOver :
      (failures : List (Bytes × Err)) (ended fresh : Bool) (x : Option Err × World S)
      → Ended x
      → IsOver (run_started failures ended fresh x).1
  run_started-IsOver failures ended fresh (some e, w) h = ground arith
  run_started-IsOver failures ended fresh (none, w) (inl h) =
      stop-IsOver_lem _ (while_waiting failures w) (inl (while_waiting-Started failures w h.1))
  run_started-IsOver failures ended fresh (none, w) (inr h) = cc

  -- When Run returns, with an error or without, Stop has been called on every component that came up, in
  -- the reverse of the order in which they came up, and the group can be started again.
  pub run-IsOver :
      (failures : List (Bytes × Err)) (ended : Bool) (w : World S)
      → IsOver w
      → IsOver (run failures ended w).1
  unfolding run
  run-IsOver failures ended w d =
      run_started-IsOver failures ended (not w.group.started) (start w) (start-Ended w d)
