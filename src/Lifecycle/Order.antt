-- ===== src/Lifecycle/Order.antt =====
-- The calls of a group as a stack: what came up last is stopped first.
use event_driven.Prelude.{
  ℕ, zero, suc, ◌≡◌, refl, ap, ◌∙◌, ◌++◌, Bytes, bytes_eq, bytes_eq_refl, if◌then◌else◌, true,
  Option, none, some, List, [], ◌∷◌, drop, arith, is_some,
}
use event_driven.Error.{Err, join}
use event_driven.Lifecycle.{
  StopContext, Member, Call, came_up, start_failed, stopped, stop_failed, stop_mark, World, report,
  report_all, call_stop, top_down, stop_members, set_stopping, stop_locked,
}
use event_driven.Lifecycle.Errors.{stop_error, join_with, unaccounted_error}

-- A stop must be that of the name on top.
abbrev pub pop : Bytes → Option (List Bytes) → Option (List Bytes)
pop n none = none
pop n (some []) = none
pop n (some (m ∷ ms)) = if bytes_eq m n then some ms else none

abbrev pub push : Bytes → Option (List Bytes) → Option (List Bytes)
push n none = none
push n (some ms) = some (n ∷ ms)

-- The components that came up and whose Stop has not been called since, the latest first; none if the
-- order was broken. A Stop that failed has been called.
abbrev pub unstopped : List Call → Option (List Bytes)
unstopped [] = some []
unstopped (came_up n ∷ t) = push n (unstopped t)
unstopped (start_failed n ∷ t) = unstopped t
unstopped (stopped n ∷ t) = pop n (unstopped t)
unstopped (stop_failed n ∷ t) = pop n (unstopped t)

-- How many Stops failed.
abbrev pub failed_stops : List Call → ℕ
failed_stops [] = 0
failed_stops (came_up n ∷ t) = failed_stops t
failed_stops (start_failed n ∷ t) = failed_stops t
failed_stops (stopped n ∷ t) = failed_stops t
failed_stops (stop_failed n ∷ t) = suc (failed_stops t)

stop_error-nil :
    (n : Bytes) (e : Option Err) (rest : List Err) (t : List Call)
    → stop_error n e ++ rest ≡ []
    → (failed_stops (stop_mark n e ∷ t) ≡ failed_stops t) × (rest ≡ [])
stop_error-nil n none rest t h = (refl, h)
stop_error-nil n (some e) rest t h = cc

join-none : (es : List Err) → join es ≡ none → es ≡ []
unfolding join
join-none [] h = refl
join-none (e ∷ es) h = cc

pop_top : (n : Bytes) (ns : List Bytes) → pop n (some (n ∷ ns)) ≡ some ns
pop_top n ns = rw (bytes_eq_refl n) refl

stop_mark-unstopped :
    (n : Bytes) (e : Option Err) (t : List Call)
    → unstopped (stop_mark n e ∷ t) ≡ pop n (unstopped t)
stop_mark-unstopped n none t = refl
stop_mark-unstopped n (some e) t = refl

pub join_with-is_some : (e : Err) (o : Option Err) → is_some (join_with e o) ≡ true
unfolding join
join_with-is_some e none = refl
join_with-is_some e (some e') = refl

pub unaccounted-is_some : (n : Bytes) (o : Option Err) → is_some (unaccounted_error n o) ≡ true
unfolding join
unaccounted-is_some n none = refl
unaccounted-is_some n (some e) = refl

module _ {S : Type 0} where
  abbrev pub names : List (Member S) → List Bytes
  names [] = []
  names (m ∷ ms) = m.name ∷ names ms

  -- What should be up: the running members, the latest first.
  abbrev pub up : World S → List Bytes
  up w = names (top_down w.group.running w.group.members [])

  abbrev pub IsLive : World S → Type 0
  IsLive w = unstopped w.trace ≡ some (up w)

  pub report-trace : (n : Bytes) (e : Err) (w : World S) → (report n e w).trace ≡ w.trace
  unfolding report
  report-trace n e w = ground arith

  pub report-group : (n : Bytes) (e : Err) (w : World S) → (report n e w).group ≡ w.group
  unfolding report
  report-group n e w = ground arith

  pub report_all-trace :
      (n : Bytes) (es : List Err) (w : World S) → (report_all n es w).trace ≡ w.trace
  unfolding report_all
  report_all-trace n [] w = refl
  report_all-trace n (e ∷ es) w = report_all-trace n es (report n e w) ∙ report-trace n e w

  pub report_all-group :
      (n : Bytes) (es : List Err) (w : World S) → (report_all n es w).group ≡ w.group
  unfolding report_all
  report_all-group n [] w = refl
  report_all-group n (e ∷ es) w = report_all-group n es (report n e w) ∙ report-group n e w

  pub call_stop-unstopped :
      (ctx : StopContext) (m : Member S) (w : World S) (ns : List Bytes)
      → unstopped w.trace ≡ some (m.name ∷ ns)
      → unstopped (call_stop ctx m w).1.trace ≡ some ns
  call_stop-unstopped ctx m w ns h =
      rw report_all-trace (
        stop_mark-unstopped m.name (m.c.stop ctx w.outside).error w.trace
        ∙ rw h (pop_top m.name ns))

  stop_members-unstopped :
      (ctx : StopContext) (ms : List (Member S)) (w : World S)
      → unstopped w.trace ≡ some (names ms)
      → unstopped (stop_members ctx ms w).1.trace ≡ some []
  unfolding stop_members
  stop_members-unstopped ctx [] w h = h
  stop_members-unstopped ctx (m ∷ ms) w h =
      stop_members-unstopped ctx ms (call_stop ctx m w).1 (call_stop-unstopped ctx m w (names ms) h)

  stop_members-failed_stops :
      (ctx : StopContext) (ms : List (Member S)) (w : World S)
      → (stop_members ctx ms w).0 ≡ []
      → failed_stops (stop_members ctx ms w).1.trace ≡ failed_stops w.trace
  unfolding stop_members
  stop_members-failed_stops ctx [] w h = refl
  stop_members-failed_stops ctx (m ∷ ms) w h =
      let r = call_stop ctx m w in
      let (clean, rest) = stop_error-nil m.name r.0 (stop_members ctx ms r.1).0 w.trace h in
      stop_members-failed_stops ctx ms r.1 rest
      ∙ ap failed_stops (report_all-trace m.name (m.c.stop ctx w.outside).reports _)
      ∙ clean

  pub stop_locked-failed_stops :
      (ctx : StopContext) (w : World S)
      → (stop_locked ctx w).0 ≡ none
      → failed_stops (stop_locked ctx w).1.trace ≡ failed_stops w.trace
  unfolding stop_locked
  stop_locked-failed_stops ctx w h =
      let ms = top_down w.group.running w.group.members [] in
      stop_members-failed_stops ctx ms (set_stopping w)
        (join-none (stop_members ctx ms (set_stopping w)).0 h)

  pub stop_locked-unstopped :
      (ctx : StopContext) (w : World S) → IsLive w → unstopped (stop_locked ctx w).1.trace ≡ some []
  unfolding stop_locked
  stop_locked-unstopped ctx w h =
      stop_members-unstopped ctx (top_down w.group.running w.group.members []) (set_stopping w) h

  pub top_down-next :
      (n : ℕ) (xs above : List (Member S)) (m : Member S) (ms : List (Member S))
      → drop n xs ≡ m ∷ ms
      → top_down (suc n) xs above ≡ m ∷ top_down n xs above
  top_down-next zero [] above m ms h = cc
  top_down-next zero (x ∷ xs) above m ms h = cc
  top_down-next (suc n) [] above m ms h = cc
  top_down-next (suc n) (x ∷ xs) above m ms h = top_down-next n xs (x ∷ above) m ms h

  pub drop-next :
      (n : ℕ) (xs : List (Member S)) (m : Member S) (ms : List (Member S))
      → drop n xs ≡ m ∷ ms
      → drop (suc n) xs ≡ ms
  drop-next zero [] m ms h = cc
  drop-next zero (x ∷ xs) m ms h = cc
  drop-next (suc n) [] m ms h = cc
  drop-next (suc n) (x ∷ xs) m ms h = drop-next n xs m ms h
