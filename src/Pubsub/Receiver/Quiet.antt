-- ===== src/Pubsub/Receiver/Quiet.antt =====
-- The end of a receive loop that a Stop has cancelled.
use event_driven.Prelude.{
  ℕ, ◌==◌, refl, ◌≡◌, arith, ap, sym, ◌∙◌, Bool, true, false, Option, none, some, is_some, List,
  if_both, Bytes,
}
use event_driven.Error.{Err}
use event_driven.Runs.{count, member, spawn, finish, mark}
use event_driven.Runs.Laws.{clear-fields}
use event_driven.Pubsub.Receiver.{
  Client, Subscriber, start, after_lookup, receive_returns, receive_outcome, error_of, add_report,
  report, report_error, tell, tell_error, forget, stop_begin, cancel_current, stop_end,
}
use event_driven.Pubsub.Receiver.Steps.{
  numbers, Step, starts, cancels, waits, expires, returns, looks, tells, count-forget, Reach, here,
  next,
}

module _ {S : Type 0} (client : Client S) where
  -- A Stop has cancelled loop n, which has not found its end to be a failure before.
  abbrev pub IsQuiet : ℕ → Subscriber S → Type 0
  IsQuiet n sub =
      (member n sub.runs.stopped ≡ true)
      × (count n (numbers sub.failed) ≡ 0)
      × (count n (numbers sub.reports) ≡ 0)

  quiet_report :
      (n m : ℕ) (b : Bool) (id : Bytes) (e : Option Err) (reports : List (ℕ × Err))
      → (n ≡ m → b ≡ true)
      → count n (numbers reports) ≡ 0
      → count n (numbers (add_report m (receive_outcome b id e) reports)) ≡ 0
  unfolding count receive_outcome
  quiet_report n m true id none reports k h = h
  quiet_report n m true id (some e) reports k h = h
  quiet_report n m false id none reports k h = h
  quiet_report n m false id (some e) reports k h = ground (arith, k, h)

  report_error-IsQuiet :
      (n m : ℕ) (sub : Subscriber S) (o : Option (Option Err))
      → IsQuiet n sub
      → IsQuiet n (report_error m sub o)
  report_error-IsQuiet n m sub none h = h
  report_error-IsQuiet n m sub (some e) h = (
    h.0,
    quiet_report n m (member m sub.runs.stopped) sub.cfg.subscription_id e sub.failed
        (λ k. rw (sym k) h.0) h.1,
    h.2,
  )

  quiet_tell :
      (n m : ℕ) (e : Err) (failed : List (ℕ × Err))
      → error_of m failed ≡ some e
      → count n (numbers failed) ≡ 0
      → (count n (numbers (forget m failed)) ≡ 0) × ((n == m) ≡ false)
  unfolding count
  quiet_tell n m e failed k h = (
    ground (arith, h, count-forget client n m e failed k),
    ground (arith, h, count-forget client n m e failed k),
  )

  tell_error-IsQuiet :
      (n m : ℕ) (sub : Subscriber S) (o : Option Err)
      → error_of m sub.failed ≡ o
      → IsQuiet n sub
      → IsQuiet n (tell_error m sub o)
  unfolding count
  tell_error-IsQuiet n m sub none k h = h
  tell_error-IsQuiet n m sub (some e) k h =
      let (gone, other) = quiet_tell n m e sub.failed k h.1 in
      (h.0, gone, ground (arith, other, h.2))

  after_lookup-IsQuiet :
      (n : ℕ) (sub : Subscriber S) (x : Option Err × S)
      → IsQuiet n sub
      → IsQuiet n (after_lookup client sub x).1
  unfolding spawn
  after_lookup-IsQuiet n sub (some e, s) h = h
  after_lookup-IsQuiet n sub (none, s) h = h

  cancel_current-IsQuiet :
      (n : ℕ) (sub : Subscriber S) (o : Option ℕ)
      → IsQuiet n sub
      → IsQuiet n (cancel_current sub o).1
  unfolding mark member count
  cancel_current-IsQuiet n sub none h = h
  cancel_current-IsQuiet n sub (some m) h = (ground (arith, h.0), h.1, h.2)

  Step-IsQuiet : (n : ℕ) {t u : Subscriber S} → Step client t u → IsQuiet n t → IsQuiet n u
  unfolding start stop_begin stop_end receive_returns report tell finish
  Step-IsQuiet n (starts sub) h =
      if_both (λ (x : Option Err × Subscriber S). IsQuiet n x.1) (is_some sub.runs.current)
        (some _, sub) (after_lookup client sub _) h (after_lookup-IsQuiet n sub _ h)
  Step-IsQuiet n (cancels sub) h = cancel_current-IsQuiet n sub sub.runs.current h
  Step-IsQuiet n (waits sub m s r) h = (ap (member n) (clear-fields m sub.runs).2 ∙ h.0, h.1, h.2)
  Step-IsQuiet n (expires sub m e s) h = h
  Step-IsQuiet n (returns sub m e r) h = h
  Step-IsQuiet n (looks sub m) h = report_error-IsQuiet n m sub (error_of m sub.ended) h
  Step-IsQuiet n (tells sub m) h = tell_error-IsQuiet n m sub (error_of m sub.failed) refl h

  -- Once a Stop has cancelled a receive loop, and the loop has not looked at its error and found a failure
  -- before, it is never reported, however it ends and whatever happens in between: the end that a Stop
  -- asked for is no failure.
  pub Reach-IsQuiet :
      (n : ℕ) {from sub : Subscriber S}
      → Reach client from sub
      → member n from.runs.stopped ≡ true
      → count n (numbers from.failed) ≡ 0
      → count n (numbers from.reports) ≡ 0
      → count n (numbers sub.reports) ≡ 0
  Reach-IsQuiet n {from = from} r s a h = (go r).2
    where
      go : {t : Subscriber S} → Reach client from t → IsQuiet n t
      go here = (s, a, h)
      go (next r step) = Step-IsQuiet n step (go r)
