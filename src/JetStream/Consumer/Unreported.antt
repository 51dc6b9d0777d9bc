-- ===== src/JetStream/Consumer/Unreported.antt =====
-- The end of a consumer that a Stop has drained.
use event_driven.Prelude.{
  ℕ, ◌≡◌, arith, ap, ◌∙◌, Bool, true, false, Option, none, some, is_some, List, ◌∷◌, if_both, sym,
  if◌then◌else◌,
}
use event_driven.Error.{Err, Result, ok, err}
use event_driven.Runs.{count, member, spawn, finish, mark, remove}
use event_driven.Runs.Laws.{clear-fields, count-remove, count-present}
use event_driven.JetStream.Consumer.{
  Client, Subscriber, start, with_stream, with_consumer, after_consume, stop_begin, drain_current,
  stop_end, closes, watch, alarm,
}
use event_driven.JetStream.Consumer.Steps.{
  Step, starts, drains, waits, expires, ends, watches, alarms, Reach, here, next,
}

silent_watch :
    (n m : ℕ) (b : Bool) (alarmed : List ℕ)
    → (n ≡ m → b ≡ true)
    → count n alarmed ≡ 0
    → count n (if b then alarmed else m ∷ alarmed) ≡ 0
unfolding count
silent_watch n m true alarmed k h = h
silent_watch n m false alarmed k h = ground (arith, k, h)

-- A watcher that was alarmed is not that of n.
alarm-silent :
    (n m : ℕ) (alarmed reports : List ℕ)
    → member m alarmed ≡ true
    → count n alarmed ≡ 0
    → count n reports ≡ 0
    → (count n (remove m alarmed) ≡ 0) × (count n (m ∷ reports) ≡ 0)
unfolding count
alarm-silent n m alarmed reports w h k =
    (ground (arith, h, count-remove n m alarmed), ground (arith, h, k, count-present m alarmed w))

module _ {S : Type 0} (js : Client S) where
  -- A Stop has begun to drain n, whose watcher has not seen it end before.
  abbrev pub IsUnreported : ℕ → Subscriber S → Type 0
  IsUnreported n sub =
      (member n sub.runs.stopped ≡ true) × (count n sub.alarmed ≡ 0) × (count n sub.reports ≡ 0)

  after_consume-IsUnreported :
      (n : ℕ) (sub : Subscriber S) (x : Option Err × S)
      → IsUnreported n sub
      → IsUnreported n (after_consume js sub x).1
  unfolding spawn
  after_consume-IsUnreported n sub (some e, s) h = h
  after_consume-IsUnreported n sub (none, s) h = h

  with_consumer-IsUnreported :
      (n : ℕ) (sub : Subscriber S) (x : Result js.Consumer × S)
      → IsUnreported n sub
      → IsUnreported n (with_consumer js sub x).1
  with_consumer-IsUnreported n sub (err e, s) h = h
  with_consumer-IsUnreported n sub (ok consumer, s) h = after_consume-IsUnreported n sub _ h

  with_stream-IsUnreported :
      (n : ℕ) (sub : Subscriber S) (x : Result js.Stream × S)
      → IsUnreported n sub
      → IsUnreported n (with_stream js sub x).1
  with_stream-IsUnreported n sub (err e, s) h = h
  with_stream-IsUnreported n sub (ok stream, s) h = with_consumer-IsUnreported n sub _ h

  drain_current-IsUnreported :
      (n : ℕ) (sub : Subscriber S) (o : Option ℕ)
      → IsUnreported n sub
      → IsUnreported n (drain_current js sub o).1
  unfolding mark member count
  drain_current-IsUnreported n sub none h = h
  drain_current-IsUnreported n sub (some m) h =
      if_both (IsUnreported n) (member m sub.runs.stopped) sub
        (record sub {
          runs = mark m sub.runs;
          drains = m ∷ sub.drains;
          outside = js.drain m sub.outside;
        })
        h (ground (arith, h.0), h.1, h.2)

  Step-IsUnreported :
      (n : ℕ) {t u : Subscriber S} → Step js t u → IsUnreported n t → IsUnreported n u
  unfolding start stop_begin stop_end closes watch alarm finish
  Step-IsUnreported n (starts sub) h =
      if_both (λ (x : Option Err × Subscriber S). IsUnreported n x.1) (is_some sub.runs.current)
        (some _, sub) (with_stream js sub _) h (with_stream-IsUnreported n sub _ h)
  Step-IsUnreported n (drains sub) h = drain_current-IsUnreported n sub sub.runs.current h
  Step-IsUnreported n (waits sub m s r) h =
      (ap (member n) (clear-fields m sub.runs).2 ∙ h.0, h.1, h.2)
  Step-IsUnreported n (expires sub m e s) h = h
  Step-IsUnreported n (ends sub m r) h = h
  Step-IsUnreported n (watches sub m w r) h =
      (h.0, silent_watch n m (member m sub.runs.stopped) sub.alarmed (λ k. rw (sym k) h.0) h.1, h.2)
  Step-IsUnreported n (alarms sub m w) h =
      let silent = alarm-silent n m sub.alarmed sub.reports w h.1 h.2 in (h.0, silent.0, silent.1)

  -- Once a Stop has begun to drain a consumer, and its watcher has not seen it end before, the end is
  -- never reported, whatever happens in between: an end that a Stop asked for is no failure.
  pub Reach-IsUnreported :
      (n : ℕ) {from sub : Subscriber S}
      → Reach js from sub
      → member n from.runs.stopped ≡ true
      → count n from.alarmed ≡ 0
      → count n from.reports ≡ 0
      → count n sub.reports ≡ 0
  Reach-IsUnreported n {from = from} r s a h = (go r).2
    where
      go : {t : Subscriber S} → Reach js from t → IsUnreported n t
      go here = (s, a, h)
      go (next r step) = Step-IsUnreported n step (go r)
