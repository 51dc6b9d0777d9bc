-- ===== src/JetStream/Consumer/Steps.antt =====
-- Every interleaving of Start, Stop, the server and the watchers.
use event_driven.Prelude.{
  ℕ, ◌+◌, ◌≤◌, ◌≡◌, arith, refl, ap, true, false, Option, none, some, is_some, [], ◌∷◌, Bool-cases,
  Option-cases, inl, inr, if_true, if_false, if◌then◌else◌,
}
use event_driven.Error.{Err, Result, ok, err}
use event_driven.Runs.{count, member, is_current, no_runs, spawn, mark}
use event_driven.Runs.Laws.{
  IsExclusive, no_runs-IsExclusive, spawn-IsExclusive, finish-IsExclusive, mark-IsExclusive,
  clear-IsExclusive, count-remove, count-present, count-absent, clear-fields,
}
use event_driven.JetStream.Consumer.{
  Client, Settings, Subscriber, start, with_stream, with_consumer, after_consume, stop_begin,
  drain_current, stop_end, closes, watch, alarm,
}

module _ {S : Type 0} (js : Client S) where
  -- A Stop ends its wait without an error only where Closed of what it has drained is closed; a watcher
  -- looks once, after that.
  pub data Step : Subscriber S → Subscriber S → Type 0 where
    starts : (sub : Subscriber S) → Step sub (start js sub).1
    drains : (sub : Subscriber S) → Step sub (stop_begin js sub).1
    waits :
        (sub : Subscriber S) (n : ℕ)
        → member n sub.runs.stopped ≡ true
        → member n sub.runs.running ≡ false
        → Step sub (stop_end js n none sub).1
    expires :
        (sub : Subscriber S) (n : ℕ) (e : Err)
        → member n sub.runs.stopped ≡ true
        → Step sub (stop_end js n (some e) sub).1
    ends : (sub : Subscriber S) (n : ℕ) → member n sub.runs.running ≡ true → Step sub (closes n sub)
    watches :
        (sub : Subscriber S) (n : ℕ)
        → member n sub.watching ≡ true
        → member n sub.runs.running ≡ false
        → Step sub (watch n sub)
    alarms : (sub : Subscriber S) (n : ℕ) → member n sub.alarmed ≡ true → Step sub (alarm n sub)

  pub data Reach (from : Subscriber S) : Subscriber S → Type 0 where
    here : Reach from from
    next : {t u : Subscriber S} → Reach from t → Step t u → Reach from u

  pub record IsSound (sub : Subscriber S) : Type 0 where
    pub one : IsExclusive sub.runs
    pub drained : (n : ℕ) → count n sub.drains ≤ count n sub.runs.stopped
    pub stopped_once : (n : ℕ) → count n sub.runs.stopped ≤ 1
    pub once : (n : ℕ) → count n sub.watching + count n sub.alarmed + count n sub.reports ≤ 1
    pub later :
        (n : ℕ)
        → sub.runs.spawned ≤ n
        → count n sub.watching + count n sub.alarmed + count n sub.reports ≡ 0

  after_consume-IsSound :
      (sub : Subscriber S) (x : Option Err × S)
      → sub.runs.current ≡ none
      → IsSound sub
      → IsSound (after_consume js sub x).1
  unfolding spawn count
  after_consume-IsSound sub (some e, s) off h = record {
    one = h.one;
    drained = h.drained;
    stopped_once = h.stopped_once;
    once = h.once;
    later = h.later;
  }
  after_consume-IsSound sub (none, s) off h = record {
    one = spawn-IsExclusive sub.runs off h.one;
    drained = h.drained;
    stopped_once = h.stopped_once;
    once = λ n. ground (arith, h.once n, h.later n);
    later = λ n k. ground (arith, k, h.later n);
  }

  with_consumer-IsSound :
      (sub : Subscriber S) (x : Result js.Consumer × S)
      → sub.runs.current ≡ none
      → IsSound sub
      → IsSound (with_consumer js sub x).1
  with_consumer-IsSound sub (err e, s) off h = record {
    one = h.one;
    drained = h.drained;
    stopped_once = h.stopped_once;
    once = h.once;
    later = h.later;
  }
  with_consumer-IsSound sub (ok consumer, s) off h = after_consume-IsSound sub _ off h

  with_stream-IsSound :
      (sub : Subscriber S) (x : Result js.Stream × S)
      → sub.runs.current ≡ none
      → IsSound sub
      → IsSound (with_stream js sub x).1
  with_stream-IsSound sub (err e, s) off h = record {
    one = h.one;
    drained = h.drained;
    stopped_once = h.stopped_once;
    once = h.once;
    later = h.later;
  }
  with_stream-IsSound sub (ok stream, s) off h = with_consumer-IsSound sub _ off h

  start-IsSound : (sub : Subscriber S) → IsSound sub → IsSound (start js sub).1
  unfolding start
  start-IsSound sub h =
      let Sound : Option Err × Subscriber S → Type 0 = λ x. IsSound x.1 in
      elim (Option-cases sub.runs.current) [
        | inl off ↦
            if_false Sound (is_some sub.runs.current) (some _, sub) (with_stream js sub _)
              (ap is_some off) (with_stream-IsSound sub _ off h)
        | inr on ↦
            if_true Sound (is_some sub.runs.current) (some _, sub) (with_stream js sub _)
              (ap is_some on.1) h
      ]

  drain_current-IsSound :
      (sub : Subscriber S) (o : Option ℕ) → IsSound sub → IsSound (drain_current js sub o).1
  unfolding mark count
  drain_current-IsSound sub none h = h
  drain_current-IsSound sub (some n) h =
      let drained = record sub {
        runs = mark n sub.runs;
        drains = n ∷ sub.drains;
        outside = js.drain n sub.outside;
      } in
      elim (Bool-cases (member n sub.runs.stopped)) [
        | inl again ↦ if_true IsSound (member n sub.runs.stopped) sub drained again h
        | inr new ↦ if_false IsSound (member n sub.runs.stopped) sub drained new (record {
          one = mark-IsExclusive n sub.runs h.one;
          drained = λ m. ground (arith, h.drained m);
          stopped_once = λ m. ground (arith, h.stopped_once m, count-absent n sub.runs.stopped new);
          once = h.once;
          later = h.later;
        })
      ]

  watch-IsSound :
      (n : ℕ) (sub : Subscriber S)
      → member n sub.watching ≡ true
      → IsSound sub
      → IsSound (watch n sub)
  unfolding watch count
  watch-IsSound n sub w h = record {
    one = h.one;
    drained = h.drained;
    stopped_once = h.stopped_once;
    once = λ m.
        ground (arith, h.once m, count-remove m n sub.watching, count-present n sub.watching w);
    later = λ m l.
        ground (arith, h.later m l, count-remove m n sub.watching, count-present n sub.watching w);
  }

  alarm-IsSound :
      (n : ℕ) (sub : Subscriber S)
      → member n sub.alarmed ≡ true
      → IsSound sub
      → IsSound (alarm n sub)
  unfolding alarm count
  alarm-IsSound n sub w h = record {
    one = h.one;
    drained = h.drained;
    stopped_once = h.stopped_once;
    once =
        λ m. ground (arith, h.once m, count-remove m n sub.alarmed, count-present n sub.alarmed w);
    later = λ m l.
        ground (arith, h.later m l, count-remove m n sub.alarmed, count-present n sub.alarmed w);
  }

  Step-IsSound : {t u : Subscriber S} → Step t u → IsSound t → IsSound u
  unfolding stop_begin stop_end closes
  Step-IsSound (starts sub) h = start-IsSound sub h
  Step-IsSound (drains sub) h = drain_current-IsSound sub sub.runs.current h
  Step-IsSound (waits sub n s r) h =
      let same = clear-fields n sub.runs in
      record {
        one = clear-IsExclusive n sub.runs r h.one;
        drained = λ m. rw same.2 (h.drained m);
        stopped_once = λ m. rw same.2 (h.stopped_once m);
        once = h.once;
        later = λ m l. h.later m (ground (arith, l, same.1));
      }
  Step-IsSound (expires sub n e s) h = h
  Step-IsSound (ends sub n r) h = record {
    one = finish-IsExclusive n sub.runs h.one;
    drained = h.drained;
    stopped_once = h.stopped_once;
    once = h.once;
    later = h.later;
  }
  Step-IsSound (watches sub n w r) h = watch-IsSound n sub w h
  Step-IsSound (alarms sub n w) h = alarm-IsSound n sub w h

  abbrev pub fresh : Settings → S → Subscriber S
  fresh settings s = record {
    settings = settings;
    runs = no_runs;
    watching = [];
    alarmed = [];
    drains = [];
    reports = [];
    outside = s;
  }

  fresh-IsSound : (settings : Settings) (s : S) → IsSound (fresh settings s)
  unfolding count
  fresh-IsSound settings s = record {
    one = no_runs-IsExclusive;
    drained = λ n. omega arith;
    stopped_once = λ n. omega arith;
    once = λ n. omega arith;
    later = λ n k. refl;
  }

  Reach-IsSound : {from sub : Subscriber S} → IsSound from → Reach from sub → IsSound sub
  Reach-IsSound h here = h
  Reach-IsSound h (next r step) = Step-IsSound step (Reach-IsSound h r)

  -- Whatever the order in which Starts, Stops, the server's closing of consumers and the watchers
  -- interleave, at most one consumer is open, which is that of the last Start; no consumer is drained
  -- more than once, and none is reported to onError more than once.
  pub Reach-IsOnce :
      (settings : Settings) (s : S) {sub : Subscriber S}
      → Reach (fresh settings s) sub
      → (n : ℕ)
      → (count n sub.runs.running ≤ (if is_current n sub.runs.current then 1 else 0))
        × (count n sub.drains ≤ 1)
        × (count n sub.reports ≤ 1)
  Reach-IsOnce settings s r n =
      let h = Reach-IsSound (fresh-IsSound settings s) r in
      (h.one n, omega (arith, h.drained n, h.stopped_once n), omega (arith, h.once n))
