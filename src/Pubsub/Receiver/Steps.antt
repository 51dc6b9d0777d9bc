-- ===== src/Pubsub/Receiver/Steps.antt =====
-- Every interleaving of Start, Stop and the receive loops.
use event_driven.Prelude.{
  ℕ, suc, ◌+◌, ◌==◌, ◌≤◌, ◌≡◌, arith, refl, ap, if◌then◌else◌, true, false, Option, none, some,
  is_some, List, [], ◌∷◌, Option-cases, inl, inr, if_true, if_false,
}
use event_driven.Error.{Err}
use event_driven.Runs.{count, member, is_current, no_runs, spawn, finish, mark}
use event_driven.Runs.Laws.{
  IsExclusive, no_runs-IsExclusive, spawn-IsExclusive, finish-IsExclusive, mark-IsExclusive,
  clear-IsExclusive, count-remove, count-present, clear-fields,
}
use event_driven.Pubsub.Receiver.{
  Client, Subscriber, SubscriberConfig, start, after_lookup, receive_returns, receive_outcome,
  error_of, forget, add_report, report, report_error, tell, tell_error, stop_begin, cancel_current,
  stop_end,
}

abbrev pub numbers {ℓ} : {A : Type ℓ} → List (ℕ × A) → List ℕ
numbers [] = []
numbers ((n, a) ∷ xs) = n ∷ numbers xs

module _ {S : Type 0} (client : Client S) where
  -- A Stop ends its wait without an error only where the loop that it has cancelled has closed `done`.
  pub data Step : Subscriber S → Subscriber S → Type 0 where
    starts : (sub : Subscriber S) → Step sub (start client sub).1
    cancels : (sub : Subscriber S) → Step sub (stop_begin sub).1
    waits :
        (sub : Subscriber S) (n : ℕ)
        → member n sub.runs.stopped ≡ true
        → member n sub.runs.running ≡ false
        → Step sub (stop_end n none sub).1
    expires :
        (sub : Subscriber S) (n : ℕ) (e : Err)
        → member n sub.runs.stopped ≡ true
        → Step sub (stop_end n (some e) sub).1
    returns :
        (sub : Subscriber S) (n : ℕ) (e : Option Err)
        → member n sub.runs.running ≡ true
        → Step sub (receive_returns n e sub)
    looks : (sub : Subscriber S) (n : ℕ) → Step sub (report n sub)
    tells : (sub : Subscriber S) (n : ℕ) → Step sub (tell n sub)

  pub data Reach (from : Subscriber S) : Subscriber S → Type 0 where
    here : Reach from from
    next : {t u : Subscriber S} → Reach from t → Step t u → Reach from u

  -- How often loop n runs, has ended, has failed or is reported.
  abbrev pub traces : ℕ → Subscriber S → ℕ
  traces n sub =
      count n sub.runs.running
      + count n (numbers sub.ended)
      + count n (numbers sub.failed)
      + count n (numbers sub.reports)

  pub record IsSound (sub : Subscriber S) : Type 0 where
    pub one : IsExclusive sub.runs
    pub once : (n : ℕ) → traces n sub ≤ 1
    pub later : (n : ℕ) → sub.runs.spawned ≤ n → traces n sub ≡ 0

  after_lookup-IsSound :
      (sub : Subscriber S) (x : Option Err × S)
      → sub.runs.current ≡ none
      → IsSound sub
      → IsSound (after_lookup client sub x).1
  unfolding spawn count
  after_lookup-IsSound sub (some e, s) off h = record {
    one = h.one;
    once = h.once;
    later = h.later;
  }
  after_lookup-IsSound sub (none, s) off h = record {
    one = spawn-IsExclusive sub.runs off h.one;
    once = λ n. ground (arith, h.once n, h.later n);
    later = λ n k. ground (arith, k, h.later n);
  }

  pub count-forget :
      {E : Type 0} (n m : ℕ) (e : E) (ended : List (ℕ × E))
      → error_of m ended ≡ some e
      → count n (numbers ended) ≡ (
          if n == m
          then suc (count n (numbers (forget m ended)))
          else count n (numbers (forget m ended)))
  unfolding count
  count-forget n m e [] h = cc
  count-forget n m e ((j, f) ∷ ended) h = ground (arith, h, count-forget n m e ended)

  count-add_report :
      (n m : ℕ) (o : Option Err) (reports : List (ℕ × Err))
      → count n (numbers (add_report m o reports))
        ≤ (if n == m then suc (count n (numbers reports)) else count n (numbers reports))
  unfolding count
  count-add_report n m none reports = ground arith
  count-add_report n m (some e) reports = ground arith

  report_error-IsSound :
      (n : ℕ) (sub : Subscriber S) (o : Option (Option Err))
      → error_of n sub.ended ≡ o
      → IsSound sub
      → IsSound (report_error n sub o)
  report_error-IsSound n sub none k h = h
  report_error-IsSound n sub (some e) k h = record {
    one = h.one;
    once = λ m. ground (
      arith,
      h.once m,
      count-forget m n e sub.ended k,
      count-add_report m n (receive_outcome (member n sub.runs.stopped) sub.cfg.subscription_id e)
          sub.failed,
    );
    later = λ m l. ground (
      arith,
      h.later m l,
      count-forget m n e sub.ended k,
      count-add_report m n (receive_outcome (member n sub.runs.stopped) sub.cfg.subscription_id e)
          sub.failed,
    );
  }

  tell_error-IsSound :
      (n : ℕ) (sub : Subscriber S) (o : Option Err)
      → error_of n sub.failed ≡ o
      → IsSound sub
      → IsSound (tell_error n sub o)
  unfolding count
  tell_error-IsSound n sub none k h = h
  tell_error-IsSound n sub (some e) k h = record {
    one = h.one;
    once = λ m. ground (arith, h.once m, count-forget m n e sub.failed k);
    later = λ m l. ground (arith, h.later m l, count-forget m n e sub.failed k);
  }

  start-IsSound : (sub : Subscriber S) → IsSound sub → IsSound (start client sub).1
  unfolding start
  start-IsSound sub h = elim (Option-cases sub.runs.current) [
    | inl off ↦
        if_false (λ (x : Option Err × Subscriber S). IsSound x.1) (is_some sub.runs.current)
          (some _, sub) (after_lookup client sub _) (ap is_some off)
          (after_lookup-IsSound sub _ off h)
    | inr on ↦
        if_true (λ (x : Option Err × Subscriber S). IsSound x.1) (is_some sub.runs.current)
          (some _, sub) (after_lookup client sub _) (ap is_some on.1) h
  ]

  cancel_current-IsSound :
      (sub : Subscriber S) (o : Option ℕ) → IsSound sub → IsSound (cancel_current sub o).1
  unfolding mark
  cancel_current-IsSound sub none h = h
  cancel_current-IsSound sub (some n) h = record {
    one = mark-IsExclusive n sub.runs h.one;
    once = h.once;
    later = h.later;
  }

  Step-IsSound : {t u : Subscriber S} → Step t u → IsSound t → IsSound u
  unfolding stop_begin stop_end receive_returns report tell finish count
  Step-IsSound (starts sub) h = start-IsSound sub h
  Step-IsSound (cancels sub) h = cancel_current-IsSound sub sub.runs.current h
  Step-IsSound (waits sub n s r) h =
      let same = clear-fields n sub.runs in
      record {
        one = clear-IsExclusive n sub.runs r h.one;
        once = λ m. ground (arith, same.0, h.once m);
        later = λ m l. ground (arith, same.0, same.1, l, h.later m);
      }
  Step-IsSound (expires sub n e s) h = h
  Step-IsSound (returns sub n e r) h = record {
    one = finish-IsExclusive n sub.runs h.one;
    once = λ m.
        ground
          (arith, count-remove m n sub.runs.running, count-present n sub.runs.running r, h.once m);
    later = λ m l.
        ground (
          arith,
          count-remove m n sub.runs.running,
          count-present n sub.runs.running r,
          h.later m l,
        );
  }
  Step-IsSound (looks sub n) h = report_error-IsSound n sub (error_of n sub.ended) refl h
  Step-IsSound (tells sub n) h = tell_error-IsSound n sub (error_of n sub.failed) refl h

  abbrev pub fresh : SubscriberConfig → S → Subscriber S
  fresh cfg s = record {
    cfg = cfg;
    runs = no_runs;
    ended = [];
    failed = [];
    reports = [];
    outside = s;
  }

  fresh-IsSound : (cfg : SubscriberConfig) (s : S) → IsSound (fresh cfg s)
  unfolding count
  fresh-IsSound cfg s = record {
    one = no_runs-IsExclusive;
    once = λ n. omega arith;
    later = λ n k. refl;
  }

  Reach-IsSound : {from sub : Subscriber S} → IsSound from → Reach from sub → IsSound sub
  Reach-IsSound h here = h
  Reach-IsSound h (next r step) = Step-IsSound step (Reach-IsSound h r)

  -- Whatever the order in which Starts, Stops and the ends of receive loops interleave, at most one
  -- receive loop runs, which is that of the last Start, and only while the subscriber is started; and
  -- no loop is reported to onError more than once.
  pub Reach-IsExclusive :
      (cfg : SubscriberConfig) (s : S) {sub : Subscriber S}
      → Reach (fresh cfg s) sub
      → (n : ℕ)
      → (count n sub.runs.running ≤ (if is_current n sub.runs.current then 1 else 0))
        × (count n (numbers sub.reports) ≤ 1)
  Reach-IsExclusive cfg s r n =
      let h = Reach-IsSound (fresh-IsSound cfg s) r in (h.one n, omega (arith, h.once n))
