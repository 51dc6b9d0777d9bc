-- ===== src/Retry/Calls.antt =====
-- Which calls of the handler the retry loop makes, and with which of them it ends.
use event_driven.Prelude.{
  ℕ, zero, suc, ◌+◌, ◌≤◌, ◌==◌, ◌≡◌, refl, arith, true, false, ◌||◌, Bool-cases, inl, inr, ◌⊎◌,
  Option, none, some, Bytes, Called, returned, panicked,
}
use event_driven.Error.{Err, is_non_retryable}
use event_driven.Event.Message.{Context}
use event_driven.Mux.Types.{Reply, HandlerFunc, Local}
use event_driven.Retry.{Waiting, Policy, wait, after_wait, after_call, attempts, run, retries_for}

module _ {S A : Type 0} (env : Waiting S) (b : Policy) (next : HandlerFunc S A) (ctx : Context)
    (payload : A) where
  -- The n-th attempt fails with an error that is retryable, and the wait after it elapses.
  pub data Retried : ℕ → Local S → Local S → Type 0 where
    elapsed :
        (n : ℕ) (l l' l'' : Local S) (value : Option Bytes) (e : Err)
        → next ctx payload l ≡ (returned (value, some e), l')
        → is_non_retryable e ≡ false
        → wait env b ctx n e l' ≡ (none, l'')
        → Retried n l l''

  -- The attempts from the n-th to the one before the m-th all ended in a retry.
  pub data Retries : ℕ → ℕ → Local S → Local S → Type 0 where
    enough : (n : ℕ) (l : Local S) → Retries n n l l
    again :
        (n m : ℕ) (l l' l'' : Local S)
        → Retried n l l'
        → Retries (suc n) m l' l''
        → Retries n m l l''

  -- How the n-th attempt, out of `last`, ends the loop with the result x.
  pub data Ends (last : ℕ) : ℕ → Local S → Called Reply × Local S → Type 0 where
    succeeded :
        (n : ℕ) (l l' : Local S) (value : Option Bytes)
        → next ctx payload l ≡ (returned (value, none), l')
        → Ends last n l (returned (value, none), l')
    gave_up :
        (n : ℕ) (l l' : Local S) (value : Option Bytes) (e : Err)
        → next ctx payload l ≡ (returned (value, some e), l')
        → (n ≡ last) ⊎ (is_non_retryable e ≡ true)
        → Ends last n l (returned (none, some e), l')
    interrupted :
        (n : ℕ) (l l' l'' : Local S) (value : Option Bytes) (e werr : Err)
        → next ctx payload l ≡ (returned (value, some e), l')
        → wait env b ctx n e l' ≡ (some werr, l'')
        → Ends last n l (returned (none, some werr), l'')
    panics :
        (n : ℕ) (l l' : Local S) (v : Bytes)
        → next ctx payload l ≡ (panicked v, l')
        → Ends last n l (panicked v, l')

  pub record Trace (last n : ℕ) (l : Local S) (x : Called Reply × Local S) : Type 0 where
    pub m : ℕ
    pub final : Local S
    pub within : m ≤ last
    pub retried : Retries n m l final
    pub ended : Ends last m final x

  Ends-now :
      (last n : ℕ) (l : Local S) (x : Called Reply × Local S)
      → n ≤ last
      → Ends last n l x
      → Trace last n l x
  Ends-now last n l x h e = record { m = n; final = l; within = h; retried = enough n l; ended = e }

  one_more :
      (last n : ℕ) (l l' : Local S) (x : Called Reply × Local S)
      → Retried n l l'
      → Trace last (suc n) l' x
      → Trace last n l x
  one_more last n l l' x r t = record {
    m = t.m;
    final = t.final;
    within = t.within;
    retried = again n t.m l l' t.final r t.retried;
    ended = t.ended;
  }

  after_wait-Trace :
      (last n : ℕ) (l l' : Local S) (value : Option Bytes) (e : Err)
      (rest : Local S → Called Reply × Local S) (w : Option Err × Local S)
      → n ≤ last
      → next ctx payload l ≡ (returned (value, some e), l')
      → is_non_retryable e ≡ false
      → wait env b ctx n e l' ≡ w
      → ((l'' : Local S) → Trace last (suc n) l'' (rest l''))
      → Trace last n l (after_wait env rest w)
  after_wait-Trace last n l l' value e rest (some werr, l'') i h r q k =
      Ends-now last n l _ i (interrupted n l l' l'' value e werr h q)
  after_wait-Trace last n l l' value e rest (none, l'') i h r q k =
      one_more last n l l'' _ (elapsed n l l' l'' value e h r q) (k l'')

  after_call-Trace :
      (last left n : ℕ) (l : Local S) (rest : Local S → Called Reply × Local S)
      (x : Called Reply × Local S)
      → left + n ≡ last
      → next ctx payload l ≡ x
      → ((left ≡ 0) ⊎ ((l'' : Local S) → Trace last (suc n) l'' (rest l'')))
      → Trace last n l (after_call env b ctx left n rest x)
  after_call-Trace last left n l rest (panicked v, l') i h k =
      Ends-now last n l _ (omega arith) (panics n l l' v h)
  after_call-Trace last left n l rest (returned (value, none), l') i h k =
      Ends-now last n l _ (omega arith) (succeeded n l l' value h)
  after_call-Trace last left n l rest (returned (value, some e), l') i h k =
      elim (Bool-cases (left == 0 || is_non_retryable e)) [
        | inl stop ↦
            rw stop (Ends-now last n l _ (omega arith) (gave_up n l l' value e h (ground arith)))
        | inr go ↦ rw go (elim k [
          | inl z ↦ ground arith
          | inr more ↦
              after_wait-Trace last n l l' value e rest (wait env b ctx n e l') (omega arith) h
                (ground arith) refl more
        ])
      ]

  attempts-Trace :
      (last left n : ℕ) (l : Local S)
      → left + n ≡ last
      → Trace last n l (attempts env b next ctx payload left n l)
  unfolding attempts
  attempts-Trace last zero n l i =
      after_call-Trace last 0 n l (λ l'. (returned (none, none), l')) (next ctx payload l) i refl
        (inl refl)
  attempts-Trace last (suc left) n l i =
      after_call-Trace last (suc left) n l (attempts env b next ctx payload left (suc n))
        (next ctx payload l) i refl
        (inr (λ l''. attempts-Trace last left (suc n) l'' (omega arith)))

  -- The middleware calls its handler once and then at most as often as its retries say, only after
  -- retryable errors and waits that elapsed, and answers as the last call did or with the error of the context.
  pub run-Trace : (l : Local S) → Trace (retries_for b ctx) 0 l (run env b next ctx payload l)
  unfolding run
  run-Trace l = attempts-Trace (retries_for b ctx) (retries_for b ctx) 0 l (omega arith)
