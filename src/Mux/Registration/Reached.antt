-- ===== src/Mux/Registration/Reached.antt =====
-- What every sequence of calls on a new mux guarantees, whatever the calls answer.
use event_driven.Prelude.{◌≡◌, Option, List, Called, returned}
use event_driven.Event.CloudEvents.{CloudEvents}
use event_driven.Event.Message.{Context}
use event_driven.Mux.Types.{Mux, Middleware, Filter, Publisher, Local, Reply}
use event_driven.Mux.Registration.{
  PayloadType, handle_route, use_middlewares, use_preflight, start, stop,
}

module _ {sdk : CloudEvents} {S A : Type 0} where
  -- One call of a method, whatever it answers.
  pub data Step : Mux sdk S A → Mux sdk S A → Type 1 where
    handled :
        {m m' : Mux sdk S A} (t : PayloadType S A) (p : Option (Publisher sdk S))
        (f : Option (Filter sdk S)) (fn : Context → t.T → Local S → Called Reply × Local S)
        → handle_route t p f fn m ≡ returned m'
        → Step m m'
    used :
        {m m' : Mux sdk S A} (mws : List (Middleware S A))
        → use_middlewares mws m ≡ returned m'
        → Step m m'
    preflighted :
        {m m' : Mux sdk S A} (mws : List (Middleware S A))
        → use_preflight mws m ≡ returned m'
        → Step m m'
    started_ : {m m' : Mux sdk S A} (s : S) → (start m s).1 ≡ m' → Step m m'
    stopped : {m m' : Mux sdk S A} (s : S) → (stop m s).1 ≡ m' → Step m m'

  pub data Reach (m : Mux sdk S A) : Mux sdk S A → Type 1 where
    here : Reach m m
    next : {u v : Mux sdk S A} → Reach m u → Step u v → Reach m v
