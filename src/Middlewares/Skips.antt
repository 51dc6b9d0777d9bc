-- ===== src/Middlewares/Skips.antt =====
-- What the skipper and the validator let through.
use event_driven.Prelude.{
  ◌≡◌, refl, arith, ap, none, some, Option, Bytes, [], ◌∷◌, ◌++◌, List, Called, returned, panicked,
}
use event_driven.Error.{Err}
use event_driven.Event.Message.{Context}
use event_driven.Mux.Types.{Reply, HandlerFunc, Local}
use event_driven.Middlewares.{Predicate, after_reply, skipped, after_next, skip_middleware}

both_skip :
    (ps qs : List Predicate) (result : Option Bytes) (e : Err)
    → after_reply ps (skipped qs result e) ≡ skipped (qs ++ ps) result e
unfolding skipped
both_skip ps [] result e = refl
both_skip ps (q ∷ qs) result e = ground (arith, both_skip ps qs result e)

module _ {S : Type 0} where
  after_both :
      (ps qs : List Predicate) (x : Called Reply × Local S)
      → after_next ps (after_next qs x) ≡ after_next (qs ++ ps) x
  after_both ps qs (panicked v, l) = refl
  after_both ps qs (returned (result, none), l) = refl
  after_both ps qs (returned (result, some e), l) =
      ap (λ r. (returned r, l)) (both_skip ps qs result e)

module _ {S A : Type 0} where
  -- Two skippers do what one with the predicates of both does.
  pub skip_middleware-append :
      (ps qs : List Predicate) (next : HandlerFunc S A) (ctx : Context) (payload : A) (l : Local S)
      → skip_middleware ps (skip_middleware qs next) ctx payload l
        ≡ skip_middleware (qs ++ ps) next ctx payload l
  unfolding skip_middleware
  skip_middleware-append ps qs next ctx payload l = after_both ps qs (next ctx payload l)
