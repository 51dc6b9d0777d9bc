-- ===== src/Mux/Handle/Routing.antt =====
-- Which route handles a message, and what becomes of a message whose handler fails.
use event_driven.Prelude.{
  ◌≡◌, ◌++◌, refl, ap, sym, ◌∙◌, Bool, true, false, some, List, [], ◌∷◌, Called, returned, panicked,
}
use event_driven.Event.CloudEvents.{CloudEvents}
use event_driven.Mux.Types.{Route}
use event_driven.Mux.Effects.{World, continue}
use event_driven.Mux.Handle.{matches, choose, find_matching_route}

module _ {sdk : CloudEvents} {S A : Type 0} where
  -- The filters of these routes all turn the message down, one after the other.
  pub data Skips : List (Route sdk S A) → World sdk S → World sdk S → Type 0 where
    no_more : (w : World sdk S) → Skips [] w w
    skip :
        (rt : Route sdk S A) (rts : List (Route sdk S A)) (w w' w'' : World sdk S)
        → matches rt.filter w.msg.event w ≡ (returned false, w')
        → Skips rts w' w''
        → Skips (rt ∷ rts) w w''

  -- The route is the first whose filter takes the message, and the later filters are not asked.
  pub record IsFirst (rts : List (Route sdk S A)) (rt : Route sdk S A) (w w' : World sdk S)
      : Type 0 where
    pub before : List (Route sdk S A)
    pub after : List (Route sdk S A)
    pub asked : World sdk S
    pub split : rts ≡ before ++ (rt ∷ after)
    pub skipped : Skips before w asked
    pub taken : matches rt.filter asked.msg.event asked ≡ (returned true, w')

  one_more_skip :
      (r rt : Route sdk S A) (rts : List (Route sdk S A)) (w w1 w' : World sdk S)
      → matches r.filter w.msg.event w ≡ (returned false, w1)
      → IsFirst rts rt w1 w'
      → IsFirst (r ∷ rts) rt w w'
  one_more_skip r rt rts w w1 w' h f = record {
    before = r ∷ f.before;
    after = f.after;
    asked = f.asked;
    split = ap (λ l. r ∷ l) f.split;
    skipped = skip r f.before w w1 f.asked h f.skipped;
    taken = f.taken;
  }

  choose-IsFirst :
      (r : Route sdk S A) (rts : List (Route sdk S A)) (w : World sdk S)
      (x : Called Bool × World sdk S) (rt : Route sdk S A) (w' : World sdk S)
      → matches r.filter w.msg.event w ≡ x
      → ((w1 : World sdk S)
          → find_matching_route rts w1 ≡ (returned (some rt), w')
          → IsFirst rts rt w1 w')
      → continue (choose r (find_matching_route rts)) x ≡ (returned (some rt), w')
      → IsFirst (r ∷ rts) rt w w'
  choose-IsFirst r rts w (panicked v, w1) rt w' m k h = cc
  choose-IsFirst r rts w (returned false, w1) rt w' m k h =
      one_more_skip r rt rts w w1 w' m (k w1 h)
  choose-IsFirst r rts w (returned true, w1) rt w' m k h =
      let same : r ≡ rt = cc in
      let state : w1 ≡ w' = cc in
      record {
        before = [];
        after = rts;
        asked = w;
        split = ap (λ q. q ∷ rts) same;
        skipped = no_more w;
        taken =
            ap (λ q. matches (q.filter) w.msg.event w) (sym same)
            ∙ m
            ∙ ap (λ v. (returned true, v)) state;
      }

  -- Where findMatchingRoute gives a route, the filters of the routes before it in order of
  -- registration have turned the message down, and its own, or the lack of one, takes it.
  pub find_matching_route-IsFirst :
      (rts : List (Route sdk S A)) (rt : Route sdk S A) (w w' : World sdk S)
      → find_matching_route rts w ≡ (returned (some rt), w')
      → IsFirst rts rt w w'
  unfolding find_matching_route
  find_matching_route-IsFirst [] rt w w' h = cc
  find_matching_route-IsFirst (r ∷ rts) rt w w' h =
      choose-IsFirst r rts w (matches r.filter w.msg.event w) rt w' refl
        (λ w1. find_matching_route-IsFirst rts rt w1 w') h
