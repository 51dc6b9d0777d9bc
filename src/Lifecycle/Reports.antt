-- ===== src/Lifecycle/Reports.antt =====
-- Which failures of components reach onFatal.
use event_driven.Prelude.{
  ◌≡◌, refl, ◌∙◌, true, List, [], ◌∷◌, Bytes, some, none, Option, if_true, if_false, if_both, false,
}
use event_driven.Error.{Err}
use event_driven.Lifecycle.{
  StopContext, Member, World, report, report_all, stop_members, stop_locked, stop, set_stopping,
  top_down, while_waiting,
}
use event_driven.Lifecycle.Errors.{first_failure, fatal_error}

-- What onFatal has received after these failures, of which it gets the first one.
abbrev pub first_of : Option Err → List (Bytes × Err) → Option Err
first_of (some e) failures = some e
first_of none [] = none
first_of none ((name, e) ∷ failures) = some (fatal_error name e)

first_of-next :
    (o : Option Err) (n : Bytes) (e : Err) (failures : List (Bytes × Err))
    → first_of (first_failure n e o) failures ≡ first_of o ((n, e) ∷ failures)
first_of-next none n e failures = refl
first_of-next (some e') n e failures = refl

first_of-none : (o : Option Err) → o ≡ first_of o []
first_of-none none = refl
first_of-none (some e) = refl

module _ {S : Type 0} where
  -- Reports while the group stops change nothing.
  report_all-stopping :
      (n : Bytes) (es : List Err) (w : World S) → w.group.stopping ≡ true → report_all n es w ≡ w
  unfolding report_all report
  report_all-stopping n [] w h = refl
  report_all-stopping n (e ∷ es) w h =
      if_true (λ (v : World S). report_all n es v ≡ w) w.group.stopping w
        (record w { fatal = first_failure n e w.fatal }) h (report_all-stopping n es w h)

  stop_members-fatal :
      (ctx : StopContext) (ms : List (Member S)) (w : World S)
      → w.group.stopping ≡ true
      → (stop_members ctx ms w).1.fatal ≡ w.fatal
  unfolding stop_members
  stop_members-fatal ctx [] w h = refl
  stop_members-fatal ctx (m ∷ ms) w h = rw report_all-stopping (stop_members-fatal ctx ms _ h)

  while_waiting-fatal :
      (failures : List (Bytes × Err)) (w : World S)
      → w.group.stopping ≡ false
      → (while_waiting failures w).fatal ≡ first_of w.fatal failures
  unfolding report
  while_waiting-fatal [] w h = first_of-none w.fatal
  while_waiting-fatal ((n, e) ∷ failures) w h =
      if_false
        (λ (v : World S). (while_waiting failures v).fatal ≡ first_of w.fatal ((n, e) ∷ failures))
        w.group.stopping w (record w { fatal = first_failure n e w.fatal }) h
        (while_waiting-fatal failures (record w { fatal = first_failure n e w.fatal }) h
          ∙ first_of-next w.fatal n e failures)

  -- Of the failures that components report while the group does not stop, onFatal receives the
  -- first since Start, under the component's name, and no other; and no failure that a component
  -- reports while the group stops reaches it, not even where it is the first.
  pub stop-fatal :
      (ctx : StopContext) (failures : List (Bytes × Err)) (w : World S)
      → w.group.stopping ≡ false
      → ((while_waiting failures w).fatal ≡ first_of w.fatal failures)
        × ((stop ctx w).1.fatal ≡ w.fatal)
  unfolding stop stop_locked
  stop-fatal ctx failures w h = (
    while_waiting-fatal failures w h,
    if_both (λ (x : Option Err × World S). x.1.fatal ≡ w.fatal) w.group.started (stop_locked ctx w)
        (none, w)
        (stop_members-fatal ctx (top_down w.group.running w.group.members []) (set_stopping w) refl)
        refl,
  )
