-- ===== src/Http/Rules.antt =====
-- Which rule answers for an error.
use mathlib.Core.List.{append_assoc}
use event_driven.Prelude.{
  ℕ, ◌≡◌, refl, true, false, some, Bytes, All, [], ◌∷◌, ◌++◌, List, if_true, if_false,
}
use event_driven.Error.{Err}
use event_driven.Event.CloudEvents.{CloudEvents}
use event_driven.Http.{ErrorRule, new_response, respond, new_error_responder, default_rules}

abbrev pub Misses : Err → List ErrorRule → Type 0
Misses e rules = All (λ r. r.match e ≡ false) rules

module _ (sdk : CloudEvents) where
  respond-append :
      (now : ℕ) (before rules : List ErrorRule) (e : Err) (ce : sdk.Event) (p : Bytes)
      → Misses e before
      → respond sdk now (before ++ rules) e ce p ≡ respond sdk now rules e ce p
  unfolding respond
  respond-append now [] rules e ce p h = refl
  respond-append now (rule ∷ before) rules e ce p h =
      if_false (λ o. o ≡ respond sdk now rules e ce p) (rule.match e) _
        (respond sdk now (before ++ rules) e ce p) h.0 (respond-append now before rules e ce p h.1)

  -- The first rule that matches gives the answer, and the caller's rules come before the default
  -- ones: a rule of the caller answers whatever the default rules say.
  pub respond-first :
      (now : ℕ) (before after : List ErrorRule) (rule : ErrorRule) (e : Err) (ce : sdk.Event)
      (p : Bytes)
      → Misses e before
      → rule.match e ≡ true
      → respond sdk now (new_error_responder (before ++ (rule ∷ after))) e ce p
        ≡ some (new_response sdk now ce p rule.status_code rule.error_code (rule.detail_func e))
  unfolding respond new_error_responder new_response
  respond-first now before after rule e ce p h m =
      rw (append_assoc before (rule ∷ after) default_rules) (
        rw (respond-append now before (rule ∷ after ++ default_rules) e ce p h) (
          if_true
            (λ o.
              o
              ≡ some
                  (new_response sdk now ce p rule.status_code rule.error_code (rule.detail_func e)))
            (rule.match e) _ (respond sdk now (after ++ default_rules) e ce p) m refl))
