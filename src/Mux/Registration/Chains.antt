-- ===== src/Mux/Registration/Chains.antt =====
-- How chain of pkg/eventmux/mux.go composes.
use event_driven.Prelude.{
  ◌≡◌, refl, sym, ap, ◌∙◌, List, [], ◌∷◌, ◌++◌, All, Called, returned, panicked, is_panic, false,
}
use event_driven.Mux.Types.{HandlerFunc, Middleware, chain, wrap_in}

module _ {S A : Type 0} where
  -- Wrapping what a chain gave in more middlewares.
  abbrev pub chain_on : Called (HandlerFunc S A) → List (Middleware S A) → Called (HandlerFunc S A)
  chain_on (returned h) mws = chain h mws
  chain_on (panicked v) mws = panicked v

  chain_on-next :
      (x : Called (HandlerFunc S A)) (mw : Middleware S A) (mws : List (Middleware S A))
      → chain_on x (mw ∷ mws) ≡ wrap_in mw (chain_on x mws)
  unfolding chain
  chain_on-next (returned h) mw mws = refl
  chain_on-next (panicked v) mw mws = refl

  chain_on-nil : (x : Called (HandlerFunc S A)) → chain_on x [] ≡ x
  unfolding chain
  chain_on-nil (returned h) = refl
  chain_on-nil (panicked v) = refl

  -- A list of middlewares can be applied in two parts, the later part first.
  pub chain-append :
      (h : HandlerFunc S A) (xs ys : List (Middleware S A))
      → chain h (xs ++ ys) ≡ chain_on (chain h ys) xs
  unfolding chain
  chain-append h [] ys = sym (chain_on-nil (chain h ys))
  chain-append h (x ∷ xs) ys =
      ap (wrap_in x) (chain-append h xs ys) ∙ sym (chain_on-next (chain h ys) x xs)

  -- A middleware that never panics when it wraps.
  abbrev pub CannotPanic : List (Middleware S A) → Type 0
  CannotPanic mws = All (λ mw. (h : HandlerFunc S A) → is_panic (mw h) ≡ false) mws

  wrap_in-returns :
      (mw : Middleware S A) (x : Called (HandlerFunc S A))
      → ((h : HandlerFunc S A) → is_panic (mw h) ≡ false)
      → is_panic x ≡ false
      → is_panic (wrap_in mw x) ≡ false
  wrap_in-returns mw (returned h) total k = total h
  wrap_in-returns mw (panicked v) total k = k

  pub chain-returns :
      (h : HandlerFunc S A) (mws : List (Middleware S A))
      → CannotPanic mws
      → is_panic (chain h mws) ≡ false
  unfolding chain
  chain-returns h [] total = refl
  chain-returns h (mw ∷ mws) (first, total) =
      wrap_in-returns mw (chain h mws) first (chain-returns h mws total)
