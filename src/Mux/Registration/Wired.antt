-- ===== src/Mux/Registration/Wired.antt =====
-- What a wired mux satisfies, and how adding a route or middlewares and freezing keep it.
use event_driven.Prelude.{
  ◌≡◌, refl, sym, ap, arith, true, false, Bool, Option, List, [], ◌∷◌, ◌++◌, map, All, ◌||◌,
  if_both, if◌then◌else◌, if_true, if_false, ◌∙◌, Bytes, Called, returned, panicked, is_panic,
  Bool-cases, inl, inr,
}
use event_driven.Event.CloudEvents.{CloudEvents}
use event_driven.Mux.Types.{Mux, Route, Middleware, Filter, Observer, HandlerFunc, chain}
use event_driven.Mux.Registration.{
  identical, is_duplicate, add_route, noop_handler, freeze, build_chains, observe_publishers,
  observe_route, with_routes, with_preflight, chain_route, chain_routes,
}
use event_driven.Mux.Registration.Chains.{CannotPanic, chain-returns}
use mathlib.Core.Path.{subst}

split-or : (a b : Bool) → (a || b) ≡ false → (a ≡ false) × (b ≡ false)
split-or a b h = ground arith

module _ {sdk : CloudEvents} {S A : Type 0} where
  -- No two routes have the same filter.
  abbrev pub AreDistinct : List (Route sdk S A) → Type 0
  AreDistinct [] = Unit
  AreDistinct (r ∷ rs) = All (λ s. identical r.filter s.filter ≡ false) rs × AreDistinct rs

  -- The chain that Start has built for a route.
  abbrev pub IsChained : List (Middleware S A) → Route sdk S A → Type 0
  IsChained mws rt = chain rt.handler mws ≡ returned rt.chained

  pub record IsWired (mux : Mux sdk S A) : Type 0 where
    pub distinct : AreDistinct mux.routes
    pub frozen_first : mux.started ≡ true → mux.frozen ≡ true
    pub chained :
        mux.frozen ≡ true
        → CannotPanic mux.preflight_middlewares
        → CannotPanic mux.middlewares
        → All (IsChained mux.middlewares) mux.routes
    pub checked :
        mux.frozen ≡ true
        → CannotPanic mux.preflight_middlewares
        → chain noop_handler mux.preflight_middlewares ≡ returned mux.preflight

  All-concat :
      (q : Route sdk S A) (rs : List (Route sdk S A)) (r : Route sdk S A)
      → All (λ s. identical q.filter s.filter ≡ false) rs
      → identical q.filter r.filter ≡ false
      → All (λ s. identical q.filter s.filter ≡ false) (rs ++ r ∷ [])
  All-concat q [] r h k = (k, tt)
  All-concat q (x ∷ rs) r (j, h) k = (j, All-concat q rs r h k)

  AreDistinct-append :
      (rs : List (Route sdk S A)) (r : Route sdk S A)
      → AreDistinct rs
      → is_duplicate r.filter rs ≡ false
      → AreDistinct (rs ++ r ∷ [])
  unfolding is_duplicate
  AreDistinct-append [] r d h = (tt, tt)
  AreDistinct-append (q ∷ rs) r (fresh, d) h =
      let (differs, rest) = split-or (identical q.filter r.filter) _ h in
      (All-concat q rs r fresh differs, AreDistinct-append rs r d rest)

  pub add_route-IsWired :
      (r : Route sdk S A) (m : Mux sdk S A)
      → m.frozen ≡ false
      → is_duplicate r.filter m.routes ≡ false
      → IsWired m
      → IsWired (add_route r m)
  add_route-IsWired r m open_ fresh h = record {
    distinct = AreDistinct-append m.routes r h.distinct fresh;
    frozen_first = h.frozen_first;
    chained = λ k total safe. cc;
    checked = λ k total. cc;
  }

  -- The filters of the routes, which wrapping and observing keep.
  abbrev filters : List (Route sdk S A) → List (Option (Filter sdk S))
  filters rs = map (λ r. r.filter) rs

  All-filters :
      (f : Option (Filter sdk S)) (rs rs' : List (Route sdk S A))
      → filters rs' ≡ filters rs
      → All (λ s. identical f s.filter ≡ false) rs
      → All (λ s. identical f s.filter ≡ false) rs'
  All-filters f [] [] same h = tt
  All-filters f [] (r' ∷ rs') same h = cc
  All-filters f (r ∷ rs) [] same h = tt
  All-filters f (r ∷ rs) (r' ∷ rs') same (k, h) =
      let first : r'.filter ≡ r.filter = cc in
      let others : filters rs' ≡ filters rs = cc in (rw first k, All-filters f rs rs' others h)

  AreDistinct-filters :
      (rs rs' : List (Route sdk S A)) → filters rs' ≡ filters rs → AreDistinct rs → AreDistinct rs'
  AreDistinct-filters [] [] same h = tt
  AreDistinct-filters [] (r' ∷ rs') same h = cc
  AreDistinct-filters (r ∷ rs) [] same h = tt
  AreDistinct-filters (r ∷ rs) (r' ∷ rs') same (fresh, h) =
      let first : r'.filter ≡ r.filter = cc in
      let others : filters rs' ≡ filters rs = cc in
      (
        subst (λ f. All (λ s. identical f s.filter ≡ false) rs') (sym first)
            (All-filters r.filter rs rs' others fresh),
        AreDistinct-filters rs rs' others h,
      )

  chain_route-filters :
      (r : Route sdk S A) (rs : List (Route sdk S A))
      (rest : Called (Unit {0}) × List (Route sdk S A)) (x : Called (HandlerFunc S A))
      → filters rest.1 ≡ filters rs
      → filters (chain_route r rs rest x).1 ≡ filters (r ∷ rs)
  chain_route-filters r rs rest (returned h) same = ap (λ fs. r.filter ∷ fs) same
  chain_route-filters r rs rest (panicked v) same = refl

  chain_routes-filters :
      (mws : List (Middleware S A)) (rs : List (Route sdk S A))
      → filters (chain_routes mws rs).1 ≡ filters rs
  unfolding chain_routes
  chain_routes-filters mws [] = refl
  chain_routes-filters mws (r ∷ rs) =
      chain_route-filters r rs (chain_routes mws rs) (chain r.handler mws)
        (chain_routes-filters mws rs)

  observe-filters :
      (o : Option (Observer sdk S)) (rs : List (Route sdk S A))
      → filters (map (observe_route o) rs) ≡ filters rs
  observe-filters o [] = refl
  observe-filters o (r ∷ rs) = ap (λ fs. r.filter ∷ fs) (observe-filters o rs)

  observe-IsChained :
      (o : Option (Observer sdk S)) (mws : List (Middleware S A)) (rs : List (Route sdk S A))
      → All (IsChained mws) rs
      → All (IsChained mws) (map (observe_route o) rs)
  observe-IsChained o mws [] h = tt
  observe-IsChained o mws (r ∷ rs) (k, h) = (k, observe-IsChained o mws rs h)

  chain_route-IsChained :
      (mws : List (Middleware S A)) (r : Route sdk S A) (rs : List (Route sdk S A))
      (rest : Called (Unit {0}) × List (Route sdk S A)) (x : Called (HandlerFunc S A))
      → chain r.handler mws ≡ x
      → is_panic x ≡ false
      → All (IsChained mws) rest.1
      → All (IsChained mws) (chain_route r rs rest x).1
  chain_route-IsChained mws r rs rest (returned h) e total k = (e, k)
  chain_route-IsChained mws r rs rest (panicked v) e total k = cc

  chain_routes-IsChained :
      (mws : List (Middleware S A)) (rs : List (Route sdk S A))
      → CannotPanic mws
      → All (IsChained mws) (chain_routes mws rs).1
  unfolding chain_routes
  chain_routes-IsChained mws [] total = tt
  chain_routes-IsChained mws (r ∷ rs) total =
      chain_route-IsChained mws r rs (chain_routes mws rs) (chain r.handler mws) refl
        (chain-returns r.handler mws total) (chain_routes-IsChained mws rs total)

  with_routes-IsWired :
      (mux : Mux sdk S A) (x : Called (Unit {0}) × List (Route sdk S A))
      → mux.frozen ≡ true
      → AreDistinct x.1
      → (CannotPanic mux.middlewares → All (IsChained mux.middlewares) x.1)
      → (CannotPanic mux.preflight_middlewares
          → chain noop_handler mux.preflight_middlewares ≡ returned mux.preflight)
      → IsWired (with_routes mux x).1
  unfolding observe_publishers
  with_routes-IsWired mux (returned a, rs) f d c p = record {
    distinct =
        AreDistinct-filters rs (map (observe_route mux.cfg.observer) rs)
          (observe-filters mux.cfg.observer rs) d;
    frozen_first = λ k. f;
    chained = λ k total safe. observe-IsChained mux.cfg.observer mux.middlewares rs (c safe);
    checked = λ k total. p total;
  }
  with_routes-IsWired mux (panicked v, rs) f d c p = record {
    distinct = d;
    frozen_first = λ k. f;
    chained = λ k total safe. c safe;
    checked = λ k total. p total;
  }

  chain-panics :
      (mux : Mux sdk S A) (v : Bytes)
      → chain noop_handler mux.preflight_middlewares ≡ panicked v
      → CannotPanic mux.preflight_middlewares
      → (P : Type 0) → P
  chain-panics mux v e total P =
      let none_panics = chain-returns noop_handler mux.preflight_middlewares total in
      let impossible : true ≡ false = sym (ap is_panic e) ∙ none_panics in
      absurd (subst (λ b. if b then Unit {0} else ⊥) impossible tt)

  with_preflight-IsWired :
      (mux : Mux sdk S A) (x : Called (HandlerFunc S A))
      → mux.frozen ≡ true
      → chain noop_handler mux.preflight_middlewares ≡ x
      → AreDistinct mux.routes
      → IsWired (with_preflight mux x).1
  with_preflight-IsWired mux (returned h) f e d =
      with_routes-IsWired (record mux { preflight = h }) (chain_routes mux.middlewares mux.routes) f
        (AreDistinct-filters mux.routes (chain_routes mux.middlewares mux.routes).1
          (chain_routes-filters mux.middlewares mux.routes) d)
        (chain_routes-IsChained mux.middlewares mux.routes) (λ k. e)
  with_preflight-IsWired mux (panicked v) f e d = record {
    distinct = d;
    frozen_first = λ k. f;
    chained = λ k total safe. chain-panics mux v e total _;
    checked = λ k total. chain-panics mux v e total _;
  }

  build_chains-IsWired : (m : Mux sdk S A) → IsWired m → IsWired (build_chains m).1
  unfolding build_chains
  build_chains-IsWired m h =
      with_preflight-IsWired (record m { frozen = true })
        (chain noop_handler m.preflight_middlewares) refl refl h.distinct

  pub freeze-IsWired : (m : Mux sdk S A) → IsWired m → IsWired (freeze m).1
  unfolding freeze
  freeze-IsWired m h =
      if_both (λ (x : Called (Unit {0}) × Mux sdk S A). IsWired x.1) m.frozen (returned tt, m)
        (build_chains m) h (build_chains-IsWired m h)

  with_routes-frozen :
      (mux : Mux sdk S A) (x : Called (Unit {0}) × List (Route sdk S A))
      → (with_routes mux x).1.frozen ≡ mux.frozen
  unfolding observe_publishers
  with_routes-frozen mux (returned a, rs) = refl
  with_routes-frozen mux (panicked v, rs) = refl

  with_preflight-frozen :
      (mux : Mux sdk S A) (x : Called (HandlerFunc S A))
      → (with_preflight mux x).1.frozen ≡ mux.frozen
  with_preflight-frozen mux (returned h) =
      with_routes-frozen (record mux { preflight = h }) (chain_routes mux.middlewares mux.routes)
  with_preflight-frozen mux (panicked v) = refl

  pub freeze-frozen : (m : Mux sdk S A) → (freeze m).1.frozen ≡ true
  unfolding freeze build_chains
  freeze-frozen m = elim (Bool-cases m.frozen) [
    | inl on ↦
        if_true (λ (x : Called (Unit {0}) × Mux sdk S A). x.1.frozen ≡ true) m.frozen
          (returned tt, m) (build_chains m) on on
    | inr off ↦
        if_false (λ (x : Called (Unit {0}) × Mux sdk S A). x.1.frozen ≡ true) m.frozen
          (returned tt, m) (build_chains m) off
          (with_preflight-frozen (record m { frozen = true })
            (chain noop_handler m.preflight_middlewares))
  ]

  pub with_middlewares-IsWired :
      (mws pre : List (Middleware S A)) (m : Mux sdk S A)
      → m.frozen ≡ false
      → IsWired m
      → IsWired (record m { middlewares = mws; preflight_middlewares = pre })
  with_middlewares-IsWired mws pre m open_ h = record {
    distinct = h.distinct;
    frozen_first = h.frozen_first;
    chained = λ k total safe. cc;
    checked = λ k total. cc;
  }
