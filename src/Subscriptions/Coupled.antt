-- ===== src/Subscriptions/Coupled.antt =====
-- A router over a subscription that keeps the contract.
use event_driven.Prelude.{
  ◌≡◌, sym, ◌∙◌, Bool, true, false, Option, none, some, Called, returned, panicked, List, [], ◌∷◌,
  if_both,
}
use event_driven.Error.{Err}
use event_driven.Event.CloudEvents.{CloudEvents}
use event_driven.Mux.Types.{Mux, Route, HandlerFunc, chain}
use event_driven.Mux.Registration.{
  start, stop, finish_start, finish_stop, freeze, build_chains, start_frozen, with_routes,
  with_preflight, observe_publishers, chain_routes, noop_handler,
}
use event_driven.Subscriptions.{Follows, IsSubscription}

-- A call of the router's owner.
pub data Action : Type 0 where
  do_start do_stop : Action

module _ {sdk : CloudEvents} {S A : Type 0} where
  abbrev pub act : Action → Mux sdk S A × S → Mux sdk S A × S
  act do_start (mux, s) = let (r, mux', s') = start mux s in (mux', s')
  act do_stop (mux, s) = let (r, mux', s') = stop mux s in (mux', s')

  abbrev pub act_all : List Action → Mux sdk S A × S → Mux sdk S A × S
  act_all [] w = w
  act_all (a ∷ actions) w = act_all actions (act a w)

  module _ (on : S → Bool) where
    record IsCoupled (mux : Mux sdk S A) (s : S) : Type 0 where
      same : mux.started ≡ on s
      contract : IsSubscription mux.cfg.subscription on

    abbrev Coupled : Called (Option Err) × Mux sdk S A × S → Type 0
    Coupled x = IsCoupled x.1 x.2

    with_routes-IsCoupled :
        (mux : Mux sdk S A) (x : Called (Unit {0}) × List (Route sdk S A)) (s : S)
        → IsCoupled mux s
        → IsCoupled (with_routes mux x).1 s
    unfolding observe_publishers
    with_routes-IsCoupled mux (returned a, rs) s h = record { same = h.same; contract = h.contract }
    with_routes-IsCoupled mux (panicked v, rs) s h = record { same = h.same; contract = h.contract }

    with_preflight-IsCoupled :
        (mux : Mux sdk S A) (x : Called (HandlerFunc S A)) (s : S)
        → IsCoupled mux s
        → IsCoupled (with_preflight mux x).1 s
    with_preflight-IsCoupled mux (returned f) s h =
        with_routes-IsCoupled (record mux { preflight = f })
          (chain_routes mux.middlewares mux.routes) s
          (record { same = h.same; contract = h.contract })
    with_preflight-IsCoupled mux (panicked v) s h = h

    freeze-IsCoupled : (mux : Mux sdk S A) (s : S) → IsCoupled mux s → IsCoupled (freeze mux).1 s
    unfolding freeze build_chains
    freeze-IsCoupled mux s h =
        if_both (λ (x : Called (Unit {0}) × Mux sdk S A). IsCoupled x.1 s) mux.frozen
          (returned tt, mux) (build_chains mux) h
          (with_preflight-IsCoupled (record mux { frozen = true })
            (chain noop_handler mux.preflight_middlewares) s
            (record { same = h.same; contract = h.contract }))

    finish_start-Coupled :
        (mux : Mux sdk S A) (x : Called (Option Err) × S) (s : S)
        → IsCoupled mux s
        → Follows true (on s) (on x.1) x.0
        → Coupled (finish_start mux x)
    finish_start-Coupled mux (returned none, s') s h f = record {
      same = sym f;
      contract = h.contract;
    }
    finish_start-Coupled mux (returned (some e), s') s h f = record {
      same = h.same ∙ sym f;
      contract = h.contract;
    }
    finish_start-Coupled mux (panicked v, s') s h f = record {
      same = h.same ∙ sym f;
      contract = h.contract;
    }

    finish_stop-Coupled :
        (mux : Mux sdk S A) (x : Called (Option Err) × S) (s : S)
        → IsCoupled mux s
        → Follows false (on s) (on x.1) x.0
        → Coupled (finish_stop mux x)
    finish_stop-Coupled mux (returned none, s') s h f = record {
      same = sym f;
      contract = h.contract;
    }
    finish_stop-Coupled mux (returned (some e), s') s h f = record {
      same = h.same ∙ sym f;
      contract = h.contract;
    }
    finish_stop-Coupled mux (panicked v, s') s h f = record {
      same = h.same ∙ sym f;
      contract = h.contract;
    }

    start_frozen-Coupled :
        (s : S) (x : Called (Unit {0}) × Mux sdk S A) → IsCoupled x.1 s → Coupled (start_frozen s x)
    start_frozen-Coupled s (returned a, mux) h =
        finish_start-Coupled mux (mux.cfg.subscription.start s) s h (h.contract.starts s)
    start_frozen-Coupled s (panicked v, mux) h = h

    start-Coupled : (mux : Mux sdk S A) (s : S) → IsCoupled mux s → Coupled (start mux s)
    unfolding start
    start-Coupled mux s h =
        if_both Coupled mux.started _ (start_frozen s (freeze mux)) h
          (start_frozen-Coupled s (freeze mux) (freeze-IsCoupled mux s h))

    stop-Coupled : (mux : Mux sdk S A) (s : S) → IsCoupled mux s → Coupled (stop mux s)
    unfolding stop
    stop-Coupled mux s h =
        if_both Coupled mux.started (finish_stop mux (mux.cfg.subscription.stop s)) _
          (finish_stop-Coupled mux (mux.cfg.subscription.stop s) s h (h.contract.stops s)) h

    act_all-IsCoupled :
        (actions : List Action) (mux : Mux sdk S A) (s : S)
        → IsCoupled mux s
        → IsCoupled (act_all actions (mux, s)).0 (act_all actions (mux, s)).1
    act_all-IsCoupled [] mux s h = h
    act_all-IsCoupled (do_start ∷ actions) mux s h =
        let (r, mux', s') = start mux s in act_all-IsCoupled actions mux' s' (start-Coupled mux s h)
    act_all-IsCoupled (do_stop ∷ actions) mux s h =
        let (r, mux', s') = stop mux s in act_all-IsCoupled actions mux' s' (stop-Coupled mux s h)

  -- If the subscription keeps the contract, then after any sequence of Starts and Stops of the router, those
  -- included that fail or panic, the router takes itself to be started exactly if its subscription is.
  pub act_all-started :
      (on : S → Bool) (actions : List Action) (mux : Mux sdk S A) (s : S)
      → IsSubscription mux.cfg.subscription on
      → mux.started ≡ on s
      → (act_all actions (mux, s)).0.started ≡ on (act_all actions (mux, s)).1
  act_all-started on actions mux s contract same =
      (act_all-IsCoupled on actions mux s (record { same = same; contract = contract })).same
