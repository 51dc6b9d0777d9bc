-- ===== src/Nats/Drains.antt =====
-- How often a subscription is drained.
use event_driven.Prelude.{
  suc, ◌≤◌, ◌≡◌, refl, ap, arith, true, false, Option, none, some, Bool, if◌then◌else◌, List, [],
  ◌∷◌, not, Bool-cases, inl, inr, if_true, if_false,
}
use event_driven.Error.{Err}
use event_driven.Nats.Core.{
  Connection, Subscriber, subscribe, after_subscribe, await_drain, after_drain, start, stop,
}

-- A call of the subscriber's owner.
pub data Action : Type 0 where
  starts : Action
  stops : (expired : Bool) → Action

module _ {S : Type 0} (nc : Connection S) where
  abbrev pub act : Action → Subscriber S → Subscriber S
  act starts sub = (start nc sub).1
  act (stops expired) sub = (stop nc expired sub).1

  abbrev pub act_all : List Action → Subscriber S → Subscriber S
  act_all [] sub = sub
  act_all (a ∷ actions) sub = act_all actions (act a sub)

  -- A subscription is drained once if its drain is under way or it is over, and otherwise not.
  pub record IsOnce (sub : Subscriber S) : Type 0 where
    pub bound : sub.drains ≤ 1
    pub undrained : sub.subscribed ≡ true → sub.draining ≡ false → sub.drains ≡ 0
    pub idle : sub.subscribed ≡ false → sub.draining ≡ false

  abbrev Once : Option Err × Subscriber S → Type 0
  Once x = IsOnce x.1

  after_subscribe-Once :
      (sub : Subscriber S) (x : Option Err × S) → IsOnce sub → Once (after_subscribe nc sub x)
  after_subscribe-Once sub (some e, s) h = record {
    bound = h.bound;
    undrained = h.undrained;
    idle = h.idle;
  }
  after_subscribe-Once sub (none, s) h = record {
    bound = omega arith;
    undrained = λ _ _. refl;
    idle = λ k. cc;
  }

  await_drain-Once :
      (expired : Bool) (sub : Subscriber S) → IsOnce sub → Once (await_drain nc expired sub)
  await_drain-Once true sub h = h
  await_drain-Once false sub h = record { bound = h.bound; undrained = λ k _. cc; idle = λ _. refl }

  after_drain-Once :
      (expired : Bool) (sub : Subscriber S) (x : Option Err × S)
      → sub.drains ≡ 0
      → sub.subscribed ≡ true
      → Once (after_drain nc expired sub x)
  after_drain-Once expired sub (some e, s) d on = record {
    bound = omega (arith, d);
    undrained = λ _ k. cc;
    idle = λ k. cc;
  }
  after_drain-Once expired sub (none, s) d on =
      await_drain-Once expired
        (record sub { draining = true; drains = suc sub.drains; outside = s })
        (record { bound = omega (arith, d); undrained = λ _ k. cc; idle = λ k. cc })

  act-IsOnce : (a : Action) (sub : Subscriber S) → IsOnce sub → IsOnce (act a sub)
  unfolding start stop
  act-IsOnce starts sub h = elim (Bool-cases sub.subscribed) [
    | inl on ↦
        if_true Once sub.subscribed (some _, sub)
          (after_subscribe nc sub (subscribe nc sub.cfg sub.outside)) on h
    | inr off ↦
        if_false Once sub.subscribed (some _, sub)
          (after_subscribe nc sub (subscribe nc sub.cfg sub.outside)) off
          (after_subscribe-Once sub _ h)
  ]
  act-IsOnce (stops expired) sub h =
      let again = await_drain nc expired sub in
      let first = after_drain nc expired sub (nc.drain sub.outside) in
      elim (Bool-cases sub.subscribed) [
        | inr off ↦
            if_true Once (not sub.subscribed) (none, record sub { draining = false })
              (if sub.draining then again else first) (ap not off)
              (record { bound = h.bound; undrained = λ k _. cc; idle = λ _. refl })
        | inl on ↦
            if_false Once (not sub.subscribed) (none, record sub { draining = false })
              (if sub.draining then again else first) (ap not on)
              (elim (Bool-cases sub.draining) [
                | inl busy ↦
                    if_true Once sub.draining again first busy (await_drain-Once expired sub h)
                | inr calm ↦
                    if_false Once sub.draining again first calm
                      (after_drain-Once expired sub (nc.drain sub.outside) (h.undrained on calm) on)
              ])
      ]

  -- In whatever order Start and Stop are called, and however many Stops expire or fail, Drain is called
  -- at most once on a subscription.
  pub act_all-drains :
      (actions : List Action) (sub : Subscriber S) → IsOnce sub → (act_all actions sub).drains ≤ 1
  act_all-drains [] sub h = h.bound
  act_all-drains (a ∷ actions) sub h = act_all-drains actions (act a sub) (act-IsOnce a sub h)
