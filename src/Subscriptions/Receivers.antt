-- ===== src/Subscriptions/Receivers.antt =====
-- The contract, for the subscribers of Pub/Sub and JetStream.
use event_driven.Prelude.{
  ◌≡◌, refl, ap, ℕ, ◌∷◌, Bool, true, false, is_some, Option, none, some, if_both,
}
use event_driven.Error.{Err, Result, ok, err, sentinel, already_started}
use event_driven.Runs.{spawn, mark, member}
use event_driven.Runs.Laws.{clear-current}
use event_driven.Pubsub.Receiver as Pubsub
use event_driven.JetStream.Consumer as JetStream
use event_driven.Subscriptions.{Keeps}

module _ {S : Type 0} where
  abbrev pub pubsub_on : Pubsub.Subscriber S → Bool
  pubsub_on sub = is_some sub.runs.current

  abbrev pub jetstream_on : JetStream.Subscriber S → Bool
  jetstream_on sub = is_some sub.runs.current

  pubsub-after_lookup :
      (client : Pubsub.Client S) (sub : Pubsub.Subscriber S) (x : Option Err × S)
      → Keeps pubsub_on true (pubsub_on sub) (Pubsub.after_lookup client sub x)
  unfolding spawn
  pubsub-after_lookup client sub (some e, s) = refl
  pubsub-after_lookup client sub (none, s) = refl

  pub pubsub-start :
      (client : Pubsub.Client S) (sub : Pubsub.Subscriber S)
      → Keeps pubsub_on true (pubsub_on sub) (Pubsub.start client sub)
  unfolding Pubsub.start
  pubsub-start client sub =
      if_both (Keeps pubsub_on true (pubsub_on sub)) (is_some sub.runs.current)
        (some (sentinel already_started), sub) (Pubsub.after_lookup client sub _) refl
        (pubsub-after_lookup client sub _)

  pubsub-stop_end :
      (n : ℕ) (expired : Option Err) (sub : Pubsub.Subscriber S)
      → sub.runs.current ≡ some n
      → Keeps pubsub_on false (pubsub_on sub) (Pubsub.stop_end n expired sub)
  unfolding Pubsub.stop_end
  pubsub-stop_end n none sub h = ap is_some (clear-current n sub.runs h)
  pubsub-stop_end n (some e) sub h = refl

  pubsub-stop_rest :
      (o : Option ℕ) (expired : Option Err) (sub : Pubsub.Subscriber S)
      → sub.runs.current ≡ o
      → Keeps pubsub_on false
          (pubsub_on sub)
          (Pubsub.stop_rest expired (Pubsub.cancel_current sub o))
  unfolding mark
  pubsub-stop_rest none expired sub h = ap is_some h
  pubsub-stop_rest (some n) expired sub h =
      pubsub-stop_end n expired (record sub { runs = mark n sub.runs }) h

  pub pubsub-stop :
      (expired : Option Err) (sub : Pubsub.Subscriber S)
      → Keeps pubsub_on false (pubsub_on sub) (Pubsub.stop expired sub)
  unfolding Pubsub.stop Pubsub.stop_begin
  pubsub-stop expired sub = pubsub-stop_rest sub.runs.current expired sub refl

  jetstream-after_consume :
      (js : JetStream.Client S) (sub : JetStream.Subscriber S) (x : Option Err × S)
      → Keeps jetstream_on true (jetstream_on sub) (JetStream.after_consume js sub x)
  unfolding spawn
  jetstream-after_consume js sub (some e, s) = refl
  jetstream-after_consume js sub (none, s) = refl

  jetstream-with_consumer :
      (js : JetStream.Client S) (sub : JetStream.Subscriber S) (x : Result js.Consumer × S)
      → Keeps jetstream_on true (jetstream_on sub) (JetStream.with_consumer js sub x)
  jetstream-with_consumer js sub (err e, s) = refl
  jetstream-with_consumer js sub (ok consumer, s) = jetstream-after_consume js sub _

  jetstream-with_stream :
      (js : JetStream.Client S) (sub : JetStream.Subscriber S) (x : Result js.Stream × S)
      → Keeps jetstream_on true (jetstream_on sub) (JetStream.with_stream js sub x)
  jetstream-with_stream js sub (err e, s) = refl
  jetstream-with_stream js sub (ok stream, s) = jetstream-with_consumer js sub _

  pub jetstream-start :
      (js : JetStream.Client S) (sub : JetStream.Subscriber S)
      → Keeps jetstream_on true (jetstream_on sub) (JetStream.start js sub)
  unfolding JetStream.start
  jetstream-start js sub =
      if_both (Keeps jetstream_on true (jetstream_on sub)) (is_some sub.runs.current)
        (some (sentinel already_started), sub) (JetStream.with_stream js sub _) refl
        (jetstream-with_stream js sub _)

  jetstream-stop_end :
      (js : JetStream.Client S) (n : ℕ) (expired : Option Err) (before : Bool)
      (sub : JetStream.Subscriber S)
      → is_some sub.runs.current ≡ before
      → sub.runs.current ≡ some n
      → Keeps jetstream_on false before (JetStream.stop_end js n expired sub)
  unfolding JetStream.stop_end
  jetstream-stop_end js n none before sub b h = ap is_some (clear-current n sub.runs h)
  jetstream-stop_end js n (some e) before sub b h = b

  jetstream-stop_rest :
      (js : JetStream.Client S) (o : Option ℕ) (expired : Option Err) (sub : JetStream.Subscriber S)
      → sub.runs.current ≡ o
      → Keeps jetstream_on false
          (jetstream_on sub)
          (JetStream.stop_rest js expired (JetStream.drain_current js sub o))
  unfolding mark
  jetstream-stop_rest js none expired sub h = ap is_some h
  jetstream-stop_rest js (some n) expired sub h =
      if_both
        (λ (t : JetStream.Subscriber S).
          Keeps jetstream_on false (jetstream_on sub) (JetStream.stop_end js n expired t))
        (member n sub.runs.stopped) sub _ (jetstream-stop_end js n expired _ sub refl h)
        (jetstream-stop_end js n expired _
          (record sub {
            runs = mark n sub.runs;
            drains = n ∷ sub.drains;
            outside = js.drain n sub.outside;
          })
          refl h)

  pub jetstream-stop :
      (js : JetStream.Client S) (expired : Option Err) (sub : JetStream.Subscriber S)
      → Keeps jetstream_on false (jetstream_on sub) (JetStream.stop js expired sub)
  unfolding JetStream.stop JetStream.stop_begin
  jetstream-stop js expired sub = jetstream-stop_rest js sub.runs.current expired sub refl
