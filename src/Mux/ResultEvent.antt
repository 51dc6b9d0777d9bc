-- ===== src/Mux/ResultEvent.antt =====
-- publishResult of pkg/eventmux/mux.go: the event that carries a handler's result.
pub mod Extensions
use event_driven.Prelude.{
  Bytes, str, bytes_eq, is_empty, lookup, delete, List, [], ◌∷◌, ◌++◌, Option, some, is_some, Bool,
  ◌||◌, if◌then◌else◌, returned,
}
use event_driven.Error.{Err, non_retryable, wrap, Result, ok, err}
use event_driven.Event.CloudEvents.{CloudEvents}
use event_driven.Event.DeadLetter.{ext_dead_letter_reason, ext_dead_letter_error}
use event_driven.Event.Correlation.{ext_correlation_id, ext_causation_id}
use event_driven.Event.Message.{Context}
use event_driven.Mux.Types.{Mux, Runtime, Publisher, Metadata}
use event_driven.Mux.Effects.{
  M, ◌>>=◌, ◌>>◌, pure, emit, get_msg, logged, reserved_extension_ignored, to_result,
}
use event_driven.Mux.Failure.{publish_event}

abbrev pub reserved_extensions : List Bytes
reserved_extensions =
    ext_correlation_id ∷ ext_causation_id ∷ ext_dead_letter_reason ∷ ext_dead_letter_error ∷ []

-- The metadata without the reserved keys.
unfoldable pub drop_reserved : List Bytes → Metadata → Metadata
drop_reserved [] meta = meta
drop_reserved (k ∷ ks) meta = drop_reserved ks (delete k meta)

-- How often the loop over the reserved keys logs.
unfoldable pub hijacked : List Bytes → Metadata → List Bytes
hijacked [] meta = []
hijacked (k ∷ ks) meta =
    (if is_some (lookup k meta) then k ∷ [] else []) ++ hijacked ks (delete k meta)

-- A parent's extension that the result does not inherit.
unfoldable pub is_dropped : Metadata → Bytes → Bool
is_dropped meta k =
    is_some (lookup k meta)
    || bytes_eq k ext_causation_id
    || bytes_eq k ext_dead_letter_reason
    || bytes_eq k ext_dead_letter_error

module _ (sdk : CloudEvents) where
  unfoldable pub add_metadata : Metadata → sdk.Event → sdk.Event
  add_metadata [] ce = ce
  add_metadata ((k, v) ∷ meta) ce = add_metadata meta (sdk.set_extension k (sdk.text v) ce)

  unfoldable pub inherit : Metadata → List (Bytes × sdk.Value) → sdk.Event → sdk.Event
  unfolding is_dropped
  inherit meta [] ce = ce
  inherit meta ((k, v) ∷ exts) ce =
      inherit meta exts (if is_dropped meta k then ce else sdk.set_extension k v ce)

  abbrev pub set_causation : Bytes → sdk.Event → sdk.Event
  set_causation id ce =
      if is_empty id then ce else sdk.set_extension ext_causation_id (sdk.text id) ce

  -- The event with its extensions: `ce` already has its attributes and data.
  unfoldable pub extend_result : Metadata → sdk.Event → sdk.Event → sdk.Event
  unfolding add_metadata inherit drop_reserved
  extend_result store parent ce =
      let meta = drop_reserved reserved_extensions store in
      set_causation (sdk.id parent) (inherit meta (sdk.extensions parent) (add_metadata meta ce))

  unfoldable pub base_result : Bytes → sdk.Time → sdk.Event → sdk.Event
  base_result uuid time parent = sdk.set_time time (
      sdk.set_type (sdk.type parent ++ str ".result")
        (sdk.set_source (sdk.source parent) (sdk.set_id uuid sdk.new)))

module _ {sdk : CloudEvents} {S : Type 0} where
  unfoldable pub log_hijacked : List Bytes → M sdk S (Unit {0})
  log_hijacked [] = pure tt
  log_hijacked (k ∷ ks) = do emit (logged reserved_extension_ignored); log_hijacked ks

  abbrev pub take_uuid : Runtime sdk S → M sdk S Bytes
  take_uuid rt w =
      let (uuid, s) = rt.new_uuid w.outside in (returned uuid, record w { outside = s })

  abbrev pub take_time : Runtime sdk S → M sdk S sdk.Time
  take_time rt w = let (time, s) = rt.now w.outside in (returned time, record w { outside = s })

  abbrev pub get_store : M sdk S Metadata
  get_store w = (returned w.store, w)

module _ {sdk : CloudEvents} {S A : Type 0} where
  abbrev pub send_result :
      Mux sdk S A → Context → Publisher sdk S → sdk.Event → Result sdk.Event → M sdk S (Option Err)
  send_result mux ctx p parent (err e) =
      pure (some (non_retryable (wrap (str "encode result data: ") e)))
  send_result mux ctx p parent (ok ce) = do
    store ← get_store
    log_hijacked (hijacked reserved_extensions store)
    publish_event mux.cfg to_result p ctx (extend_result sdk store parent ce)

  unfoldable pub publish_result :
      Mux sdk S A → Context → Bytes → Publisher sdk S → M sdk S (Option Err)
  unfolding publish_event extend_result base_result log_hijacked hijacked
  publish_result mux ctx value p = do
    msg ← get_msg
    uuid ← take_uuid mux.runtime
    time ← take_time mux.runtime
    send_result mux ctx p msg.event (sdk.set_json value (base_result sdk uuid time msg.event))
