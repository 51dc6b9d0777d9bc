-- ===== src/Mux/ResultEvent/Extensions.antt =====
-- Which extensions a result event carries.
use mathlib.Core.Option
use event_driven.Prelude.{
  Bytes, bytes_eq, bytes_eq_iff, is_empty, lookup, lookup-delete, delete, any, ◌≡◌, refl, arith,
  List, [], ◌∷◌, ◌||◌, ◌&&◌, not, some, none, Bool, true, if◌then◌else◌, Bool-cases, inl, inr,
}
use event_driven.Error.{or_else}
use event_driven.Event.CloudEvents.{CloudEvents, is_extension_name}
use event_driven.Event.DeadLetter.{ext_dead_letter_reason, ext_dead_letter_error}
use event_driven.Event.Correlation.{ext_causation_id}
use event_driven.Mux.Types.{Metadata}
use event_driven.Mux.ResultEvent.{
  reserved_extensions, drop_reserved, is_dropped, add_metadata, inherit, set_causation,
  extend_result,
}

-- The entries of a Go map: every key once, and every key a valid extension name.
abbrev pub IsExtensionMap {ℓ} : {V : Type ℓ} → List (Bytes × V) → Type ℓ
IsExtensionMap [] = Unit
IsExtensionMap ((k, v) ∷ m) = (is_extension_name k ≡ true) × (lookup k m ≡ none) × IsExtensionMap m

lookup-delete-none {ℓ} :
    {V : Type ℓ} (k j : Bytes) (m : List (Bytes × V))
    → lookup j m ≡ none
    → lookup j (delete k m) ≡ none
lookup-delete-none k j m h = rw lookup-delete (ground (arith, h))

delete-IsExtensionMap {ℓ} :
    {V : Type ℓ} (k : Bytes) (m : List (Bytes × V)) → IsExtensionMap m → IsExtensionMap (delete k m)
unfolding delete
delete-IsExtensionMap k [] h = tt
delete-IsExtensionMap k ((j, v) ∷ m) (name, fresh, h) = elim (Bool-cases (bytes_eq j k)) [
  | inl same ↦ rw same (delete-IsExtensionMap k m h)
  | inr other ↦ rw other (name, lookup-delete-none k j m fresh, delete-IsExtensionMap k m h)
]

drop_reserved-IsExtensionMap :
    (ks : List Bytes) (m : Metadata) → IsExtensionMap m → IsExtensionMap (drop_reserved ks m)
unfolding drop_reserved
drop_reserved-IsExtensionMap [] m h = h
drop_reserved-IsExtensionMap (k ∷ ks) m h =
    drop_reserved-IsExtensionMap ks (delete k m) (delete-IsExtensionMap k m h)

drop_reserved-lookup :
    (ks : List Bytes) (m : Metadata) (j : Bytes)
    → lookup j (drop_reserved ks m) ≡ (if any (λ k. bytes_eq k j) ks then none else lookup j m)
unfolding drop_reserved
drop_reserved-lookup [] m j = refl
drop_reserved-lookup (k ∷ ks) m j =
    ground (arith, drop_reserved-lookup ks (delete k m) j, lookup-delete k j m)

-- The keys that only the mux sets, or that a result does not inherit.
abbrev pub is_reserved : Bytes → Bool
is_reserved j = any (λ k. bytes_eq k j) reserved_extensions

abbrev pub is_private : Bytes → Bool
is_private j =
    bytes_eq j ext_causation_id
    || bytes_eq j ext_dead_letter_reason
    || bytes_eq j ext_dead_letter_error

causation_name : is_extension_name ext_causation_id ≡ true
unfolding is_extension_name bytes_eq
causation_name = refl

module _ (sdk : CloudEvents) where
  add_metadata-lookup :
      (meta : Metadata) (ce : sdk.Event) (j : Bytes)
      → IsExtensionMap meta
      → lookup j (sdk.extensions (add_metadata sdk meta ce))
        ≡ or_else (Option.map sdk.text (lookup j meta)) (lookup j (sdk.extensions ce))
  unfolding add_metadata lookup
  add_metadata-lookup [] ce j h = refl
  add_metadata-lookup ((k, v) ∷ meta) ce j (name, fresh, h) = ground (
    arith,
    add_metadata-lookup meta (sdk.set_extension k (sdk.text v) ce) j h,
    sdk.set_extension-lookup k j (sdk.text v) ce name,
    bytes_eq_iff k j,
  )

  inherit-lookup :
      (meta : Metadata) (exts : List (Bytes × sdk.Value)) (ce : sdk.Event) (j : Bytes)
      → IsExtensionMap exts
      → lookup j (sdk.extensions (inherit sdk meta exts ce)) ≡ (
          if is_dropped meta j
          then lookup j (sdk.extensions ce)
          else or_else (lookup j exts) (lookup j (sdk.extensions ce)))
  unfolding inherit lookup
  inherit-lookup meta [] ce j h = ground arith
  inherit-lookup meta ((k, v) ∷ exts) ce j (name, fresh, h) =
      elim (Bool-cases (is_dropped meta k)) [
        | inl dropped ↦
            rw dropped (ground (arith, inherit-lookup meta exts ce j h, bytes_eq_iff k j))
        | inr kept ↦ rw kept (
            ground (
              arith,
              inherit-lookup meta exts (sdk.set_extension k v ce) j h,
              sdk.set_extension-lookup k j v ce name,
              bytes_eq_iff k j,
            ))
      ]

  set_causation-lookup :
      (id j : Bytes) (ce : sdk.Event)
      → lookup j (sdk.extensions (set_causation sdk id ce)) ≡ (
          if not (is_empty id) && bytes_eq ext_causation_id j
          then some (sdk.text id)
          else lookup j (sdk.extensions ce))
  set_causation-lookup [] j ce = refl
  set_causation-lookup (c ∷ id) j ce =
      sdk.set_extension-lookup ext_causation_id j (sdk.text (c ∷ id)) ce causation_name

  -- The extensions of a result event, key by key: the mux's causation id (the id of the event that
  -- was handled, if it has one), then the handler's metadata unless the key is reserved, then
  -- what the handled event carried, except its causation id and its dead-letter marks. The
  -- metadata and the handled event's extensions are maps whose keys are valid extension names.
  pub result_extensions :
      (store : Metadata) (parent ce : sdk.Event) (j : Bytes)
      → IsExtensionMap store
      → IsExtensionMap (sdk.extensions parent)
      → sdk.extensions ce ≡ []
      → lookup j (sdk.extensions (extend_result sdk store parent ce)) ≡ (
          if not (is_empty (sdk.id parent)) && bytes_eq ext_causation_id j
          then some (sdk.text (sdk.id parent))
          else or_else
              (if is_reserved j then none else Option.map sdk.text (lookup j store))
              (if is_private j then none else lookup j (sdk.extensions parent)))
  unfolding extend_result is_dropped lookup
  result_extensions store parent ce j h k e =
      let meta = drop_reserved reserved_extensions store in
      let base = add_metadata sdk meta ce in
      let whole = inherit sdk meta (sdk.extensions parent) base in
      rw set_causation-lookup (
        ground (
          arith,
          drop_reserved-lookup reserved_extensions store j,
          add_metadata-lookup meta ce j (drop_reserved-IsExtensionMap reserved_extensions store h),
          inherit-lookup meta (sdk.extensions parent) base j k,
        ))
