-- ===== src/Envelope/Attributes/Carried.antt =====
-- What Decode makes of the pairs of an event, in whatever order a map of them is read.
use mathlib.Core.Path.{subst}
use event_driven.Prelude.{
  ◌≡◌, refl, sym, ap, ◌∙◌, Bytes, str, bytes_eq, any, false, none, some, [], ◌∷◌, ◌++◌, if_false,
  lookup, Bool-cases, inl, inr,
}
use event_driven.Error.{Result, ok}
use event_driven.Event.CloudEvents.{CloudEvents}
use event_driven.Envelope.{
  Formats, Defaults, Pairs, prefix, or_json, structured_type, decode_event, decode_attributes,
  defaulted, with_data, and_rest, content_type, check_data, validated, check_structured,
}
use event_driven.Envelope.Decoded.{names}
use event_driven.Envelope.Attributes.{attribute, slot, required, IsStorable}
use event_driven.Envelope.Attributes.Copied.{IsGood, decode-copied}
use event_driven.Envelope.Attributes.Names.{IsReading, clean-AllGood, names-nodup, names-missing}

or_json_twice : (ct : Bytes) → or_json (or_json ct) ≡ or_json ct
or_json_twice [] = refl
or_json_twice (c ∷ s) = refl

module _ (sdk : CloudEvents) (fmt : Formats sdk) (from : sdk.Event)
    (h : IsStorable sdk fmt from) where
  -- The data of `from`, stored in an event with its attributes, makes an event that Decode accepts.
  abbrev pub Restores : Result sdk.Event → Type 0
  Restores r =
      (ce : sdk.Event) × (r ≡ ok ce)
      × ((n : Bytes) → attribute sdk fmt n ce ≡ attribute sdk fmt n from)
      × (sdk.content ce ≡ sdk.content from)
      × (content_type sdk fmt ce ≡ content_type sdk fmt from)

  with_data-Restores :
      (e : sdk.Event)
      → ((n : Bytes) → slot sdk fmt n e ≡ slot sdk fmt n from)
      → Restores (with_data sdk fmt (content_type sdk fmt from) (sdk.content from) e)
  unfolding content_type
  with_data-Restores e same =
      let (e', stored, kept, body, ct) = h.set_data e (λ n. ap (λ x. x.1) (same n) ∙ h.clean n) in
      let same' : (n : Bytes) → slot sdk fmt n e' ≡ slot sdk fmt n from = λ n. kept n ∙ same n in
      let set : with_data sdk fmt (content_type sdk fmt from) (sdk.content from) e
          ≡ check_data sdk fmt (ok e') =
        ap (check_data sdk fmt) (
          (λ i. fmt.set_data (or_json_twice (fmt.data_content_type from) i) (sdk.content from) e)
          ∙ stored) in
      (
        e',
        set ∙ ap (validated sdk fmt (str ": ") e') (h.valid e' same' ct),
        (λ n. ap (λ x. x.0) (same' n)),
        body,
        ct,
      )

  -- Decode gives back the event of which the pairs are a reading, in any order and under any defaults.
  pub decode_event-Restores :
      (attrs sent : Pairs) (def : Defaults)
      → ((k v : Bytes) → lookup k sent ≡ some v → IsGood sdk fmt from k v)
      → ((n : Bytes)
          → lookup (prefix ++ n) sent ≡ none
          → (any (bytes_eq n) required ≡ false) × (attribute sdk fmt n from ≡ []))
      → IsReading attrs sent
      → bytes_eq (content_type sdk fmt from) structured_type ≡ false
      → Restores (decode_event sdk fmt (content_type sdk fmt from) attrs (sdk.content from) def)
  unfolding decode_event
  decode_event-Restores attrs sent def clean complete reading binary =
      let good =
        clean-AllGood sdk fmt from attrs reading.once
          (λ k v q. clean k v (sym (reading.same k) ∙ q)) in
      let (e, decoded, merged) =
        decode-copied sdk fmt from attrs [] (defaulted sdk fmt def) good
          (names-nodup sdk fmt from attrs good reading.once) (λ n _. refl) in
      let absent : (n : Bytes)
          → any (bytes_eq n) (names sdk fmt attrs) ≡ false
          → slot sdk fmt n e ≡ slot sdk fmt n from =
        λ n k.
          let (other, empty) =
            complete n
              (sym (reading.same (prefix ++ n)) ∙ names-missing sdk fmt from n attrs good k) in
          merged n ∙ (rw k (h.blank def n other)) ∙ sym (λ i. (empty i, h.clean n i)) in
      let same : (n : Bytes) → slot sdk fmt n e ≡ slot sdk fmt n from = λ n.
        elim (Bool-cases (any (bytes_eq n) (names sdk fmt attrs))) [
          | inl k ↦ merged n ∙ rw k refl
          | inr k ↦ absent n k
        ] in
      let finish = with_data sdk fmt (content_type sdk fmt from) (sdk.content from) in
      if_false Restores (bytes_eq (content_type sdk fmt from) structured_type)
        (check_structured sdk fmt (fmt.unmarshal (sdk.content from)))
        (and_rest sdk fmt finish (decode_attributes sdk fmt attrs [] (defaulted sdk fmt def)))
        binary
        (subst Restores (sym (ap (and_rest sdk fmt finish) decoded)) (with_data-Restores e same))
