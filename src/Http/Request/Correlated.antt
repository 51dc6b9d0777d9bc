-- ===== src/Http/Request/Correlated.antt =====
-- Which events of requests reach the router.
use event_driven.Prelude.{
  ◌≡◌, refl, true, none, some, Option, is_empty, Bytes, if_both, if_true, if_false, Bool-cases, inl,
  inr, bytes_eq,
}
use event_driven.Event.CloudEvents.{CloudEvents, is_extension_name}
use event_driven.Event.Correlation.{
  ext_correlation_id, correlation_id, validate_correlation_id, Refusal,
}
use event_driven.Http.Request.{
  Incoming, Library, SubscriberConfig, Extracted, Parsed, parsed, refused, too_large, unreadable,
  check_correlation_id, check_given_id, check_event, after_plain, extract_parsed,
  extract_cloud_event, is_cloud_events_request, plain_event,
}

module _ {sdk : CloudEvents} {S : Type 0} (lib : Library sdk S) (cfg : SubscriberConfig) where
  -- What the router may rely on in an event of a request.
  pub record IsAccepted (ce : sdk.Event) : Type 0 where
    pub id_valid : validate_correlation_id (sdk.id ce) ≡ none
    pub type_valid : lib.valid_string (sdk.type ce) ≡ true
    pub correlation_id_valid : validate_correlation_id (correlation_id sdk ce) ≡ none

  abbrev Sound : Extracted lib cfg → Type 0
  Sound x = x.1 ≡ none → IsAccepted x.0

  minted :
      (ce : sdk.Event) (b : Bytes)
      → correlation_id sdk (sdk.set_extension ext_correlation_id (sdk.text b) ce) ≡ b
  unfolding correlation_id is_extension_name bytes_eq
  minted ce b =
      rw (sdk.set_extension-lookup ext_correlation_id ext_correlation_id (sdk.text b) ce refl)
        (rw (sdk.as_text-text b) refl)

  check_given_id-Sound :
      (r : Incoming sdk) (ce : sdk.Event) (o : Option Refusal)
      → validate_correlation_id (sdk.id ce) ≡ none
      → lib.valid_string (sdk.type ce) ≡ true
      → validate_correlation_id (correlation_id sdk ce) ≡ o
      → Sound (check_given_id lib cfg r ce o)
  check_given_id-Sound r ce none i t h k = record {
    id_valid = i;
    type_valid = t;
    correlation_id_valid = h;
  }
  check_given_id-Sound r ce (some refusal) i t h k = cc

  check_correlation_id-Sound :
      (r : Incoming sdk) (ce : sdk.Event)
      → validate_correlation_id (sdk.id ce) ≡ none
      → lib.valid_string (sdk.type ce) ≡ true
      → Sound (check_correlation_id lib cfg r ce)
  check_correlation_id-Sound r ce i t =
      if_both Sound (is_empty (correlation_id sdk ce))
        (sdk.set_extension ext_correlation_id (sdk.text (sdk.id ce)) ce, none)
        (check_given_id lib cfg r ce (validate_correlation_id (correlation_id sdk ce)))
        (λ k. record {
          id_valid = rw (sdk.set_extension-id ext_correlation_id (sdk.text (sdk.id ce)) ce) i;
          type_valid = rw (sdk.set_extension-type ext_correlation_id (sdk.text (sdk.id ce)) ce) t;
          correlation_id_valid = rw (minted ce (sdk.id ce)) i;
        })
        (check_given_id-Sound r ce _ i t refl)

  check_event-Sound :
      (r : Incoming sdk) (ce : sdk.Event) (o : Option Refusal)
      → validate_correlation_id (sdk.id ce) ≡ o
      → Sound (check_event lib cfg r ce o)
  check_event-Sound r ce (some refusal) h = λ k. cc
  check_event-Sound r ce none h = elim (Bool-cases (lib.valid_string (sdk.type ce))) [
    | inl t ↦
        if_true Sound (lib.valid_string (sdk.type ce)) (check_correlation_id lib cfg r ce) _ t
          (check_correlation_id-Sound r ce h t)
    | inr f ↦
        if_false Sound (lib.valid_string (sdk.type ce)) (check_correlation_id lib cfg r ce) _ f
          (λ k. cc)
  ]

  after_plain-Sound :
      (r : Incoming sdk) (x : Extracted lib cfg × S) → Sound (after_plain lib cfg r x).0
  after_plain-Sound r ((ce, some rejection), s) = λ k. cc
  after_plain-Sound r ((ce, none), s) = check_event-Sound r ce _ refl

  extract_parsed-Sound :
      (r : Incoming sdk) (p : Parsed sdk) (s : S) → Sound (extract_parsed lib cfg r p s).0
  extract_parsed-Sound r (parsed ce) s = check_event-Sound r ce _ refl
  extract_parsed-Sound r (refused (too_large e)) s = λ k. cc
  extract_parsed-Sound r (refused (unreadable e)) s =
      if_both (λ (x : Extracted lib cfg × S). Sound x.0) (is_cloud_events_request r) _
        (after_plain lib cfg r (plain_event lib cfg r s)) (λ k. cc)
        (after_plain-Sound r (plain_event lib cfg r s))

  -- An event that is not refused has a valid id, a type in UTF-8 and a valid correlation id, given
  -- or minted, in whichever mode the request carries it.
  pub extract_cloud_event-IsAccepted :
      (r : Incoming sdk) (s : S)
      → (extract_cloud_event lib cfg r s).0.1 ≡ none
      → IsAccepted (extract_cloud_event lib cfg r s).0.0
  unfolding extract_cloud_event
  extract_cloud_event-IsAccepted r s = extract_parsed-Sound r r.as_cloud_event s
