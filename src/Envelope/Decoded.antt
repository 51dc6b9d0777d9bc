-- ===== src/Envelope/Decoded.antt =====
-- What Decode accepts, and what kind of errors it gives.
use mathlib.Core.Path.{subst}
use event_driven.Prelude.{
  str, ◌≡◌, refl, arith, cut_prefix, true, Bool, not, Option, none, some, List, [], ◌∷◌, Bytes,
  bytes_eq, any, if_both, Bool-cases, inl, inr, if_true, if_false, ◌||◌, ◌&&◌,
}
use event_driven.Error.{Err, Result, ok, err, decode, is_sentinel}
use event_driven.Event.CloudEvents.{CloudEvents}
use event_driven.Envelope.{
  Formats, Defaults, Pairs, prefix, decode_error, with_time, set_attribute, duplicate, and_rest,
  decode_named, decode_attributes, defaulted, validated, check_data, check_structured, with_data,
  decode_event, structured_type, or_json,
}

decode_error-IsDecode : (what : Bytes) (e : Err) → is_sentinel decode (decode_error what e) ≡ true
unfolding is_sentinel
decode_error-IsDecode what e = refl

module _ (sdk : CloudEvents) (fmt : Formats sdk) where
  -- The names of the attributes, in order.
  abbrev pub named : Option Bytes → List Bytes → List Bytes
  named none names = names
  named (some name) names = name ∷ names

  abbrev pub names : Pairs → List Bytes
  names [] = []
  names ((key, value) ∷ attrs) = named (cut_prefix (fmt.to_lower key) prefix) (names attrs)

  -- No name is among the seen ones, or among those before it.
  abbrev pub distinct : List Bytes → List Bytes → Bool
  distinct seen [] = true
  distinct seen (n ∷ ns) = not (any (bytes_eq n) seen) && distinct (n ∷ seen) ns

  -- An error that the router treats as a poison payload, or an event with a property.
  abbrev pub Decodes : (sdk.Event → Type 0) → Result sdk.Event → Type 0
  Decodes P (err e) = is_sentinel decode e ≡ true
  Decodes P (ok ce) = P ce

  with_time-Decodes :
      (value : Bytes) (ce : sdk.Event) (t : Result sdk.Time)
      → Decodes (λ _. Unit) (with_time sdk fmt value ce t)
  with_time-Decodes value ce (ok t) = tt
  with_time-Decodes value ce (err e) = decode_error-IsDecode _ e

  set_attribute-Decodes :
      (name value : Bytes) (ce : sdk.Event)
      → Decodes (λ _. Unit) (set_attribute sdk fmt name value ce)
  unfolding set_attribute
  set_attribute-Decodes name value ce =
      let D : Result sdk.Event → Type 0 = Decodes (λ _. Unit) in
      if_both D (bytes_eq name (str "id")) _ _ tt (
        if_both D (bytes_eq name (str "specversion")) _ _ tt (
          if_both D (bytes_eq name (str "type")) _ _ tt (
            if_both D (bytes_eq name (str "source")) _ _ tt (
              if_both D (bytes_eq name (str "subject")) _ _ tt (
                if_both D (bytes_eq name (str "dataschema")) _ _ tt (
                  if_both D (bytes_eq name (str "datacontenttype")) _ _ tt (
                    if_both D (bytes_eq name (str "time")) _ _
                      (with_time-Decodes value ce (fmt.parse_time value)) tt)))))))

  and_rest-Decodes :
      (P : sdk.Event → Type 0) (rest : sdk.Event → Result sdk.Event) (x : Result sdk.Event)
      → Decodes (λ _. Unit) x
      → ((ce : sdk.Event) → Decodes P (rest ce))
      → Decodes P (and_rest sdk fmt rest x)
  and_rest-Decodes P rest (err e) h k = h
  and_rest-Decodes P rest (ok ce) h k = k ce

  duplicate-Decodes : (P : sdk.Event → Type 0) (name : Bytes) → Decodes P (duplicate sdk fmt name)
  unfolding is_sentinel
  duplicate-Decodes P name = refl

  Decodes-map :
      (P Q : sdk.Event → Type 0) (x : Result sdk.Event)
      → Decodes P x
      → ((ce : sdk.Event) → P ce → Q ce)
      → Decodes Q x
  Decodes-map P Q (err e) h k = h
  Decodes-map P Q (ok ce) h k = k ce h

  decode_named-Decodes :
      (o : Option Bytes) (value : Bytes) (ns seen : List Bytes) (ce : sdk.Event)
      (rest : List Bytes → sdk.Event → Result sdk.Event)
      → ((seen' : List Bytes) (ce' : sdk.Event)
          → Decodes (λ _. distinct seen' ns ≡ true) (rest seen' ce'))
      → Decodes (λ _. distinct seen (named o ns) ≡ true) (decode_named sdk fmt seen value ce rest o)
  decode_named-Decodes none value ns seen ce rest h = h seen ce
  decode_named-Decodes (some name) value ns seen ce rest h =
      let P : sdk.Event → Type 0 = λ _. distinct seen (name ∷ ns) ≡ true in
      let turn = and_rest sdk fmt (rest (name ∷ seen)) (set_attribute sdk fmt name value ce) in
      elim (Bool-cases (any (bytes_eq name) seen)) [
        | inl dup ↦
            if_true (Decodes P) (any (bytes_eq name) seen) (duplicate sdk fmt name) turn dup
              (duplicate-Decodes P name)
        | inr fresh ↦
            if_false (Decodes P) (any (bytes_eq name) seen) (duplicate sdk fmt name) turn fresh (
              and_rest-Decodes P (rest (name ∷ seen)) (set_attribute sdk fmt name value ce)
                (set_attribute-Decodes name value ce)
                (λ ce'.
                  Decodes-map (λ _. distinct (name ∷ seen) ns ≡ true) P (rest (name ∷ seen) ce')
                    (h (name ∷ seen) ce') (λ _ q. ground (arith, fresh, q))))
      ]

  decode_attributes-Decodes :
      (attrs : Pairs) (seen : List Bytes) (ce : sdk.Event)
      → Decodes (λ _. distinct seen (names attrs) ≡ true) (decode_attributes sdk fmt attrs seen ce)
  unfolding decode_attributes
  decode_attributes-Decodes [] seen ce = refl
  decode_attributes-Decodes ((key, value) ∷ attrs) seen ce =
      decode_named-Decodes (cut_prefix (fmt.to_lower key) prefix) value (names attrs) seen ce
        (decode_attributes sdk fmt attrs) (decode_attributes-Decodes attrs)

  abbrev IsValid : sdk.Event → Type 0
  IsValid ce = fmt.validate ce ≡ none

  validated-Decodes :
      (what : Bytes) (ce : sdk.Event) (o : Option Err)
      → fmt.validate ce ≡ o
      → Decodes IsValid (validated sdk fmt what ce o)
  validated-Decodes what ce none h = h
  validated-Decodes what ce (some e) h = decode_error-IsDecode what e

  check_data-Decodes : (x : Result sdk.Event) → Decodes IsValid (check_data sdk fmt x)
  check_data-Decodes (err e) = decode_error-IsDecode (str ": set data: ") e
  check_data-Decodes (ok ce) = validated-Decodes (str ": ") ce _ refl

  check_structured-Decodes : (x : Result sdk.Event) → Decodes IsValid (check_structured sdk fmt x)
  check_structured-Decodes (err e) = decode_error-IsDecode (str ": structured envelope: ") e
  check_structured-Decodes (ok ce) = validated-Decodes (str ": structured envelope: ") ce _ refl

  -- What follows the loop keeps what the loop has shown.
  both_Decodes :
      (Q : sdk.Event → Type 0) (b : Bool) (rest : sdk.Event → Result sdk.Event)
      (x : Result sdk.Event)
      → Decodes (λ _. b ≡ true) x
      → ((ce : sdk.Event) → Decodes Q (rest ce))
      → Decodes (λ ce. Q ce × (b ≡ true)) (and_rest sdk fmt rest x)
  both_Decodes Q b rest (err e) h k = h
  both_Decodes Q b rest (ok ce) h k =
      Decodes-map Q (λ ce'. Q ce' × (b ≡ true)) (rest ce) (k ce) (λ ce' q. (q, h))

  module _ (ct : Bytes) (attrs : Pairs) (body : Bytes) (def : Defaults) where
    abbrev Accepted : sdk.Event → Type 0
    Accepted ce = IsValid ce × ((bytes_eq ct structured_type || distinct [] (names attrs)) ≡ true)

    decode_event-Decodes : Decodes Accepted (decode_event sdk fmt ct attrs body def)
    unfolding decode_event
    decode_event-Decodes =
        let structured = check_structured sdk fmt (fmt.unmarshal body) in
        let binary =
          and_rest sdk fmt (with_data sdk fmt ct body)
            (decode_attributes sdk fmt attrs [] (defaulted sdk fmt def)) in
        elim (Bool-cases (bytes_eq ct structured_type)) [
          | inl s ↦ if_true (Decodes Accepted) (bytes_eq ct structured_type) structured binary s (
              Decodes-map IsValid Accepted structured
                (check_structured-Decodes (fmt.unmarshal body)) (λ ce q. (q, rw s refl)))
          | inr b ↦ if_false (Decodes Accepted) (bytes_eq ct structured_type) structured binary b (
              Decodes-map (λ ce. IsValid ce × (distinct [] (names attrs) ≡ true)) Accepted binary
                (both_Decodes IsValid (distinct [] (names attrs)) (with_data sdk fmt ct body) _
                  (decode_attributes-Decodes attrs [] (defaulted sdk fmt def))
                  (λ ce. check_data-Decodes (fmt.set_data (or_json ct) body ce)))
                (λ ce q. (q.0, rw b q.1)))
        ]

    -- Whatever Decode refuses, in either mode, it refuses with an error that errors.Is finds to be
    -- ErrDecode.
    pub decode_event-err :
        (e : Err) → decode_event sdk fmt ct attrs body def ≡ err e → is_sentinel decode e ≡ true
    decode_event-err e h = subst (Decodes Accepted) h decode_event-Decodes

    -- An event that Decode accepts is valid; and in binary mode no two of its attributes had the same
    -- name, which is the key in lower case after "ce-".
    pub decode_event-ok :
        (ce : sdk.Event)
        → decode_event sdk fmt ct attrs body def ≡ ok ce
        → (fmt.validate ce ≡ none)
          × ((bytes_eq ct structured_type || distinct [] (names attrs)) ≡ true)
    decode_event-ok ce h = subst (Decodes Accepted) h decode_event-Decodes
