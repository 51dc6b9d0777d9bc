-- ===== src/Envelope/Attributes/Copied.antt =====
-- The loop of Decode over pairs that hold the attributes of one event.
use event_driven.Prelude.{
  ◌≡◌, refl, ◌∙◌, arith, Bytes, bytes_eq, bytes_eq_iff, bytes_eq_refl, any, Bool, true, false, not,
  ◌&&◌, Option, none, some, List, [], ◌∷◌, ◌++◌, cut_prefix, if◌then◌else◌, All,
}
use event_driven.Error.{Result, ok}
use event_driven.Event.CloudEvents.{CloudEvents}
use event_driven.Envelope.{Formats, Pairs, prefix, set_attribute, decode_named, decode_attributes}
use event_driven.Envelope.Decoded.{names, named}
use event_driven.Envelope.Attributes.{slot}

pub bytes_eq_comm : (x y : Bytes) → bytes_eq x y ≡ bytes_eq y x
bytes_eq_comm x y = ground (arith, bytes_eq_iff x y, bytes_eq_iff y x)

-- No element is repeated.
abbrev pub is_nodup : List Bytes → Bool
is_nodup [] = true
is_nodup (n ∷ ns) = not (any (bytes_eq n) ns) && is_nodup ns

module _ (sdk : CloudEvents) (fmt : Formats sdk) (from : sdk.Event) where
  -- Setting the attribute gives the event the one of `from`, and changes no other.
  abbrev pub IsCopied : Bytes → sdk.Event → sdk.Event → Type 0
  IsCopied name e e' =
      (n : Bytes)
      → slot sdk fmt n e' ≡ (if bytes_eq name n then slot sdk fmt n from else slot sdk fmt n e)

  abbrev pub IsCopy : Bytes → Bytes → Type 0
  IsCopy name value =
      (e : sdk.Event)
      → (e' : sdk.Event) × (set_attribute sdk fmt name value e ≡ ok e') × IsCopied name e e'

  -- A pair that is no attribute, or one that holds the attribute of `from`.
  pub data IsGood (key value : Bytes) : Type 0 where
    ignored :
        cut_prefix (fmt.to_lower key) prefix ≡ none
        → cut_prefix key prefix ≡ none
        → IsGood key value
    copied :
        (name : Bytes)
        → key ≡ prefix ++ name
        → cut_prefix (fmt.to_lower key) prefix ≡ some name
        → IsCopy name value
        → IsGood key value

  abbrev pub AllGood : Pairs → Type 0
  AllGood attrs = All (λ x. IsGood x.0 x.1) attrs

  abbrev pub IsUnseen : List Bytes → List Bytes → Type 0
  IsUnseen ns seen = (n : Bytes) → any (bytes_eq n) ns ≡ true → any (bytes_eq n) seen ≡ false

  -- The attributes among the names are those of `from`, the others those of e.
  abbrev pub IsMerged : List Bytes → sdk.Event → sdk.Event → Type 0
  IsMerged ns e e' =
      (n : Bytes)
      → slot sdk fmt n e' ≡ (if any (bytes_eq n) ns then slot sdk fmt n from else slot sdk fmt n e)

  IsUnseen-rest :
      (name : Bytes) (ns seen : List Bytes)
      → is_nodup (name ∷ ns) ≡ true
      → IsUnseen (name ∷ ns) seen
      → IsUnseen ns (name ∷ seen)
  IsUnseen-rest name ns seen d u n h = ground (arith, h, d, u n, bytes_eq_iff n name)

  IsMerged-next :
      (name : Bytes) (ns : List Bytes) (e e' e'' : sdk.Event)
      → IsCopied name e e'
      → IsMerged ns e' e''
      → IsMerged (name ∷ ns) e e''
  IsMerged-next name ns e e' e'' c m n = ground (arith, c n, m n, bytes_eq_comm n name)

  named-copied :
      (seen : List Bytes) (name value : Bytes) (e e' : sdk.Event)
      (rest : List Bytes → sdk.Event → Result sdk.Event)
      → any (bytes_eq name) seen ≡ false
      → set_attribute sdk fmt name value e ≡ ok e'
      → decode_named sdk fmt seen value e rest (some name) ≡ rest (name ∷ seen) e'
  named-copied seen name value e e' rest u s = rw (u, s) refl

  abbrev Fits : Option Bytes → Bytes → Type 0
  Fits none value = Unit
  Fits (some name) value = IsCopy name value

  good-Fits :
      (key value : Bytes) → IsGood key value → Fits (cut_prefix (fmt.to_lower key) prefix) value
  good-Fits key value (ignored c r) = rw c tt
  good-Fits key value (copied name k c s) = rw c s

  -- What the loop makes of the pairs after the names seen.
  abbrev Decodes : Result sdk.Event → List Bytes → sdk.Event → Type 0
  Decodes r ns e = (e' : sdk.Event) × (r ≡ ok e') × IsMerged ns e e'

  turn-copied :
      (o : Option Bytes) (value : Bytes) (ns seen : List Bytes) (e : sdk.Event)
      (rest : List Bytes → sdk.Event → Result sdk.Event)
      → Fits o value
      → is_nodup (named sdk fmt o ns) ≡ true
      → IsUnseen (named sdk fmt o ns) seen
      → ((seen' : List Bytes) (e' : sdk.Event)
          → is_nodup ns ≡ true
          → IsUnseen ns seen'
          → Decodes (rest seen' e') ns e')
      → Decodes (decode_named sdk fmt seen value e rest o) (named sdk fmt o ns) e
  turn-copied none value ns seen e rest f d u r = r seen e d u
  turn-copied (some name) value ns seen e rest f d u r =
      let (e', set, copy) = f e in
      let (e'', decodes, merged) =
        r (name ∷ seen) e' (ground (arith, d)) (IsUnseen-rest name ns seen d u) in
      let fresh : any (bytes_eq name) seen ≡ false = u name (ground (arith, bytes_eq_refl name)) in
      (
        e'',
        named-copied seen name value e e' rest fresh set ∙ decodes,
        IsMerged-next name ns e e' e'' copy merged,
      )

  pub decode-copied :
      (attrs : Pairs) (seen : List Bytes) (e : sdk.Event)
      → AllGood attrs
      → is_nodup (names sdk fmt attrs) ≡ true
      → IsUnseen (names sdk fmt attrs) seen
      → Decodes (decode_attributes sdk fmt attrs seen e) (names sdk fmt attrs) e
  unfolding decode_attributes
  decode-copied [] seen e h d u = (e, refl, λ n. refl)
  decode-copied ((key, value) ∷ attrs) seen e (good, h) d u =
      turn-copied (cut_prefix (fmt.to_lower key) prefix) value (names sdk fmt attrs) seen e
        (decode_attributes sdk fmt attrs) (good-Fits key value good) d u
        (λ seen' e' d' u'. decode-copied attrs seen' e' h d' u')
