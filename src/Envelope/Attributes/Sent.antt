-- ===== src/Envelope/Attributes/Sent.antt =====
-- The pairs that Encode makes of an event hold its attributes.
use mathlib.Core.Path.{subst}
use event_driven.Prelude.{
  ◌≡◌, ◌≢◌, refl, sym, ◌∙◌, arith, Bytes, str, bytes_eq, bytes_eq_iff, all, Bool, true, false, ◌&&◌,
  ◌||◌, Option, some, List, [], ◌∷◌, ◌++◌, cut_prefix-eq-some_iff, if◌then◌else◌, All, lookup,
  insert, lookup-insert, leb,
}
use event_driven.Error.{Result, ok, err}
use event_driven.Event.CloudEvents.{CloudEvents, is_extension_name}
use event_driven.Envelope.{
  Formats, Pairs, prefix, set_attribute, add_extension, encode_extensions, context_pairs, set_if,
  encode,
}
use event_driven.Envelope.Attributes.{IsStorable, Copies, is_lower}
use event_driven.Envelope.Attributes.Copied.{IsCopy, IsGood, copied}

is_lower-extension :
    (name : Bytes) → is_extension_name name ≡ true → is_lower (prefix ++ name) ≡ true
unfolding is_extension_name
is_lower-extension name h = go name (ground (arith, h))
  where
    go :
        (s : Bytes)
        → all (λ c. (leb b'a' c && leb c b'z') || (leb b'0' c && leb c b'9')) s ≡ true
        → is_lower s ≡ true
    go [] k = refl
    go (c ∷ s) k = ground (arith, k, go s)

module _ (sdk : CloudEvents) (fmt : Formats sdk) where
  set_attribute-extension :
      (name value : Bytes) (e : sdk.Event)
      → is_extension_name name ≡ true
      → set_attribute sdk fmt name value e ≡ ok (sdk.set_extension name (sdk.text value) e)
  unfolding set_attribute is_extension_name
  set_attribute-extension name value e h = ground (arith, h)

module _ (sdk : CloudEvents) (fmt : Formats sdk) (from : sdk.Event)
    (h : IsStorable sdk fmt from) where
  key-IsGood :
      (name value : Bytes)
      → is_lower (prefix ++ name) ≡ true
      → IsCopy sdk fmt from name value
      → IsGood sdk fmt from (prefix ++ name) value
  key-IsGood name value low copy =
      copied name refl
        (rw (h.to_lower (prefix ++ name) low)
          ((cut_prefix-eq-some_iff (prefix ++ name) prefix name).1 refl))
        copy

  abbrev pub IsClean : Pairs → Type 0
  IsClean m = (k v : Bytes) → lookup k m ≡ some v → IsGood sdk fmt from k v

  pick-IsGood :
      (k j v w : Bytes) (b : Bool) (o : Option Bytes)
      → (b ≡ true → k ≡ j)
      → IsGood sdk fmt from k v
      → (o ≡ some w → IsGood sdk fmt from j w)
      → (if b then some v else o) ≡ some w
      → IsGood sdk fmt from j w
  pick-IsGood k j v w true o same g c q =
      let value : v ≡ w = cc in
      subst (λ x. IsGood sdk fmt from x w) (same refl) (subst (IsGood sdk fmt from k) value g)
  pick-IsGood k j v w false o same g c q = c q

  pub insert-IsClean :
      (k v : Bytes) (m : Pairs) → IsGood sdk fmt from k v → IsClean m → IsClean (insert k v m)
  insert-IsClean k v m g c j w q =
      pick-IsGood k j v w (bytes_eq k j) (lookup j m) (bytes_eq_iff k j).0 g (c j w)
        (sym (lookup-insert k j v m) ∙ q)

  cons-IsClean :
      (k v : Bytes) (m : Pairs) → IsGood sdk fmt from k v → IsClean m → IsClean ((k, v) ∷ m)
  unfolding lookup
  cons-IsClean k v m g c j w q =
      pick-IsGood k j v w (bytes_eq k j) (lookup j m) (bytes_eq_iff k j).0 g (c j w) q

  set_if-IsClean :
      (k v : Bytes) (m : Pairs)
      → (v ≢ [] → IsGood sdk fmt from k v)
      → IsClean m
      → IsClean (set_if k v m)
  set_if-IsClean k [] m g c = c
  set_if-IsClean k (b ∷ v) m g c = insert-IsClean k (b ∷ v) m (g (λ q. cc)) c

  id-IsGood : IsGood sdk fmt from (str "ce-id") (sdk.id from)
  unfolding set_attribute bytes_eq
  id-IsGood =
      key-IsGood (str "id") (sdk.id from) refl (λ e. (sdk.set_id (sdk.id from) e, refl, h.id e))

  spec_version-IsGood : IsGood sdk fmt from (str "ce-specversion") (fmt.spec_version from)
  unfolding set_attribute bytes_eq
  spec_version-IsGood =
      key-IsGood (str "specversion") (fmt.spec_version from) refl
        (λ e. (fmt.set_spec_version (fmt.spec_version from) e, refl, h.spec_version e))

  type-IsGood : IsGood sdk fmt from (str "ce-type") (sdk.type from)
  unfolding set_attribute bytes_eq
  type-IsGood =
      key-IsGood (str "type") (sdk.type from) refl
        (λ e. (sdk.set_type (sdk.type from) e, refl, h.set_type e))

  source-IsGood : IsGood sdk fmt from (str "ce-source") (sdk.source from)
  unfolding set_attribute bytes_eq
  source-IsGood =
      key-IsGood (str "source") (sdk.source from) refl
        (λ e. (sdk.set_source (sdk.source from) e, refl, h.source e))

  subject-IsGood : fmt.subject from ≢ [] → IsGood sdk fmt from (str "ce-subject") (fmt.subject from)
  unfolding set_attribute bytes_eq
  subject-IsGood given =
      key-IsGood (str "subject") (fmt.subject from) refl
        (λ e. (fmt.set_subject (fmt.subject from) e, refl, h.subject given e))

  data_schema-IsGood :
      fmt.data_schema from ≢ [] → IsGood sdk fmt from (str "ce-dataschema") (fmt.data_schema from)
  unfolding set_attribute bytes_eq
  data_schema-IsGood given =
      key-IsGood (str "dataschema") (fmt.data_schema from) refl
        (λ e. (fmt.set_data_schema (fmt.data_schema from) e, refl, h.data_schema given e))

  time-IsGood : fmt.time_text from ≢ [] → IsGood sdk fmt from (str "ce-time") (fmt.time_text from)
  unfolding set_attribute bytes_eq
  time-IsGood given =
      let (t, parsed, copy) = h.time given in
      key-IsGood (str "time") (fmt.time_text from) refl
        (λ e. (sdk.set_time t e, rw parsed refl, copy e))

  empty-IsClean : IsClean []
  unfolding lookup
  empty-IsClean k v q = cc

  context_pairs-IsClean : IsClean (context_pairs sdk fmt from)
  context_pairs-IsClean =
      set_if-IsClean (str "ce-dataschema") (fmt.data_schema from) _ data_schema-IsGood (
        set_if-IsClean (str "ce-time") (fmt.time_text from) _ time-IsGood (
          set_if-IsClean (str "ce-subject") (fmt.subject from) _ subject-IsGood (
            cons-IsClean (str "ce-id") (sdk.id from) _ id-IsGood (
              cons-IsClean (str "ce-specversion") (fmt.spec_version from) _ spec_version-IsGood (
                cons-IsClean (str "ce-type") (sdk.type from) _ type-IsGood (
                  cons-IsClean (str "ce-source") (sdk.source from) _ source-IsGood
                    empty-IsClean))))))

  -- What the attribute loop of Encode relies on for each extension.
  abbrev IsKept : Bytes × sdk.Value → Type 0
  IsKept x =
      (is_extension_name x.0 ≡ true)
      × ((s : Bytes)
          → fmt.format x.1 ≡ ok s
          → Copies sdk fmt from x.0 (sdk.set_extension x.0 (sdk.text s)))

  extension-IsGood :
      (name s : Bytes) (v : sdk.Value)
      → IsKept (name, v)
      → fmt.format v ≡ ok s
      → IsGood sdk fmt from (prefix ++ name) s
  extension-IsGood name s v kept f = key-IsGood name s (is_lower-extension name kept.0) (λ e. (
    sdk.set_extension name (sdk.text s) e,
    set_attribute-extension sdk fmt name s e kept.0,
    kept.1 s f e,
  ))

  add_extension-IsClean :
      (name : Bytes) (v : sdk.Value) (rest : Pairs → Result Pairs) (m m' : Pairs) (r : Result Bytes)
      → IsKept (name, v)
      → fmt.format v ≡ r
      → ((m : Pairs) → IsClean m → rest m ≡ ok m' → IsClean m')
      → IsClean m
      → add_extension sdk fmt name rest m r ≡ ok m'
      → IsClean m'
  add_extension-IsClean name v rest m m' (err e) kept f next c q = cc
  add_extension-IsClean name v rest m m' (ok s) kept f next c q =
      next (insert (prefix ++ name) s m)
        (insert-IsClean (prefix ++ name) s m (extension-IsGood name s v kept f) c) q

  encode_extensions-IsClean :
      (exts : List (Bytes × sdk.Value)) (m m' : Pairs)
      → All IsKept exts
      → IsClean m
      → encode_extensions sdk fmt exts m ≡ ok m'
      → IsClean m'
  unfolding encode_extensions
  encode_extensions-IsClean [] m m' kept c q = let same : m ≡ m' = cc in subst IsClean same c
  encode_extensions-IsClean ((name, v) ∷ exts) m m' (k, kept) c q =
      add_extension-IsClean name v (encode_extensions sdk fmt exts) m m' (fmt.format v) k refl
        (λ n cn. encode_extensions-IsClean exts n m' kept cn) c q

  -- Every pair that Encode makes of the event is one of its attributes.
  pub encode-IsClean : (attrs : Pairs) → encode sdk fmt from ≡ ok attrs → IsClean attrs
  unfolding encode
  encode-IsClean attrs q =
      encode_extensions-IsClean (sdk.extensions from) (context_pairs sdk fmt from) attrs
        h.extensions context_pairs-IsClean q
