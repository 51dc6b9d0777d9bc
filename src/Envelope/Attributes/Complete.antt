-- ===== src/Envelope/Attributes/Complete.antt =====
-- The pairs that Encode makes of an event leave none of its attributes out.
use event_driven.Prelude.{
  ◌≡◌, refl, ◌∙◌, arith, Bytes, str, bytes_eq, any, Bool, true, false, ◌||◌, none, some, List, [],
  ◌∷◌, ◌++◌, if◌then◌else◌, All, lookup, insert, lookup-insert,
}
use event_driven.Error.{Result, ok, err}
use event_driven.Event.CloudEvents.{CloudEvents}
use event_driven.Envelope.{
  Formats, Pairs, prefix, add_extension, encode_extensions, context_pairs, set_if, encode,
}
use event_driven.Envelope.Attributes.{attribute, required}
use event_driven.Envelope.Attributes.Copied.{bytes_eq_comm}

pub insert-missing :
    (j k v : Bytes) (m : Pairs)
    → lookup j (insert k v m) ≡ none
    → (bytes_eq k j ≡ false) × (lookup j m ≡ none)
insert-missing j k v m q = ground (arith, lookup-insert k j v m, q)

set_if-missing :
    (j k v : Bytes) (m : Pairs)
    → lookup j (set_if k v m) ≡ none
    → (bytes_eq k j ≡ true → v ≡ []) × (lookup j m ≡ none)
set_if-missing j k [] m q = (λ e. refl, q)
set_if-missing j k (b ∷ v) m q =
    let (differ, rest) = insert-missing j k (b ∷ v) m q in (λ e. cc, rest)

none_of_four :
    (a b c d : Bool) (x y z w : Bytes)
    → (if a then some x else if b then some y else if c then some z else if d then some w else none)
      ≡ none
    → (a || (b || (c || (d || false)))) ≡ false
none_of_four a b c d x y z w q = ground (arith, q)

pub after_four :
    (a b c d : Bool) (x y z w rest : Bytes)
    → (a || (b || (c || (d || false)))) ≡ false
    → (if a then x else if b then y else if c then z else if d then w else rest) ≡ rest
after_four a b c d x y z w rest q = ground (arith, q)

pub empty_rest :
    (a b c : Bool) (x y z rest : Bytes)
    → (a ≡ true → x ≡ [])
    → (b ≡ true → y ≡ [])
    → (c ≡ true → z ≡ [])
    → rest ≡ []
    → (if a then x else if b then y else if c then z else rest) ≡ []
empty_rest true b c x y z rest p q r e = p refl
empty_rest false true c x y z rest p q r e = q refl
empty_rest false false true x y z rest p q r e = r refl
empty_rest false false false x y z rest p q r e = e

module _ (sdk : CloudEvents) (fmt : Formats sdk) where
  abbrev IsOther : Bytes → List (Bytes × sdk.Value) → Type 0
  IsOther n exts = All (λ x. bytes_eq x.0 n ≡ false) exts

  add_extension-missing :
      (n name : Bytes) (rest : Pairs → Result Pairs) (m m' : Pairs) (r : Result Bytes) (P : Type 0)
      → ((m : Pairs) → rest m ≡ ok m' → (lookup (prefix ++ n) m ≡ none) × P)
      → add_extension sdk fmt name rest m r ≡ ok m'
      → (lookup (prefix ++ n) m ≡ none) × ((bytes_eq name n ≡ false) × P)
  unfolding bytes_eq
  add_extension-missing n name rest m m' (err e) P next q = cc
  add_extension-missing n name rest m m' (ok s) P next q =
      let (gone, others) = next (insert (prefix ++ name) s m) q in
      let (differ, before) = insert-missing (prefix ++ n) (prefix ++ name) s m gone in
      (before, (differ, others))

  encode_extensions-missing :
      (n : Bytes) (exts : List (Bytes × sdk.Value)) (m m' : Pairs)
      → lookup (prefix ++ n) m' ≡ none
      → encode_extensions sdk fmt exts m ≡ ok m'
      → (lookup (prefix ++ n) m ≡ none) × IsOther n exts
  unfolding encode_extensions
  encode_extensions-missing n [] m m' gone q = let same : m ≡ m' = cc in (rw same gone, tt)
  encode_extensions-missing n ((name, v) ∷ exts) m m' gone q =
      add_extension-missing n name (encode_extensions sdk fmt exts) m m' (fmt.format v)
        (IsOther n exts) (λ m''. encode_extensions-missing n exts m'' m' gone) q

  lookup-other :
      (n : Bytes) (exts : List (Bytes × sdk.Value)) → IsOther n exts → lookup n exts ≡ none
  unfolding lookup
  lookup-other n [] h = refl
  lookup-other n ((k, v) ∷ exts) (d, h) = ground (arith, d, lookup-other n exts h)

  required-missing :
      (n id spec_version type source : Bytes)
      → lookup (prefix ++ n) (
          (str "ce-id", id)
          ∷ (str "ce-specversion", spec_version)
          ∷ (str "ce-type", type)
          ∷ (str "ce-source", source)
          ∷ [])
        ≡ none
      → any (bytes_eq n) required ≡ false
  unfolding lookup bytes_eq
  required-missing n id spec_version type source q =
      (λ i.
        bytes_eq_comm n (str "id") i
        || (bytes_eq_comm n (str "specversion") i
            || (bytes_eq_comm n (str "type") i || (bytes_eq_comm n (str "source") i || false))))
      ∙ none_of_four (bytes_eq (str "id") n) (bytes_eq (str "specversion") n)
          (bytes_eq (str "type") n) (bytes_eq (str "source") n) id spec_version type source q

  attribute-absent :
      (from : sdk.Event) (n : Bytes)
      → any (bytes_eq n) required ≡ false
      → (bytes_eq (str "subject") n ≡ true → fmt.subject from ≡ [])
      → (bytes_eq (str "dataschema") n ≡ true → fmt.data_schema from ≡ [])
      → (bytes_eq (str "time") n ≡ true → fmt.time_text from ≡ [])
      → lookup n (sdk.extensions from) ≡ none
      → attribute sdk fmt n from ≡ []
  unfolding attribute
  attribute-absent from n r subject data_schema time none_there =
      after_four (bytes_eq n (str "id")) (bytes_eq n (str "specversion")) (bytes_eq n (str "type"))
        (bytes_eq n (str "source")) _ _ _ _ _ r
      ∙ empty_rest (bytes_eq n (str "subject")) (bytes_eq n (str "dataschema"))
          (bytes_eq n (str "time")) _ _ _ _ (λ k. subject (bytes_eq_comm (str "subject") n ∙ k))
          (λ k. data_schema (bytes_eq_comm (str "dataschema") n ∙ k))
          (λ k. time (bytes_eq_comm (str "time") n ∙ k)) (rw none_there refl)

  -- What is not among the pairs is no required attribute, and `from` does not have it.
  pub encode-IsComplete :
      (from : sdk.Event) (attrs : Pairs) (n : Bytes)
      → encode sdk fmt from ≡ ok attrs
      → lookup (prefix ++ n) attrs ≡ none
      → (any (bytes_eq n) required ≡ false) × (attribute sdk fmt n from ≡ [])
  unfolding encode bytes_eq
  encode-IsComplete from attrs n q gone =
      let (missing, others) =
        encode_extensions-missing n (sdk.extensions from) (context_pairs sdk fmt from) attrs gone
          q in
      let (data_schema, missing) =
        set_if-missing (prefix ++ n) (str "ce-dataschema") (fmt.data_schema from) _ missing in
      let (time, missing) =
        set_if-missing (prefix ++ n) (str "ce-time") (fmt.time_text from) _ missing in
      let (subject, missing) =
        set_if-missing (prefix ++ n) (str "ce-subject") (fmt.subject from) _ missing in
      let others_only =
        required-missing n (sdk.id from) (fmt.spec_version from) (sdk.type from) (sdk.source from)
          missing in
      (
        others_only,
        attribute-absent from n others_only subject data_schema time
            (lookup-other n (sdk.extensions from) others),
      )
