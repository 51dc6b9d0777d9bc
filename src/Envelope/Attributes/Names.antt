-- ===== src/Envelope/Attributes/Names.antt =====
-- The names of the attributes among pairs, read in any order from a map.
use mathlib.Core.Path.{subst}
use event_driven.Prelude.{
  ◌≡◌, refl, sym, ap, ◌∙◌, arith, Bytes, bytes_eq, bytes_eq_iff, bytes_eq_refl, any, Bool, true,
  false, ◌||◌, Option, none, some, List, [], ◌∷◌, ◌++◌, if◌then◌else◌, if_false, lookup, cut_prefix,
  cut_prefix-eq-some_iff, Bool-cases, inl, inr,
}
use event_driven.Event.CloudEvents.{CloudEvents}
use event_driven.Envelope.{Formats, Pairs, prefix}
use event_driven.Envelope.Decoded.{names, named}
use event_driven.Envelope.Attributes.Copied.{
  IsGood, ignored, copied, AllGood, is_nodup, bytes_eq_comm,
}

or_right : (a b : Bool) → b ≡ true → (a || b) ≡ true
or_right a b h = ground (arith, h)

or_both : (a b c : Bool) → (b ≡ true → c ≡ true) → (a || b) ≡ true → (a || c) ≡ true
or_both a b c f h = ground (arith, f, h)

not_true : (a b : Bool) → (a ≡ true → b ≡ true) → b ≡ false → a ≡ false
not_true a b f h = ground (arith, f, h)

neither : (a b : Bool) → (a || b) ≡ false → (a ≡ false) × (b ≡ false)
neither a b h = ground (arith, h)

no_prefix : (key n : Bytes) → cut_prefix key prefix ≡ none → bytes_eq key (prefix ++ n) ≡ false
no_prefix key n h = elim (Bool-cases (bytes_eq key (prefix ++ n))) [
  | inr differ ↦ differ
  | inl same ↦
      let cut : cut_prefix key prefix ≡ some n =
        (cut_prefix-eq-some_iff key prefix n).1 ((bytes_eq_iff key (prefix ++ n)).0 same) in
      cc
]

other_key :
    (key name n : Bytes)
    → key ≡ prefix ++ name
    → bytes_eq name n ≡ false
    → bytes_eq key (prefix ++ n) ≡ false
unfolding bytes_eq
other_key key name n e h = subst (λ k. bytes_eq k (prefix ++ n) ≡ false) (sym e) h

abbrev pub keys : Pairs → List Bytes
keys [] = []
keys ((k, v) ∷ m) = k ∷ keys m

-- The entries of the map `sent`, in some order.
pub record IsReading (attrs sent : Pairs) : Type 0 where
  pub once : is_nodup (keys attrs) ≡ true
  pub same : (k : Bytes) → lookup k attrs ≡ lookup k sent

lookup-absent : (k : Bytes) (m : Pairs) → any (bytes_eq k) (keys m) ≡ false → lookup k m ≡ none
unfolding lookup
lookup-absent k [] h = refl
lookup-absent k ((j, v) ∷ m) h = ground (arith, h, lookup-absent k m, bytes_eq_comm j k)

lookup-rest :
    (k v j w : Bytes) (m : Pairs)
    → any (bytes_eq k) (keys m) ≡ false
    → lookup j m ≡ some w
    → lookup j ((k, v) ∷ m) ≡ some w
unfolding lookup
lookup-rest k v j w m fresh q = elim (Bool-cases (bytes_eq k j)) [
  | inr differ ↦ rw differ q
  | inl same ↦
      let equal : k ≡ j = (bytes_eq_iff k j).0 same in
      let gone : lookup j m ≡ none =
        subst (λ x. lookup x m ≡ none) equal (lookup-absent k m fresh) in
      cc
]

module _ (sdk : CloudEvents) (fmt : Formats sdk) (from : sdk.Event) where
  pub clean-AllGood :
      (attrs : Pairs)
      → is_nodup (keys attrs) ≡ true
      → ((k v : Bytes) → lookup k attrs ≡ some v → IsGood sdk fmt from k v)
      → AllGood sdk fmt from attrs
  unfolding lookup
  clean-AllGood [] d c = tt
  clean-AllGood ((k, v) ∷ attrs) d c = (
    c k v (rw (bytes_eq_refl k) refl),
    clean-AllGood attrs (ground (arith, d))
        (λ j w q. c j w (lookup-rest k v j w attrs (ground (arith, d)) q)),
  )

  -- The key of an attribute is the prefix and its name.
  named-key :
      (n key : Bytes) (ns ks : List Bytes) (o : Option Bytes)
      → ((name : Bytes) → o ≡ some name → key ≡ prefix ++ name)
      → (any (bytes_eq n) ns ≡ true → any (bytes_eq (prefix ++ n)) ks ≡ true)
      → any (bytes_eq n) (named sdk fmt o ns) ≡ true
      → any (bytes_eq (prefix ++ n)) (key ∷ ks) ≡ true
  unfolding bytes_eq
  named-key n key ns ks none k rest h = or_right (bytes_eq (prefix ++ n) key) _ (rest h)
  named-key n key ns ks (some name) k rest h =
      subst (λ j. any (bytes_eq (prefix ++ n)) (j ∷ ks) ≡ true) (sym (k name refl))
        (or_both (bytes_eq n name) (any (bytes_eq n) ns) _ rest h)

  good-key :
      (key value name : Bytes)
      → IsGood sdk fmt from key value
      → cut_prefix (fmt.to_lower key) prefix ≡ some name
      → key ≡ prefix ++ name
  good-key key value name (ignored c r) q = cc
  good-key key value name (copied name' k c s) q =
      let same : name' ≡ name = cc in k ∙ ap (λ x. prefix ++ x) same

  names-keys :
      (n : Bytes) (attrs : Pairs)
      → AllGood sdk fmt from attrs
      → any (bytes_eq n) (names sdk fmt attrs) ≡ true
      → any (bytes_eq (prefix ++ n)) (keys attrs) ≡ true
  names-keys n [] g h = h
  names-keys n ((key, value) ∷ attrs) (good, g) h =
      named-key n key (names sdk fmt attrs) (keys attrs) (cut_prefix (fmt.to_lower key) prefix)
        (λ name q. good-key key value name good q) (names-keys n attrs g) h

  named-nodup :
      (o : Option Bytes) (ns ks : List Bytes) (key : Bytes)
      → ((name : Bytes) → o ≡ some name → key ≡ prefix ++ name)
      → ((n : Bytes) → any (bytes_eq n) ns ≡ true → any (bytes_eq (prefix ++ n)) ks ≡ true)
      → any (bytes_eq key) ks ≡ false
      → is_nodup ns ≡ true
      → is_nodup (named sdk fmt o ns) ≡ true
  named-nodup none ns ks key k rest fresh d = d
  named-nodup (some name) ns ks key k rest fresh d =
      let unlisted : any (bytes_eq (prefix ++ name)) ks ≡ false =
        subst (λ j. any (bytes_eq j) ks ≡ false) (k name refl) fresh in
      let unnamed : any (bytes_eq name) ns ≡ false = not_true _ _ (rest name) unlisted in
      rw (unnamed, d) refl

  pub names-nodup :
      (attrs : Pairs)
      → AllGood sdk fmt from attrs
      → is_nodup (keys attrs) ≡ true
      → is_nodup (names sdk fmt attrs) ≡ true
  names-nodup [] g d = refl
  names-nodup ((key, value) ∷ attrs) (good, g) d =
      named-nodup (cut_prefix (fmt.to_lower key) prefix) (names sdk fmt attrs) (keys attrs) key
        (λ name q. good-key key value name good q) (λ n. names-keys n attrs g) (ground (arith, d))
        (names-nodup attrs g (ground (arith, d)))

  -- An attribute that no name is of is under no key either.
  named-missing :
      (n key value : Bytes) (rest : Option Bytes) (ns : List Bytes)
      → IsGood sdk fmt from key value
      → any (bytes_eq n) (named sdk fmt (cut_prefix (fmt.to_lower key) prefix) ns) ≡ false
      → (any (bytes_eq n) ns ≡ false → rest ≡ none)
      → (if bytes_eq key (prefix ++ n) then some value else rest) ≡ none
  named-missing n key value rest ns (ignored c r) h k =
      if_false (λ x. x ≡ none) (bytes_eq key (prefix ++ n)) (some value) rest (no_prefix key n r)
        (k (subst (λ o. any (bytes_eq n) (named sdk fmt o ns) ≡ false) c h))
  named-missing n key value rest ns (copied name e c s) h k =
      let (differ, gone) =
        neither (bytes_eq n name) (any (bytes_eq n) ns)
          (subst (λ o. any (bytes_eq n) (named sdk fmt o ns) ≡ false) c h) in
      if_false (λ x. x ≡ none) (bytes_eq key (prefix ++ n)) (some value) rest
        (other_key key name n e (bytes_eq_comm name n ∙ differ)) (k gone)

  pub names-missing :
      (n : Bytes) (attrs : Pairs)
      → AllGood sdk fmt from attrs
      → any (bytes_eq n) (names sdk fmt attrs) ≡ false
      → lookup (prefix ++ n) attrs ≡ none
  unfolding lookup
  names-missing n [] g h = refl
  names-missing n ((key, value) ∷ attrs) (good, g) h =
      named-missing n key value (lookup (prefix ++ n) attrs) (names sdk fmt attrs) good h
        (names-missing n attrs g)
