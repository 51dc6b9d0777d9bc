-- ===== src/Filters/Laws.antt =====
-- Which events the filters let through.
use event_driven.Prelude.{
  ℕ, ◌≡◌, refl, arith, Bytes, bytes_eq, any, [], ◌∷◌, List, returned, is_some, ◌||◌, ◌&&◌, lookup,
  insert, lookup-insert, cut_prefix,
}
use event_driven.Event.CloudEvents.{CloudEvents}
use event_driven.Filters.{allowed, by_type, by_source, match_all, all_of}

allowed-lookup :
    (ts : List Bytes) (m : List (Bytes × Unit {0})) (t : Bytes)
    → is_some (lookup t (allowed ts m)) ≡ (any (λ u. bytes_eq u t) ts || is_some (lookup t m))
allowed-lookup [] m t = refl
allowed-lookup (u ∷ ts) m t =
    ground (arith, allowed-lookup ts (insert u tt m) t, lookup-insert u t tt m)

module _ (sdk : CloudEvents) {S : Type 0} where
  -- All of ByType and BySource lets through exactly the events with one of the types whose source
  -- begins with the prefix, and leaves the outside world as it is.
  pub all_of-by_type-by_source :
      (a b c : ℕ) (types : List Bytes) (prefix : Bytes) (ce : sdk.Event) (s : S)
      → (all_of sdk a (by_type sdk b types ∷ by_source sdk c prefix ∷ [])).match ce s ≡ (
        returned (
            any (λ t. bytes_eq t (sdk.type ce)) types
            && is_some (cut_prefix (sdk.source ce) prefix)),
        s,
      )
  unfolding all_of match_all by_type by_source
  all_of-by_type-by_source a b c types prefix ce s =
      ground (arith, allowed-lookup types [] (sdk.type ce))
