-- ===== src/Filters.antt =====
-- pkg/filter/cefilter/cefilter.go and pkg/filter/jmespath/jmespath.go. The filters of cefilter are
-- pointers, so each has an identity of its own. JMESPath and json.Unmarshal are parameters, log
-- records are left out.
pub mod Laws
use event_driven.Prelude.{
  ℕ, if◌then◌else◌, Bytes, bytes_eq, Bool, true, false, Option, none, some, is_some, List, [], ◌∷◌,
  any, Called, returned, panicked, Outside, cut_prefix, insert, lookup,
}
use event_driven.Error.{Err, Result, ok, err}
use event_driven.Event.CloudEvents.{CloudEvents}
use event_driven.Mux.Types.{Filter}

-- The set of ByType, a map with empty values.
abbrev pub allowed : List Bytes → List (Bytes × Unit {0}) → List (Bytes × Unit {0})
allowed [] m = m
allowed (t ∷ ts) m = allowed ts (insert t tt m)

module _ {S : Type 0} where
  abbrev pub and_then : (S → Called Bool × S) → Called Bool × S → Called Bool × S
  and_then rest (panicked v, s) = (panicked v, s)
  and_then rest (returned false, s) = (returned false, s)
  and_then rest (returned true, s) = rest s

module _ (sdk : CloudEvents) {S : Type 0} where
  abbrev pub pure_filter : ℕ → (sdk.Event → Bool) → Filter sdk S
  pure_filter address test = record {
    identity = some address;
    match = λ ce s. (returned (test ce), s);
  }

  unfoldable pub by_type : ℕ → List Bytes → Filter sdk S
  unfolding lookup insert
  by_type address types =
      pure_filter address (λ ce. is_some (lookup (sdk.type ce) (allowed types [])))

  unfoldable pub by_source : ℕ → Bytes → Filter sdk S
  unfolding cut_prefix
  by_source address prefix = pure_filter address (λ ce. is_some (cut_prefix (sdk.source ce) prefix))

  -- compositeFilter.Match
  unfoldable pub match_all : List (Filter sdk S) → sdk.Event → Outside S Bool
  match_all [] ce s = (returned true, s)
  match_all (f ∷ fs) ce s = and_then (match_all fs ce) (f.match ce s)

  unfoldable pub all_of : ℕ → List (Filter sdk S) → Filter sdk S
  unfolding match_all
  all_of address filters = record { identity = some address; match = match_all filters }

-- A search gives a Boolean, another value or an error.
pub data Found : Type 0 where
  boolean : Bool → Found
  other : Found
  search_failed : Err → Found

module _ {D : Type 0} (unmarshal : Bytes → Result D) where
  abbrev pub result_of : Found → Bool
  result_of (boolean b) = b
  result_of other = false
  result_of (search_failed e) = false

  abbrev pub searched : (D → Found) → Result D → Bool
  searched search (err e) = false
  searched search (ok payload) = result_of (search payload)

  -- Filter.Match of jmespath, with the compiled expression's Search.
  unfoldable pub match_expression : (D → Found) → Bytes → Bool
  match_expression search content = searched search (unmarshal content)
