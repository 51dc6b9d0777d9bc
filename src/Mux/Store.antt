-- ===== src/Mux/Store.antt =====
-- pkg/eventmux/metadata/metadata.go: the store that a handler finds in its context. Its lock makes each
-- method one step.
use event_driven.Prelude.{
  ◌≡◌, Bytes, some, lookup, insert, lookup-insert, bytes_eq, if◌then◌else◌, [],
}
use event_driven.Mux.Types.{Metadata}

unfoldable pub new_store : Metadata
new_store = []

-- Set: the new state of the store.
unfoldable pub set : Bytes → Bytes → Metadata → Metadata
unfolding insert
set key value store = insert key value store

-- All: a copy of the entries.
unfoldable pub all_entries : Metadata → Metadata
all_entries store = store

-- All has the value that was set last, and what Set did not change.
pub lookup-all_entries-set :
    (key j value : Bytes) (store : Metadata)
    → lookup j (all_entries (set key value store))
      ≡ (if bytes_eq key j then some value else lookup j (all_entries store))
unfolding set all_entries
lookup-all_entries-set key j value store = lookup-insert key j value store
