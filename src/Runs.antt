-- ===== src/Runs.antt =====
-- What a subscriber of pkg/transport/gcp/pubsub or pkg/transport/nats/jetstream keeps of the loops and
-- consumers that its Starts made. Each Start makes one, and they are numbered in order.
pub mod Laws
use event_driven.Prelude.{
  ℕ, suc, ◌==◌, ltb, if◌then◌else◌, Bool, false, Option, none, some, List, [], ◌∷◌,
}

-- How often a number stands in a list.
unfoldable pub count : ℕ → List ℕ → ℕ
count n [] = 0
count n (x ∷ xs) = if n == x then suc (count n xs) else count n xs

unfoldable pub member : ℕ → List ℕ → Bool
unfolding count
member n xs = ltb 0 (count n xs)

unfoldable pub remove : ℕ → List ℕ → List ℕ
remove n [] = []
remove n (x ∷ xs) = if n == x then remove n xs else x ∷ remove n xs

abbrev pub is_current : ℕ → Option ℕ → Bool
is_current n none = false
is_current n (some m) = n == m

-- `current` is the one that the subscriber's fields hold, `running` are those that have not ended, and
-- `stopped` are those that a Stop has told to end.
pub record Runs : Type 0 where
  pub current : Option ℕ
  pub spawned : ℕ
  pub running : List ℕ
  pub stopped : List ℕ

abbrev pub no_runs : Runs
no_runs = record { current = none; spawned = 0; running = []; stopped = [] }

unfoldable pub spawn : Runs → Runs
spawn r = record r {
  current = some r.spawned;
  spawned = suc r.spawned;
  running = r.spawned ∷ r.running;
}

unfoldable pub finish : ℕ → Runs → Runs
unfolding remove
finish n r = record r { running = remove n r.running }

unfoldable pub mark : ℕ → Runs → Runs
mark n r = record r { stopped = n ∷ r.stopped }

-- What a Stop that has seen run n end does to the fields: it leaves those of a later Start alone.
unfoldable pub clear : ℕ → Runs → Runs
clear n r = if is_current n r.current then record r { current = none } else r
