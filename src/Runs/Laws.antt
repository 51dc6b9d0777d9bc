-- ===== src/Runs/Laws.antt =====
-- At most one run at a time.
use mathlib.Core.Path.{subst}
use event_driven.Prelude.{
  ℕ, ◌==◌, ◌≤◌, ◌≡◌, arith, if◌then◌else◌, true, false, Option, none, some, List, [], ◌∷◌,
  Bool-cases, inl, inr, if_true, if_false, if_both, refl,
}
use event_driven.Runs.{count, member, remove, is_current, Runs, spawn, finish, mark, clear, no_runs}

pub count-remove :
    (n m : ℕ) (xs : List ℕ) → count n (remove m xs) ≡ (if n == m then 0 else count n xs)
unfolding count remove
count-remove n m [] = ground arith
count-remove n m (x ∷ xs) = ground (arith, count-remove n m xs)

pub count-absent : (n : ℕ) (xs : List ℕ) → member n xs ≡ false → count n xs ≡ 0
unfolding member
count-absent n xs h = ground (arith, h)

-- What runs is the current run, once.
abbrev pub IsExclusive : Runs → Type 0
IsExclusive r = (n : ℕ) → count n r.running ≤ (if is_current n r.current then 1 else 0)

pub no_runs-IsExclusive : IsExclusive no_runs
unfolding count
no_runs-IsExclusive n = omega arith

pub spawn-IsExclusive : (r : Runs) → r.current ≡ none → IsExclusive r → IsExclusive (spawn r)
unfolding spawn count
spawn-IsExclusive r h e n = ground (arith, h, e n)

pub finish-IsExclusive : (n : ℕ) (r : Runs) → IsExclusive r → IsExclusive (finish n r)
unfolding finish
finish-IsExclusive n r e m = ground (arith, count-remove m n r.running, e m)

pub mark-IsExclusive : (n : ℕ) (r : Runs) → IsExclusive r → IsExclusive (mark n r)
unfolding mark
mark-IsExclusive n r e = e

same_current : (n m : ℕ) (o : Option ℕ) → is_current n o ≡ true → is_current m o ≡ true → m ≡ n
same_current n m none h k = cc
same_current n m (some j) h k = ground (arith, h, k)

none_running :
    (n m : ℕ) (r : Runs)
    → is_current n r.current ≡ true
    → member n r.running ≡ false
    → IsExclusive r
    → count m r.running ≤ 0
none_running n m r now gone e = elim (Bool-cases (is_current m r.current)) [
  | inl same ↦
      rw (same_current n m r.current now same) (omega (arith, count-absent n r.running gone))
  | inr past ↦ subst (λ b. count m r.running ≤ (if b then 1 else 0)) past (e m)
]

pub clear-IsExclusive :
    (n : ℕ) (r : Runs) → member n r.running ≡ false → IsExclusive r → IsExclusive (clear n r)
unfolding clear
clear-IsExclusive n r gone e = elim (Bool-cases (is_current n r.current)) [
  | inl now ↦
      if_true IsExclusive (is_current n r.current) (record r { current = none }) r now
        (λ m. none_running n m r now gone e)
  | inr past ↦ if_false IsExclusive (is_current n r.current) (record r { current = none }) r past e
]

pub count-present : (n : ℕ) (xs : List ℕ) → member n xs ≡ true → 1 ≤ count n xs
unfolding member
count-present n xs h = ground (arith, h)

-- Clearing forgets only which run is the current one.
pub clear-fields :
    (n : ℕ) (r : Runs)
    → ((clear n r).running ≡ r.running)
      × ((clear n r).spawned ≡ r.spawned)
      × ((clear n r).stopped ≡ r.stopped)
unfolding clear
clear-fields n r =
    if_both
      (λ (q : Runs). (q.running ≡ r.running) × (q.spawned ≡ r.spawned) × (q.stopped ≡ r.stopped))
      (is_current n r.current) (record r { current = none }) r (refl, refl, refl) (refl, refl, refl)

pub clear-current : (n : ℕ) (r : Runs) → r.current ≡ some n → (clear n r).current ≡ none
unfolding clear
clear-current n r h = ground (arith, h)
