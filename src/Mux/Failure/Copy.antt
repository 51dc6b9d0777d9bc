-- ===== src/Mux/Failure/Copy.antt =====
-- The dead-letter copy of a message, and the bound on the error text that it carries.
use event_driven.Prelude.{ℕ, zero, suc, ◌≤◌, ◌≡◌, Bytes, [], ◌∷◌, length, take, arith, ◌⊎◌}
use event_driven.Event.CloudEvents.{CloudEvents}
use event_driven.Mux.Failure.Text.{truncate, back_up}

back_up-le : (s : Bytes) (cut : ℕ) → back_up s cut ≤ cut
unfolding back_up
back_up-le s zero = omega arith
back_up-le s (suc cut) = ground (arith, back_up-le s cut)

length-take_le : (n : ℕ) (s : Bytes) → length (take n s) ≤ n
length-take_le zero s = omega arith
length-take_le (suc n) [] = omega arith
length-take_le (suc n) (c ∷ s) = omega (arith, length-take_le n s)

pub length-truncate_le : (s : Bytes) (n : ℕ) → length (truncate s n) ≤ n
unfolding truncate
length-truncate_le s n = ground (arith, length-take_le (back_up s n) s, back_up-le s n)

-- A byte that no broker refuses as an attribute: no control character but tab, newline and return.
abbrev pub IsPrintable : ℕ → Type 0
IsPrintable b = (32 ≤ b) ⊎ ((b ≡ 9) ⊎ ((b ≡ 10) ⊎ (b ≡ 13)))

-- A text cut off this far ends where a rune ends: the next byte starts one.
abbrev pub IsCut : Bytes → ℕ → Type 0
IsCut s zero = Unit
IsCut [] (suc n) = Unit
IsCut (c ∷ []) (suc zero) = Unit
IsCut (c ∷ d ∷ s) (suc zero) = (d ≤ 0x7F) ⊎ (0xC0 ≤ d)
IsCut (c ∷ s) (suc (suc n)) = IsCut s (suc n)

-- What truncate keeps: all of a short text, else a part that ends between two runes.
abbrev pub IsTruncated : Bytes → ℕ → Bytes → Type 0
IsTruncated s n t =
    ((length s ≤ n) × (t ≡ s)) ⊎ ((cut : ℕ) × (cut ≤ n) × (t ≡ take cut s) × IsCut s cut)
