-- ===== src/Prelude/Calls.antt =====
-- A call of code that the library does not own (handlers, publishers, brokers): it may change the
-- state of the outside world, and returns or panics.
use mathlib.Core.Bool.{Bool, true, false}
use event_driven.Prelude.Text.{Bytes}

-- How a Go call ends; a panic carries the text of its value.
pub data Called {ℓ} (A : Type ℓ) : Type ℓ where
  returned : A → Called A
  panicked : Bytes → Called A

abbrev pub Outside : Type 0 → Type 0 → Type 0
Outside S A = S → Called A × S

abbrev pub is_panic {ℓ} : {A : Type ℓ} → Called A → Bool
is_panic (returned a) = false
is_panic (panicked v) = true
