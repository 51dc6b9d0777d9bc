-- ===== src/Prelude/Text.antt =====
-- A Go string is its list of bytes; a literal is spelled by the bytes of an ASCII text.
use Prim.Native.Nat.{ℕ}
use Prim.Native.Char.{code}
use Prim.Native.String.{String}
use mathlib.Core.Path.{◌≡◌, refl}
use mathlib.Core.Logic.{◌↔◌}
use mathlib.Core.Bool.{Bool, true, false, ◌&&◌}
use mathlib.Core.Option.{Option, none, some}
use mathlib.Core.List.{List, [], ◌∷◌, ◌++◌}
use native.Mathlib.Omega.{arith}
use event_driven.Prelude.Tests.{◌==◌, if◌then◌else◌}

abbrev pub Bytes : Type 0
Bytes = List ℕ

-- The bytes of an ASCII literal.
abbrev pub str : String → Bytes
str String.[] = []
str (String.◌∷◌ c s) = code c ∷ str s

unfoldable pub bytes_eq : Bytes → Bytes → Bool
bytes_eq [] [] = true
bytes_eq (a ∷ x) (b ∷ y) = a == b && bytes_eq x y
bytes_eq _ _ = false

pub bytes_eq_iff : (x y : Bytes) → (bytes_eq x y ≡ true) ↔ (x ≡ y)
unfolding bytes_eq
bytes_eq_iff [] [] = ground arith
bytes_eq_iff (a ∷ x) (b ∷ y) = ground (arith, bytes_eq_iff x y)
bytes_eq_iff [] (b ∷ y) = ground arith
bytes_eq_iff (a ∷ x) [] = ground arith

pub bytes_eq_refl : (x : Bytes) → bytes_eq x x ≡ true
bytes_eq_refl x = (bytes_eq_iff x x).1 refl

-- s == "".
abbrev pub is_empty : Bytes → Bool
is_empty [] = true
is_empty (_ ∷ _) = false

-- strings.CutPrefix: the rest after the prefix.
unfoldable pub cut_prefix : Bytes → Bytes → Option Bytes
cut_prefix s [] = some s
cut_prefix [] (p ∷ ps) = none
cut_prefix (c ∷ s) (p ∷ ps) = if c == p then cut_prefix s ps else none

pub cut_prefix-eq-some_iff : (s p r : Bytes) → (cut_prefix s p ≡ some r) ↔ (s ≡ p ++ r)
unfolding cut_prefix
cut_prefix-eq-some_iff s [] r = ground arith
cut_prefix-eq-some_iff [] (p ∷ ps) r = ground arith
cut_prefix-eq-some_iff (c ∷ s) (p ∷ ps) r = ground (arith, cut_prefix-eq-some_iff s ps r)

-- The verb %q, on a text without bytes that Go escapes.
abbrev pub quoted : Bytes → Bytes
quoted s = str "\"" ++ s ++ str "\""
