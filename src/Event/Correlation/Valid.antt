-- ===== src/Event/Correlation/Valid.antt =====
-- Which correlation ids are valid.
use event_driven.Prelude.{
  ℕ, suc, ◌≤◌, ◌≡◌, ◌↔◌, arith, leb, ◌&&◌, Bool, true, Bytes, length, all, [], ◌∷◌, none,
}
use event_driven.Event.Correlation.{scan, validate_correlation_id}

-- A visible ASCII character: neither a space nor a control character.
abbrev pub visible : ℕ → Bool
visible c = leb 0x21 c && leb c 0x7E

scan-eq-none_iff : (i : ℕ) (s : Bytes) → (scan i s ≡ none) ↔ (all visible s ≡ true)
unfolding scan
scan-eq-none_iff i [] = ground arith
scan-eq-none_iff i (c ∷ s) = ground (arith, scan-eq-none_iff (suc i) s)

-- An id is valid exactly if it has between 1 and 128 bytes, all of them visible ASCII characters.
pub validate_correlation_id-eq-none_iff :
    (s : Bytes)
    → (validate_correlation_id s ≡ none)
      ↔ ((1 ≤ length s) × (length s ≤ 128) × (all visible s ≡ true))
unfolding validate_correlation_id
validate_correlation_id-eq-none_iff [] = ground arith
validate_correlation_id-eq-none_iff (c ∷ s) = ground (arith, scan-eq-none_iff 0 (c ∷ s))
