-- ===== src/Mux/Failure/Text.antt =====
-- sanitize and truncate of pkg/eventmux/failure.go, over the bytes of a Go string, with what they
-- use of unicode/utf8 and strings.
use event_driven.Prelude.{
  ℕ, zero, suc, ◌-◌, ltb, leb, ◌==◌, ◌&&◌, ◌||◌, not, Bool, true, false, Bytes, [], ◌∷◌, ◌++◌,
  length, take, if◌then◌else◌,
}

-- b&0xC0 == 0x80: a byte that continues a rune.
abbrev pub is_continuation : ℕ → Bool
is_continuation b = leb 0x80 b && leb b 0xBF

-- utf8.RuneStart
abbrev pub rune_start : ℕ → Bool
rune_start b = not (is_continuation b)

abbrev between : ℕ → ℕ → ℕ → Bool
between lo hi b = leb lo b && leb b hi

-- The range of the second byte that the first one allows.
abbrev second_ok : ℕ → ℕ → Bool
second_ok a b =
    if a == 0xE0
    then between 0xA0 0xBF b
    else if a == 0xED
    then between 0x80 0x9F b
    else if a == 0xF0
    then between 0x90 0xBF b
    else if a == 0xF4
    then between 0x80 0x8F b
    else is_continuation b

-- utf8.DecodeRune: how many bytes the rune at the head takes, and 0 where no valid rune starts.
unfoldable pub rune_len : Bytes → ℕ
rune_len [] = 0
rune_len (a ∷ []) = if ltb a 0x80 then 1 else 0
rune_len (a ∷ b ∷ []) =
    if ltb a 0x80 then 1 else if between 0xC2 0xDF a && is_continuation b then 2 else 0
rune_len (a ∷ b ∷ c ∷ []) =
    if ltb a 0x80
    then 1
    else if between 0xC2 0xDF a && is_continuation b
    then 2
    else if between 0xE0 0xEF a && second_ok a b && is_continuation c
    then 3
    else 0
rune_len (a ∷ b ∷ c ∷ d ∷ s) =
    if ltb a 0x80
    then 1
    else if between 0xC2 0xDF a && is_continuation b
    then 2
    else if between 0xE0 0xEF a && second_ok a b && is_continuation c
    then 3
    else if between 0xF0 0xF4 a && second_ok a b && is_continuation c && is_continuation d
    then 4
    else 0

-- "\uFFFD"
abbrev pub replacement : Bytes
replacement = 0xEF ∷ 0xBF ∷ 0xBD ∷ []

-- The loop of strings.ToValidUTF8: `keep` bytes of the current rune are still to be copied, and a
-- run of invalid bytes is replaced once.
pub record Copy : Type 0 where
  pub out : Bytes
  pub in_run : Bool
  pub keep : ℕ

unfoldable pub copy_step : Bool → ℕ → ℕ → Bytes → Copy
copy_step in_run (suc k) c s = record { out = c ∷ []; in_run = false; keep = k }
copy_step in_run zero c s =
    if rune_len (c ∷ s) == 0
    then record { out = if in_run then [] else replacement; in_run = true; keep = 0 }
    else record { out = c ∷ []; in_run = false; keep = rune_len (c ∷ s) - 1 }

unfoldable pub copy : Bool → ℕ → Bytes → Bytes
copy in_run keep [] = []
copy in_run keep (c ∷ s) =
    let next = copy_step in_run keep c s in next.out ++ copy next.in_run next.keep s

unfoldable pub to_valid_utf8 : Bytes → Bytes
unfolding copy copy_step rune_len
to_valid_utf8 s = copy false 0 s

-- The runes that the callback of strings.Map keeps; in valid UTF-8 a rune below 0x20 is one byte.
abbrev pub is_kept : ℕ → Bool
is_kept r = not (ltb r 0x20) || r == b'\t' || r == b'\n' || r == b'\r'

unfoldable pub keep_allowed : Bytes → Bytes
keep_allowed [] = []
keep_allowed (c ∷ s) = (if is_kept c then c ∷ [] else []) ++ keep_allowed s

unfoldable pub sanitize : Bytes → Bytes
unfolding keep_allowed to_valid_utf8
sanitize s = keep_allowed (to_valid_utf8 s)

-- Whether a rune starts at index i; the source reads only indices in range.
abbrev pub starts_at : Bytes → ℕ → Bool
starts_at [] i = true
starts_at (c ∷ s) zero = rune_start c
starts_at (c ∷ s) (suc i) = starts_at s i

-- The loop `for cut > 0 && !utf8.RuneStart(s[cut]) { cut-- }`.
unfoldable pub back_up : Bytes → ℕ → ℕ
back_up s zero = 0
back_up s (suc cut) = if starts_at s (suc cut) then suc cut else back_up s cut

unfoldable pub truncate : Bytes → ℕ → Bytes
unfolding back_up
truncate s max_bytes = if leb (length s) max_bytes then s else take (back_up s max_bytes) s
