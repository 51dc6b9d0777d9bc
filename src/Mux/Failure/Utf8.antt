-- ===== src/Mux/Failure/Utf8.antt =====
-- The text that sanitize of pkg/eventmux/failure.go makes is valid UTF-8.
use mathlib.Core.Path.{subst}
use event_driven.Prelude.{
  take, length, if_both, ℕ, zero, suc, ◌-◌, ltb, leb, ◌==◌, ◌≤◌, ◌≡◌, refl, arith, ◌&&◌, not, Bool,
  true, false, Bytes, [], ◌∷◌, ◌++◌, Bool-cases, inl, inr,
}
use event_driven.Mux.Failure.Text.{
  is_continuation, starts_at, back_up, truncate, rune_len, to_valid_utf8, copy, copy_step,
  keep_allowed, is_kept, sanitize, replacement,
}

abbrev less_one : ℕ → ℕ
less_one zero = 0
less_one (suc k) = k

abbrev is_positive : ℕ → Bool
is_positive zero = false
is_positive (suc k) = true

-- A text of whole runes, after `rest` bytes that are left of one and continue it.
abbrev pub is_utf8 : ℕ → Bytes → Bool
is_utf8 zero [] = true
is_utf8 (suc rest) [] = false
is_utf8 (suc rest) (c ∷ s) = is_continuation c && is_utf8 rest s
is_utf8 zero (c ∷ s) =
    let others = is_utf8 (less_one (rune_len (c ∷ s))) s in is_positive (rune_len (c ∷ s)) && others

-- Two texts have the same first bytes.
abbrev Agree : ℕ → Bytes → Bytes → Type 0
Agree zero s t = Unit
Agree (suc k) [] t = Unit
Agree (suc k) (b ∷ s) [] = ⊥
Agree (suc k) (b ∷ s) (c ∷ t) = (b ≡ c) × Agree k s t

one : (c : ℕ) (t : Bytes) → ltb c 0x80 ≡ true → rune_len (c ∷ t) ≡ 1
unfolding rune_len
one c [] h = rw h refl
one c (b ∷ []) h = rw h refl
one c (b ∷ d ∷ []) h = rw h refl
one c (b ∷ d ∷ e ∷ t) h = rw h refl

rune_len-one : (c : ℕ) (s : Bytes) → rune_len (c ∷ s) ≡ 1 → ltb c 0x80 ≡ true
unfolding rune_len
rune_len-one c [] h = ground (arith, h)
rune_len-one c (b ∷ []) h = ground (arith, h)
rune_len-one c (b ∷ d ∷ []) h = ground (arith, h)
rune_len-one c (b ∷ d ∷ e ∷ s) h = ground (arith, h)

rune_len-two : (c b : ℕ) (s t : Bytes) → rune_len (c ∷ b ∷ s) ≡ 2 → rune_len (c ∷ b ∷ t) ≡ 2
unfolding rune_len
rune_len-two c b [] [] h = h
rune_len-two c b [] (e ∷ []) h = ground (arith, h)
rune_len-two c b [] (e ∷ f ∷ t) h = ground (arith, h)
rune_len-two c b (d ∷ []) [] h = ground (arith, h)
rune_len-two c b (d ∷ []) (e ∷ []) h = ground (arith, h)
rune_len-two c b (d ∷ []) (e ∷ f ∷ t) h = ground (arith, h)
rune_len-two c b (d ∷ g ∷ s) [] h = ground (arith, h)
rune_len-two c b (d ∷ g ∷ s) (e ∷ []) h = ground (arith, h)
rune_len-two c b (d ∷ g ∷ s) (e ∷ f ∷ t) h = ground (arith, h)

rune_len-three :
    (c b d : ℕ) (s t : Bytes) → rune_len (c ∷ b ∷ d ∷ s) ≡ 3 → rune_len (c ∷ b ∷ d ∷ t) ≡ 3
unfolding rune_len
rune_len-three c b d [] [] h = h
rune_len-three c b d [] (f ∷ t) h = ground (arith, h)
rune_len-three c b d (g ∷ s) [] h = ground (arith, h)
rune_len-three c b d (g ∷ s) (f ∷ t) h = ground (arith, h)

rune_len-four :
    (c b d e : ℕ) (s t : Bytes)
    → rune_len (c ∷ b ∷ d ∷ e ∷ s) ≡ 4
    → rune_len (c ∷ b ∷ d ∷ e ∷ t) ≡ 4
unfolding rune_len
rune_len-four c b d e s t h = h

rune_len-le : (c : ℕ) (s : Bytes) → rune_len (c ∷ s) ≤ 4
unfolding rune_len
rune_len-le c [] = ground arith
rune_len-le c (b ∷ []) = ground arith
rune_len-le c (b ∷ d ∷ []) = ground arith
rune_len-le c (b ∷ d ∷ e ∷ s) = ground arith

-- The first bytes are there, and continue a rune.
abbrev Tail : ℕ → Bytes → Type 0
Tail zero s = Unit
Tail (suc k) [] = ⊥
Tail (suc k) (b ∷ s) = (is_continuation b ≡ true) × Tail k s

rune_len-Tail : (c k : ℕ) (s : Bytes) → rune_len (c ∷ s) ≡ suc k → Tail k s
unfolding rune_len
rune_len-Tail c zero s h = tt
rune_len-Tail c (suc k) [] h = absurd (ground (arith, h))
rune_len-Tail c (suc zero) (b ∷ []) h = (ground (arith, h), tt)
rune_len-Tail c (suc zero) (b ∷ d ∷ []) h = (ground (arith, h), tt)
rune_len-Tail c (suc zero) (b ∷ d ∷ e ∷ s) h = (ground (arith, h), tt)
rune_len-Tail c (suc (suc k)) (b ∷ []) h = absurd (ground (arith, h))
rune_len-Tail c (suc (suc zero)) (b ∷ d ∷ []) h = (ground (arith, h), (ground (arith, h), tt))
rune_len-Tail c (suc (suc zero)) (b ∷ d ∷ e ∷ s) h = (ground (arith, h), (ground (arith, h), tt))
rune_len-Tail c (suc (suc (suc k))) (b ∷ d ∷ []) h = absurd (ground (arith, h))
rune_len-Tail c (suc (suc (suc zero))) (b ∷ d ∷ e ∷ s) h =
    (ground (arith, h), (ground (arith, h), (ground (arith, h), tt)))
rune_len-Tail c (suc (suc (suc (suc k)))) (b ∷ d ∷ e ∷ s) h = absurd (ground (arith, h))

rune_len-Agree :
    (c k : ℕ) (s t : Bytes) → rune_len (c ∷ s) ≡ suc k → Agree k s t → rune_len (c ∷ t) ≡ suc k
rune_len-Agree c zero s t h a = one c t (rune_len-one c s h)
rune_len-Agree c (suc k) [] t h a = absurd (rune_len-Tail c (suc k) [] h)
rune_len-Agree c (suc k) (b ∷ s) [] h a = absurd a
rune_len-Agree c (suc zero) (b ∷ s) (b' ∷ t) h (e, a) = rw (← e) (rune_len-two c b s t h)
rune_len-Agree c (suc (suc k)) (b ∷ []) (b' ∷ t) h (e, a) =
    absurd ((rune_len-Tail c (suc (suc k)) (b ∷ []) h).1)
rune_len-Agree c (suc (suc k)) (b ∷ d ∷ s) (b' ∷ []) h (e, a) = absurd a
rune_len-Agree c (suc (suc zero)) (b ∷ d ∷ s) (b' ∷ d' ∷ t) h (e, (f, a)) =
    rw (← e) (rw (← f) (rune_len-three c b d s t h))
rune_len-Agree c (suc (suc (suc k))) (b ∷ d ∷ []) (b' ∷ d' ∷ t) h (e, (f, a)) =
    absurd ((rune_len-Tail c (suc (suc (suc k))) (b ∷ d ∷ []) h).1.1)
rune_len-Agree c (suc (suc (suc k))) (b ∷ d ∷ g ∷ s) (b' ∷ d' ∷ []) h (e, (f, a)) = absurd a
rune_len-Agree c (suc (suc (suc zero))) (b ∷ d ∷ g ∷ s) (b' ∷ d' ∷ g' ∷ t) h (e, (f, (i, a))) =
    rw (← e) (rw (← f) (rw (← i) (rune_len-four c b d g s t h)))
rune_len-Agree c (suc (suc (suc (suc k)))) (b ∷ d ∷ g ∷ s) (b' ∷ d' ∷ g' ∷ t) h (e, (f, (i, a))) =
    absurd (omega (arith, h, rune_len-le c (b ∷ d ∷ g ∷ s)))

-- The rune at the head of a text, followed by what agrees with the rest of it.
whole :
    (c k : ℕ) (s t : Bytes)
    → rune_len (c ∷ s) ≡ suc k
    → Agree k s t
    → is_utf8 k t ≡ true
    → is_utf8 0 (c ∷ t) ≡ true
whole c k s t h a u = rw (rune_len-Agree c k s t h a) u

copy-Agree : (k : ℕ) (s : Bytes) → Agree k s (copy false k s)
unfolding copy copy_step
copy-Agree zero s = tt
copy-Agree (suc k) [] = tt
copy-Agree (suc k) (b ∷ s) = (refl, copy-Agree k s)

replaced : (t : Bytes) → is_utf8 0 t ≡ true → is_utf8 0 (replacement ++ t) ≡ true
unfolding rune_len
replaced [] h = refl
replaced (c ∷ t) h = h

not_zero : (k : ℕ) → (suc k == 0) ≡ false
not_zero k = ground arith

less_one_lem : (k : ℕ) → suc k - 1 ≡ k
less_one_lem k = omega arith

copy-next :
    (c n : ℕ) (s : Bytes) (in_run : Bool)
    → rune_len (c ∷ s) ≡ n
    → is_utf8 0 (copy true 0 s) ≡ true
    → ((k : ℕ) → Tail k s → is_utf8 k (copy false k s) ≡ true)
    → is_utf8 0 (copy in_run 0 (c ∷ s)) ≡ true
unfolding copy copy_step
copy-next c zero s true e bad good = rw e bad
copy-next c zero s false e bad good = rw e (replaced (copy true 0 s) bad)
copy-next c (suc k) s in_run e bad good =
    rw (e, not_zero k, less_one_lem k)
      (whole c k s (copy false k s) e (copy-Agree k s) (good k (rune_len-Tail c k s e)))

copy-IsUtf8 : (in_run : Bool) (k : ℕ) (s : Bytes) → Tail k s → is_utf8 k (copy in_run k s) ≡ true
unfolding copy copy_step
copy-IsUtf8 in_run zero [] h = refl
copy-IsUtf8 in_run (suc k) [] h = absurd h
copy-IsUtf8 in_run (suc k) (c ∷ s) (b, h) = rw b (copy-IsUtf8 false k s h)
copy-IsUtf8 in_run zero (c ∷ s) h =
    copy-next c (rune_len (c ∷ s)) s in_run refl (copy-IsUtf8 true 0 s tt)
      (λ k. copy-IsUtf8 false k s)

-- The bytes that are left of a rune are kept.
kept : (c : ℕ) → is_continuation c ≡ true → is_kept c ≡ true
kept c h = ground (arith, h)

and-true : (a b : Bool) → (a && b) ≡ true → (a ≡ true) × (b ≡ true)
and-true true b h = (refl, h)
and-true false b h = cc

keep_allowed-Agree : (k : ℕ) (s : Bytes) → is_utf8 k s ≡ true → Agree k s (keep_allowed s)
unfolding keep_allowed
keep_allowed-Agree zero s h = tt
keep_allowed-Agree (suc k) [] h = tt
keep_allowed-Agree (suc k) (b ∷ s) h =
    let (more, rest) = and-true (is_continuation b) (is_utf8 k s) h in
    rw (kept b more) (refl, keep_allowed-Agree k s rest)

control : (c n : ℕ) (s : Bytes) → is_kept c ≡ false → rune_len (c ∷ s) ≡ n → n ≡ 1
control c n s h e = ground (arith, h, e, one c s)

keep-next :
    (c n : ℕ) (s : Bytes)
    → rune_len (c ∷ s) ≡ n
    → is_utf8 0 (c ∷ s) ≡ true
    → ((k : ℕ) → is_utf8 k s ≡ true → is_utf8 k (keep_allowed s) ≡ true)
    → is_utf8 0 (keep_allowed (c ∷ s)) ≡ true
unfolding keep_allowed
keep-next c zero s e h good =
    let bad : (false && is_utf8 0 s) ≡ true =
      subst (λ n. (is_positive n && is_utf8 (less_one n) s) ≡ true) e h in
    cc
keep-next c (suc k) s e h good =
    let u : is_utf8 k s ≡ true =
      subst (λ n. (is_positive n && is_utf8 (less_one n) s) ≡ true) e h in
    elim (Bool-cases (is_kept c)) [
      | inl stays ↦ rw stays (whole c k s (keep_allowed s) e (keep_allowed-Agree k s u) (good k u))
      | inr goes ↦
          rw goes
            (good 0 (subst (λ n. is_utf8 (less_one n) s ≡ true) (control c (suc k) s goes e) u))
    ]

keep_allowed-IsUtf8 : (k : ℕ) (s : Bytes) → is_utf8 k s ≡ true → is_utf8 k (keep_allowed s) ≡ true
unfolding keep_allowed
keep_allowed-IsUtf8 zero [] h = refl
keep_allowed-IsUtf8 (suc k) [] h = cc
keep_allowed-IsUtf8 (suc k) (b ∷ s) h =
    let (more, rest) = and-true (is_continuation b) (is_utf8 k s) h in
    rw (kept b more) (rw more (keep_allowed-IsUtf8 k s rest))
keep_allowed-IsUtf8 zero (c ∷ s) h =
    keep-next c (rune_len (c ∷ s)) s refl h (λ k. keep_allowed-IsUtf8 k s)

sanitize-IsUtf8 : (s : Bytes) → is_utf8 0 (sanitize s) ≡ true
unfolding sanitize to_valid_utf8
sanitize-IsUtf8 s = keep_allowed-IsUtf8 0 (copy false 0 s) (copy-IsUtf8 false 0 s tt)

take-Agree : (k n : ℕ) (s : Bytes) → is_utf8 k (take n s) ≡ true → Agree k s (take n s)
take-Agree zero n s h = tt
take-Agree (suc k) n [] h = tt
take-Agree (suc k) zero (b ∷ s) h = cc
take-Agree (suc k) (suc n) (b ∷ s) h =
    (refl, take-Agree k n s (and-true (is_continuation b) (is_utf8 k (take n s)) h).1)

take-next :
    (c m n : ℕ) (s : Bytes)
    → rune_len (c ∷ s) ≡ m
    → is_utf8 0 (c ∷ s) ≡ true
    → ((k : ℕ) → is_utf8 k s ≡ true → is_utf8 k (take n s) ≡ true)
    → is_utf8 0 (c ∷ take n s) ≡ true
take-next c zero n s e h good =
    let bad : (false && is_utf8 0 s) ≡ true =
      subst (λ n. (is_positive n && is_utf8 (less_one n) s) ≡ true) e h in
    cc
take-next c (suc k) n s e h good =
    let u : is_utf8 k s ≡ true =
      subst (λ n. (is_positive n && is_utf8 (less_one n) s) ≡ true) e h in
    whole c k s (take n s) e (take-Agree k n s (good k u)) (good k u)

-- A text that is cut off where a rune starts is whole.
take-IsUtf8 :
    (k n : ℕ) (s : Bytes) → is_utf8 k s ≡ true → starts_at s n ≡ true → is_utf8 k (take n s) ≡ true
take-IsUtf8 zero zero s h start = refl
take-IsUtf8 zero (suc n) [] h start = refl
take-IsUtf8 (suc k) n [] h start = cc
take-IsUtf8 (suc k) zero (b ∷ s) h start =
    let more = (and-true (is_continuation b) (is_utf8 k s) h).0 in
    let stop : not true ≡ true = subst (λ x. not x ≡ true) more start in cc
take-IsUtf8 (suc k) (suc n) (b ∷ s) h start =
    let (more, rest) = and-true (is_continuation b) (is_utf8 k s) h in
    rw more (take-IsUtf8 k n s rest start)
take-IsUtf8 zero (suc n) (c ∷ s) h start =
    take-next c (rune_len (c ∷ s)) n s refl h (λ k u. take-IsUtf8 k n s u start)

back_up-IsUtf8 : (s : Bytes) (n : ℕ) → is_utf8 0 s ≡ true → is_utf8 0 (take (back_up s n) s) ≡ true
unfolding back_up
back_up-IsUtf8 s zero h = refl
back_up-IsUtf8 s (suc n) h = elim (Bool-cases (starts_at s (suc n))) [
  | inl start ↦ rw start (take-IsUtf8 0 (suc n) s h start)
  | inr inside ↦ rw inside (back_up-IsUtf8 s n h)
]

-- The text that a dead-letter copy carries is valid UTF-8, whatever the bytes of the error are.
pub truncate-sanitize-IsUtf8 : (s : Bytes) (n : ℕ) → is_utf8 0 (truncate (sanitize s) n) ≡ true
unfolding truncate
truncate-sanitize-IsUtf8 s n =
    let valid = sanitize-IsUtf8 s in
    if_both (λ t. is_utf8 0 t ≡ true) (leb (length (sanitize s)) n) (sanitize s)
      (take (back_up (sanitize s) n) (sanitize s)) valid (back_up-IsUtf8 (sanitize s) n valid)
