-- ===== src/Server/Session.antt =====
-- src/utils/ClientID.h, `generateSID`: the session identification of a client, as the codes of its
-- characters. `rand` is the sequence of the numbers that std::rand returns. `rnd` is the 32-bit word of
-- the source's `int`, whose product with 0x1000000 wraps around.
use mundosvirtuales_terremot.Base.{
  ℕ, zero, suc, ◌+◌, ◌*◌, ◌/◌, ◌%◌, ◌^◌, ◌≡◌, refl, Bool, true, false, ◌&&◌, ◌||◌, inl, inr, List,
  [], ◌∷◌, arith, Bool-cases, if◌then◌else◌, ◌==◌, ltb, leb, length,
}
use mundosvirtuales_terremot.Base.Int.{pos, leb_ℤ, signed32}

-- CHARS[d] for an index below 36
abbrev pub digit : ℕ → ℕ
digit d = if ltb d 10 then 48 + d else 55 + d

-- if (rnd <= 0x02) rnd = 0x2000000 + (std::rand() * 0x1000000) | 0;
unfoldable pub refill : ℕ → ℕ → ℕ
refill rnd r = if leb_ℤ (signed32 rnd) (pos 2) then (0x200_0000 + r * 0x100_0000) % 2 ^ 32 else rnd

-- rnd >>= 4, which keeps the sign
abbrev pub shift_right4 : ℕ → ℕ
shift_right4 rnd = if ltb rnd (2 ^ 31) then rnd / 16 else rnd / 16 + 0xf000_0000

-- The characters that are set before the loop, which skips their places.
abbrev pub is_dash : ℕ → Bool
is_dash i = i == 8 || i == 13 || i == 18 || i == 23

abbrev pub random_digit : ℕ → ℕ → ℕ
random_digit i rnd = if i == 19 then digit (rnd % 16 % 4 + 8) else digit (rnd % 16)

-- The loop from place `i` on, with the places left, `rnd` and the number of calls of std::rand so far.
unfoldable pub sid_from : (ℕ → ℕ) → ℕ → ℕ → ℕ → ℕ → List ℕ
unfolding refill
sid_from rand zero i rnd calls = []
sid_from rand (suc left) i rnd calls =
    let rnd' = shift_right4 (refill rnd (rand calls)) in
    let calls' = if leb_ℤ (signed32 rnd) (pos 2) then calls + 1 else calls in
    let skipped = sid_from rand left (i + 1) rnd calls in
    let drawn = sid_from rand left (i + 1) rnd' calls' in
    if is_dash i
    then 45 ∷ skipped
    else (if i == 14 then 52 ∷ skipped else random_digit i rnd' ∷ drawn)

unfoldable pub generate_sid : (ℕ → ℕ) → List ℕ
unfolding sid_from
generate_sid rand = sid_from rand 36 0 0 0

-- The character `c` fits place `i` of a random identification of version 4, in capitals.
abbrev pub fits : ℕ → ℕ → Bool
fits i c =
    if is_dash i
    then c == 45
    else if i == 14
    then c == 52
    else if i == 19
    then c == 56 || c == 57 || c == 65 || c == 66
    else (leb 48 c && leb c 57) || (leb 65 c && leb c 70)

-- Every character fits its place, the first one being at `i`.
abbrev pub Fit : ℕ → List ℕ → Type 0
Fit i [] = Unit
Fit i (c ∷ cs) = (fits i c ≡ true) × Fit (i + 1) cs

variant :
    (d : ℕ) → (let c = digit (d % 16 % 4 + 8) in c == 56 || c == 57 || c == 65 || c == 66) ≡ true
variant d = ground arith

hexadecimal :
    (d : ℕ) → (let c = digit (d % 16) in (leb 48 c && leb c 57) || (leb 65 c && leb c 70)) ≡ true
hexadecimal d = ground arith

fits_dash : (i : ℕ) → is_dash i ≡ true → fits i 45 ≡ true
fits_dash i e = rw e refl

fits_four : (i : ℕ) → is_dash i ≡ false → (i == 14) ≡ true → fits i 52 ≡ true
fits_four i e f = rw (e, f) refl

fits-random_digit :
    (i rnd : ℕ) → is_dash i ≡ false → (i == 14) ≡ false → fits i (random_digit i rnd) ≡ true
fits-random_digit i rnd e f = elim (Bool-cases (i == 19)) [
  | inl g ↦ rw (e, f, g) (variant rnd)
  | inr g ↦ rw (e, f, g) (hexadecimal rnd)
]

sid_from-Fit :
    (rand : ℕ → ℕ) (left i rnd calls : ℕ)
    → (length (sid_from rand left i rnd calls) ≡ left) × Fit i (sid_from rand left i rnd calls)
unfolding sid_from
sid_from-Fit rand zero i rnd calls = (refl, tt)
sid_from-Fit rand (suc left) i rnd calls =
    let rnd' = shift_right4 (refill rnd (rand calls)) in
    let calls' = if leb_ℤ (signed32 rnd) (pos 2) then calls + 1 else calls in
    let (n, skipped) = sid_from-Fit rand left (i + 1) rnd calls in
    let (m, drawn) = sid_from-Fit rand left (i + 1) rnd' calls' in
    elim (Bool-cases (is_dash i)) [
      | inl e ↦ rw e (omega (arith, n), (fits_dash i e, skipped))
      | inr e ↦ elim (Bool-cases (i == 14)) [
        | inl f ↦ rw (e, f) (omega (arith, n), (fits_four i e f, skipped))
        | inr f ↦ rw (e, f) (omega (arith, m), (fits-random_digit i rnd' e f, drawn))
      ]
    ]

-- Whatever std::rand returns, `generateSID` yields 36 characters in the form of a random
-- identification of version 4: dashes at 8, 13, 18 and 23, a 4 at 14, one of 8, 9, A and B at 19,
-- and capital hexadecimal digits elsewhere.
pub generate_sid-Fit :
    (rand : ℕ → ℕ) → (length (generate_sid rand) ≡ 36) × Fit 0 (generate_sid rand)
unfolding generate_sid
generate_sid-Fit rand = sid_from-Fit rand 36 0 0 0
