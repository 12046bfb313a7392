-- ===== src/Security.antt =====
-- src/utils/security/Cryptography.cpp: the block cipher that packets travel under.
-- The array `v` is a list, its length `n` an argument as in the source; every `uint32_t` keeps its
-- wrap-around. `arduino/libraries/ServerComm/Cryptography.cpp` is the same text over the 32-bit
-- `unsigned long` of the device, and is modelled by the same functions.
pub mod Step
mod Sweep
pub mod Inverse
pub mod Device
mod Tests
use mundosvirtuales_terremot.Base.{
  ℕ, zero, suc, ◌+◌, ◌-◌, ◌*◌, ◌/◌, ◌%◌, ◌^◌, bit_and, bit_xor, List, get_or, set,
}

abbrev pub delta : ℕ
delta = 0x9e3779b9

-- The macro MX, on uint32_t operands.
unfoldable pub mx : List ℕ → ℕ → ℕ → ℕ → ℕ → ℕ → ℕ
mx key sum e p y z =
    bit_xor
      ((bit_xor (z / 2 ^ 5) (y * 2 ^ 2 % 2 ^ 32) + bit_xor (y / 2 ^ 3) (z * 2 ^ 4 % 2 ^ 32))
        % 2 ^ 32)
      ((bit_xor sum y + bit_xor (get_or key (bit_xor (bit_and p 3) e) 0) z) % 2 ^ 32)
    % 2 ^ 32

-- v[p] += m and v[p] -= m: the new word.
abbrev pub add_word : ℕ → ℕ → ℕ
add_word w m = (w + m) % 2 ^ 32

abbrev pub sub_word : ℕ → ℕ → ℕ
sub_word w m = (w + 2 ^ 32 - m) % 2 ^ 32

abbrev pub select : ℕ → ℕ
select sum = bit_and (sum / 2 ^ 2) 3

-- The inner loop of `encrypt` from index `p`, with the rounds left: the array and `z`.
unfoldable pub encrypt_words : List ℕ → ℕ → ℕ → ℕ → ℕ → List ℕ → List ℕ × ℕ
encrypt_words key sum zero p z v = (v, z)
encrypt_words key sum (suc left) p z v =
    let w = add_word (get_or v p 0) (mx key sum (select sum) p (get_or v (p + 1) 0) z) in
    encrypt_words key sum left (p + 1) w (set v p w)

-- One pass of the `do` loop of `encrypt`, after `sum += DELTA`.
unfoldable pub encrypt_round : List ℕ → ℕ → ℕ → ℕ → List ℕ → List ℕ × ℕ
unfolding encrypt_words
encrypt_round key n sum z v =
    let (v', z') = encrypt_words key sum (n - 1) 0 z v in
    let w = add_word (get_or v' (n - 1) 0) (mx key sum (select sum) (n - 1) (get_or v' 0 0) z') in
    (set v' (n - 1) w, w)

unfoldable pub encrypt_rounds : List ℕ → ℕ → ℕ → ℕ → ℕ → List ℕ → List ℕ
encrypt_rounds key n zero sum z v = v
encrypt_rounds key n (suc rounds) sum z v =
    let sum' = add_word sum delta in
    let (v', z') = encrypt_round key n sum' z v in encrypt_rounds key n rounds sum' z' v'

unfoldable pub encrypt : List ℕ → ℕ → List ℕ → List ℕ
unfolding encrypt_rounds encrypt_round mx
encrypt v n key = encrypt_rounds key n (6 + 52 / n) 0 (get_or v (n - 1) 0) v

-- The inner loop of `decrypt` from index `p` down to 1: the array and `y`.
unfoldable pub decrypt_words : List ℕ → ℕ → ℕ → ℕ → List ℕ → List ℕ × ℕ
decrypt_words key sum zero y v = (v, y)
decrypt_words key sum (suc p) y v =
    let w = sub_word (get_or v (suc p) 0) (mx key sum (select sum) (suc p) y (get_or v p 0)) in
    decrypt_words key sum p w (set v (suc p) w)

-- One pass of the `do` loop of `decrypt`.
unfoldable pub decrypt_round : List ℕ → ℕ → ℕ → ℕ → List ℕ → List ℕ × ℕ
unfolding decrypt_words
decrypt_round key n sum y v =
    let (v', y') = decrypt_words key sum (n - 1) y v in
    let w = sub_word (get_or v' 0 0) (mx key sum (select sum) 0 y' (get_or v' (n - 1) 0)) in
    (set v' 0 w, w)

unfoldable pub decrypt_rounds : List ℕ → ℕ → ℕ → ℕ → ℕ → List ℕ → List ℕ
decrypt_rounds key n zero sum y v = v
decrypt_rounds key n (suc rounds) sum y v =
    let (v', y') = decrypt_round key n sum y v in
    decrypt_rounds key n rounds (sub_word sum delta) y' v'

unfoldable pub decrypt : List ℕ → ℕ → List ℕ → List ℕ
unfolding decrypt_rounds decrypt_round mx
decrypt v n key = decrypt_rounds key n (6 + 52 / n) ((6 + 52 / n) * delta % 2 ^ 32) (get_or v 0 0) v
