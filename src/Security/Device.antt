-- ===== src/Security/Device.antt =====
-- arduino/libraries/ServerComm/Cryptography.cpp: the cipher of the devices, whose words are `unsigned long`. The
-- language leaves the width `w` of that type open: it is 32 on the boards, and 64 on other machines.
use mundosvirtuales_terremot.Base.{
  ℕ, zero, suc, ◌+◌, ◌-◌, ◌*◌, ◌/◌, ◌%◌, ◌^◌, ◌≤◌, ◌≡◌, refl, ◌∙◌, ap, bit_and, bit_xor, List,
  get_or, set,
}
use mundosvirtuales_terremot.Security.{
  delta, select, mx, add_word, sub_word, encrypt_words, encrypt_round, encrypt_rounds, encrypt,
  decrypt_words, decrypt_round, decrypt_rounds, decrypt,
}
use mundosvirtuales_terremot.Security.Step.{IsBlock}
use mundosvirtuales_terremot.Security.Inverse.{decrypt-encrypt}

module _ (w : ℕ) where
  -- The macro MX, on unsigned long operands.
  unfoldable mx_long : List ℕ → ℕ → ℕ → ℕ → ℕ → ℕ → ℕ
  mx_long key sum e p y z =
      bit_xor
        ((bit_xor (z / 2 ^ 5) (y * 2 ^ 2 % 2 ^ w) + bit_xor (y / 2 ^ 3) (z * 2 ^ 4 % 2 ^ w))
          % 2 ^ w)
        ((bit_xor sum y + bit_xor (get_or key (bit_xor (bit_and p 3) e) 0) z) % 2 ^ w)
      % 2 ^ w

  -- v[p] += m and v[p] -= m: the new word.
  abbrev add_word_long : ℕ → ℕ → ℕ
  add_word_long a m = (a + m) % 2 ^ w

  abbrev sub_word_long : ℕ → ℕ → ℕ
  sub_word_long a m = (a + 2 ^ w - m) % 2 ^ w

  -- The inner loop of `encrypt_long` from index `p`, with the rounds left: the array and `z`.
  unfoldable encrypt_words_long : List ℕ → ℕ → ℕ → ℕ → ℕ → List ℕ → List ℕ × ℕ
  encrypt_words_long key sum zero p z v = (v, z)
  encrypt_words_long key sum (suc left) p z v =
      let u =
        add_word_long (get_or v p 0) (mx_long key sum (select sum) p (get_or v (p + 1) 0) z) in
      encrypt_words_long key sum left (p + 1) u (set v p u)

  -- One pass of the `do` loop of `encrypt_long`, after `sum += DELTA`.
  unfoldable encrypt_round_long : List ℕ → ℕ → ℕ → ℕ → List ℕ → List ℕ × ℕ
  unfolding encrypt_words_long
  encrypt_round_long key n sum z v =
      let (v', z') = encrypt_words_long key sum (n - 1) 0 z v in
      let u =
        add_word_long (get_or v' (n - 1) 0)
          (mx_long key sum (select sum) (n - 1) (get_or v' 0 0) z') in
      (set v' (n - 1) u, u)

  unfoldable encrypt_rounds_long : List ℕ → ℕ → ℕ → ℕ → ℕ → List ℕ → List ℕ
  encrypt_rounds_long key n zero sum z v = v
  encrypt_rounds_long key n (suc rounds) sum z v =
      let sum' = add_word_long sum delta in
      let (v', z') = encrypt_round_long key n sum' z v in
      encrypt_rounds_long key n rounds sum' z' v'

  unfoldable pub encrypt_long : List ℕ → ℕ → List ℕ → List ℕ
  unfolding encrypt_rounds_long encrypt_round_long mx_long
  encrypt_long v n key = encrypt_rounds_long key n (6 + 52 / n) 0 (get_or v (n - 1) 0) v

  -- The inner loop of `decrypt_long` from index `p` down to 1: the array and `y`.
  unfoldable decrypt_words_long : List ℕ → ℕ → ℕ → ℕ → List ℕ → List ℕ × ℕ
  decrypt_words_long key sum zero y v = (v, y)
  decrypt_words_long key sum (suc p) y v =
      let u =
        sub_word_long (get_or v (suc p) 0)
          (mx_long key sum (select sum) (suc p) y (get_or v p 0)) in
      decrypt_words_long key sum p u (set v (suc p) u)

  -- One pass of the `do` loop of `decrypt_long`.
  unfoldable decrypt_round_long : List ℕ → ℕ → ℕ → ℕ → List ℕ → List ℕ × ℕ
  unfolding decrypt_words_long
  decrypt_round_long key n sum y v =
      let (v', y') = decrypt_words_long key sum (n - 1) y v in
      let u =
        sub_word_long (get_or v' 0 0) (mx_long key sum (select sum) 0 y' (get_or v' (n - 1) 0)) in
      (set v' 0 u, u)

  unfoldable decrypt_rounds_long : List ℕ → ℕ → ℕ → ℕ → ℕ → List ℕ → List ℕ
  decrypt_rounds_long key n zero sum y v = v
  decrypt_rounds_long key n (suc rounds) sum y v =
      let (v', y') = decrypt_round_long key n sum y v in
      decrypt_rounds_long key n rounds (sub_word_long sum delta) y' v'

  unfoldable pub decrypt_long : List ℕ → ℕ → List ℕ → List ℕ
  unfolding decrypt_rounds_long decrypt_round_long mx_long
  decrypt_long v n key =
      decrypt_rounds_long key n (6 + 52 / n) ((6 + 52 / n) * delta % 2 ^ w) (get_or v 0 0) v

encrypt_words-long :
    (key : List ℕ) (sum left p z : ℕ) (v : List ℕ)
    → encrypt_words_long 32 key sum left p z v ≡ encrypt_words key sum left p z v
unfolding encrypt_words_long encrypt_words mx_long mx
encrypt_words-long key sum zero p z v = refl
encrypt_words-long key sum (suc left) p z v = encrypt_words-long key sum left (p + 1) _ _

decrypt_words-long :
    (key : List ℕ) (sum p y : ℕ) (v : List ℕ)
    → decrypt_words_long 32 key sum p y v ≡ decrypt_words key sum p y v
unfolding decrypt_words_long decrypt_words mx_long mx
decrypt_words-long key sum zero y v = refl
decrypt_words-long key sum (suc p) y v = decrypt_words-long key sum p _ _

encrypt_rounds-long :
    (key : List ℕ) (n rounds sum z : ℕ) (v : List ℕ)
    → encrypt_rounds_long 32 key n rounds sum z v ≡ encrypt_rounds key n rounds sum z v
unfolding encrypt_rounds_long encrypt_rounds encrypt_round_long encrypt_round mx_long mx
encrypt_rounds-long key n zero sum z v = refl
encrypt_rounds-long key n (suc rounds) sum z v =
    rw (encrypt_words-long key (add_word sum delta) (n - 1) 0 z v)
      (encrypt_rounds-long key n rounds (add_word sum delta) _ _)

decrypt_rounds-long :
    (key : List ℕ) (n rounds sum y : ℕ) (v : List ℕ)
    → decrypt_rounds_long 32 key n rounds sum y v ≡ decrypt_rounds key n rounds sum y v
unfolding decrypt_rounds_long decrypt_rounds decrypt_round_long decrypt_round mx_long mx
decrypt_rounds-long key n zero sum y v = refl
decrypt_rounds-long key n (suc rounds) sum y v =
    rw (decrypt_words-long key sum (n - 1) y v)
      (decrypt_rounds-long key n rounds (sub_word sum delta) _ _)

encrypt-long : (v : List ℕ) (n : ℕ) (key : List ℕ) → encrypt_long 32 v n key ≡ encrypt v n key
unfolding encrypt_long encrypt
encrypt-long v n key = encrypt_rounds-long key n (6 + 52 / n) 0 _ v

decrypt-long : (v : List ℕ) (n : ℕ) (key : List ℕ) → decrypt_long 32 v n key ≡ decrypt v n key
unfolding decrypt_long decrypt
decrypt-long v n key = decrypt_rounds-long key n (6 + 52 / n) _ _ v

-- Where `unsigned long` has 32 bits, as on the boards, the device and the server read each other: on a block of
-- at least two words, each one's decryption undoes the other one's encryption, under any key.
pub device_reads_server :
    (key : List ℕ) {n : ℕ}
    → 2 ≤ n
    → (v : List ℕ) → IsBlock n v
    → (decrypt_long 32 (encrypt v n key) n key ≡ v) × (decrypt (encrypt_long 32 v n key) n key ≡ v)
device_reads_server key {n} two v b = (
  decrypt-long _ n key ∙ decrypt-encrypt key two v b,
  ap (λ u. decrypt u n key) (encrypt-long v n key) ∙ decrypt-encrypt key two v b,
)
