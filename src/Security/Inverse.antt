-- ===== src/Security/Inverse.antt =====
-- Decryption undoes encryption, and encryption undoes decryption, on every block of two words or more.
use mundosvirtuales_terremot.Base.{
  ℕ, zero, suc, ◌+◌, ◌-◌, ◌*◌, ◌/◌, ◌%◌, ◌^◌, ◌≤◌, ◌≡◌, refl, List, arith, get_or, ap, ◌∙◌,
}
use native.Mathlib.Nat.{le_refl}
use mundosvirtuales_terremot.Security.{
  delta, add_word, sub_word, encrypt_rounds, encrypt, decrypt_rounds, decrypt,
}
use mundosvirtuales_terremot.Security.Step.{IsBlock}
use mundosvirtuales_terremot.Security.Sweep.{
  up, down, up-IsBlock, down-IsBlock, down-up, up-down, encrypt_round-up, decrypt_round-down,
}

-- The sum after `k` rounds.
abbrev sum_at : ℕ → ℕ
sum_at k = k * delta % 2 ^ 32

sum_at-suc : (k : ℕ) → add_word (sum_at k) delta ≡ sum_at (suc k)
sum_at-suc k = omega arith

sum_at-pred : (k : ℕ) → sub_word (sum_at (suc k)) delta ≡ sum_at k
sum_at-pred k = omega arith

module _ (key : List ℕ) (n : ℕ) where
  -- Rounds `k+1 .. k+r` of the encryption, and rounds `k+r .. k+1` of the decryption.
  ups : ℕ → ℕ → List ℕ → List ℕ
  ups k zero v = v
  ups k (suc r) v = ups (suc k) r (up key n (sum_at (suc k)) n v)

  downs : ℕ → List ℕ → List ℕ
  downs zero v = v
  downs (suc k) v = downs k (down key n (sum_at (suc k)) n v)

  ups-IsBlock : (k r : ℕ) (v : List ℕ) → IsBlock n v → IsBlock n (ups k r v)
  unfolding ups
  ups-IsBlock k zero v b = b
  ups-IsBlock k (suc r) v b = ups-IsBlock (suc k) r _ (up-IsBlock key n _ n v b)

  downs-IsBlock : (k : ℕ) (v : List ℕ) → IsBlock n v → IsBlock n (downs k v)
  unfolding downs
  downs-IsBlock zero v b = b
  downs-IsBlock (suc k) v b = downs-IsBlock k _ (down-IsBlock key n _ n v b)

module _ (key : List ℕ) {n : ℕ} (two : 2 ≤ n) where
  encrypt_rounds-ups :
      (k r sum z : ℕ) (v : List ℕ)
      → sum ≡ sum_at k
      → IsBlock n v
      → z ≡ get_or v (n - 1) 0
      → encrypt_rounds key n r sum z v ≡ ups key n k r v
  unfolding encrypt_rounds ups
  encrypt_rounds-ups k zero sum z v hs b hz = refl
  encrypt_rounds-ups k (suc r) sum z v hs b hz =
      rw (hs, sum_at-suc k, encrypt_round-up key (sum_at (suc k)) two z v b hz)
        (encrypt_rounds-ups (suc k) r _ _ _ refl (up-IsBlock key n _ n v b) refl)

  decrypt_rounds-downs :
      (k sum y : ℕ) (v : List ℕ)
      → sum ≡ sum_at k
      → IsBlock n v
      → y ≡ get_or v 0 0
      → decrypt_rounds key n k sum y v ≡ downs key n k v
  unfolding decrypt_rounds downs
  decrypt_rounds-downs zero sum y v hs b hy = refl
  decrypt_rounds-downs (suc k) sum y v hs b hy =
      rw (hs, sum_at-pred k, decrypt_round-down key (sum_at (suc k)) two y v b hy)
        (decrypt_rounds-downs k _ _ _ refl (down-IsBlock key n _ n v b) refl)

  downs-ups :
      (k r j : ℕ) (v : List ℕ)
      → IsBlock n v
      → k + r ≡ j
      → downs key n j (ups key n k r v) ≡ downs key n k v
  unfolding ups downs
  downs-ups k zero j v b e = let q : j ≡ k = omega arith in rw q
  downs-ups k (suc r) j v b e =
      downs-ups (suc k) r j _ (up-IsBlock key n _ n v b) (omega arith)
      ∙ ap (downs key n k) (down-up key (sum_at (suc k)) two n v (le_refl n) b)

  ups-downs :
      (k r j : ℕ) (v : List ℕ)
      → IsBlock n v
      → k + r ≡ j
      → ups key n 0 j (downs key n k v) ≡ ups key n k r v
  unfolding ups downs
  ups-downs zero r j v b e = let q : j ≡ r = omega arith in rw q
  ups-downs (suc k) r j v b e =
      ups-downs k (suc r) j _ (down-IsBlock key n _ n v b) (omega arith)
      ∙ ap (ups key n (suc k) r) (up-down key (sum_at (suc k)) two n v (le_refl n) b)

  encrypt-ups : (v : List ℕ) → IsBlock n v → encrypt v n key ≡ ups key n 0 (6 + 52 / n) v
  unfolding encrypt
  encrypt-ups v b = encrypt_rounds-ups 0 (6 + 52 / n) 0 _ v (omega arith) b refl

  decrypt-downs : (v : List ℕ) → IsBlock n v → decrypt v n key ≡ downs key n (6 + 52 / n) v
  unfolding decrypt
  decrypt-downs v b = decrypt_rounds-downs (6 + 52 / n) _ _ v refl b refl

  pub encrypt-IsBlock : (v : List ℕ) → IsBlock n v → IsBlock n (encrypt v n key)
  encrypt-IsBlock v b = rw (encrypt-ups v b) (ups-IsBlock key n 0 _ v b)

  pub decrypt-IsBlock : (v : List ℕ) → IsBlock n v → IsBlock n (decrypt v n key)
  decrypt-IsBlock v b = rw (decrypt-downs v b) (downs-IsBlock key n _ v b)

  -- On a block of at least two 32-bit words, decryption with the same key and length undoes
  -- encryption, whatever the key.
  pub decrypt-encrypt : (v : List ℕ) → IsBlock n v → decrypt (encrypt v n key) n key ≡ v
  unfolding ups downs
  decrypt-encrypt v b =
      decrypt-downs _ (encrypt-IsBlock v b)
      ∙ ap (downs key n (6 + 52 / n)) (encrypt-ups v b)
      ∙ downs-ups 0 (6 + 52 / n) (6 + 52 / n) v b (omega arith)

  -- On a block of at least two 32-bit words, encryption with the same key and length undoes
  -- decryption, so that every block is the image of exactly one.
  pub encrypt-decrypt : (v : List ℕ) → IsBlock n v → encrypt (decrypt v n key) n key ≡ v
  unfolding ups downs
  encrypt-decrypt v b =
      encrypt-ups _ (decrypt-IsBlock v b)
      ∙ ap (ups key n 0 (6 + 52 / n)) (decrypt-downs v b)
      ∙ ups-downs (6 + 52 / n) 0 (6 + 52 / n) v b (omega arith)
