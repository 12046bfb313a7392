-- ===== src/Security/Sweep.antt =====
-- A pass of the cipher as a sequence of word updates, upwards to encrypt and downwards to decrypt.
use mundosvirtuales_terremot.Base.{
  ℕ, zero, suc, ◌+◌, ◌-◌, ◌≤◌, ◌≡◌, refl, List, arith, get_or, set, get_or-set_self, ap, ap₂, ◌∙◌,
  sym,
}
use native.Mathlib.Numerals.{add-one}
use mundosvirtuales_terremot.Security.{
  mx, add_word, sub_word, select, encrypt_words, encrypt_round, decrypt_words, decrypt_round,
}
use mundosvirtuales_terremot.Security.Step.{
  set-IsBlock, before-suc, after-lt, after_last, forward-eq, backward-eq, IsBlock, before, after,
  forward, backward, forward-IsBlock, backward-IsBlock, backward-forward, forward-backward,
}

module _ (key : List ℕ) (n sum : ℕ) where
  -- The first `k` words updated in order, and undone in the reverse order.
  pub up : ℕ → List ℕ → List ℕ
  up zero v = v
  up (suc p) v = forward key n sum p (up p v)

  pub down : ℕ → List ℕ → List ℕ
  down zero v = v
  down (suc p) v = down p (backward key n sum p v)

  pub up-IsBlock : (k : ℕ) (v : List ℕ) → IsBlock n v → IsBlock n (up k v)
  unfolding up
  up-IsBlock zero v b = b
  up-IsBlock (suc p) v b = forward-IsBlock key n sum p (up p v) (up-IsBlock p v b)

  pub down-IsBlock : (k : ℕ) (v : List ℕ) → IsBlock n v → IsBlock n (down k v)
  unfolding down
  down-IsBlock zero v b = b
  down-IsBlock (suc p) v b = down-IsBlock p _ (backward-IsBlock key n sum p v b)

module _ (key : List ℕ) {n : ℕ} (sum : ℕ) (two : 2 ≤ n) where
  pub down-up : (k : ℕ) (v : List ℕ) → k ≤ n → IsBlock n v → down key n sum k (up key n sum k v) ≡ v
  unfolding up down
  down-up zero v h b = refl
  down-up (suc p) v h b =
      ap (down key n sum p) (backward-forward key sum two p _ (up-IsBlock key n sum p v b) h)
      ∙ down-up p v (omega arith) b

  pub up-down : (k : ℕ) (v : List ℕ) → k ≤ n → IsBlock n v → up key n sum k (down key n sum k v) ≡ v
  unfolding up down
  up-down zero v h b = refl
  up-down (suc p) v h b =
      ap (forward key n sum p) (up-down p _ (omega arith) (backward-IsBlock key n sum p v b))
      ∙ forward-backward key sum two p v b h

  -- The loop of `encrypt` from `p` on, when the first `p` words are done and `z` is the last of them.
  encrypt_words-up :
      (left p z : ℕ) (v : List ℕ)
      → p + left ≡ n - 1
      → IsBlock n v
      → z ≡ get_or (up key n sum p v) (before n p) 0
      → encrypt_words key sum left p z (up key n sum p v)
        ≡ (up key n sum (n - 1) v, get_or (up key n sum (n - 1) v) (before n (n - 1)) 0)
  unfolding encrypt_words up
  encrypt_words-up zero p z v e b hz = let q : p ≡ n - 1 = omega arith in rw hz (rw q)
  encrypt_words-up (suc left) p z v e b hz = rw add-one (
      ap (encrypt_words key sum left (suc p) w) stored
      ∙ encrypt_words-up left (suc p) w v (omega arith) b last)
    where
      u : List ℕ
      u = up key n sum p v

      w : ℕ
      w = add_word (get_or u p 0) (mx key sum (select sum) p (get_or u (suc p) 0) z)

      stored : set u p w ≡ forward key n sum p u
      stored =
          forward-eq key n sum p _ z u (ap (λ i. get_or u i 0) (sym (after-lt n p (omega arith))))
            hz

      last : w ≡ get_or (up key n sum (suc p) v) (before n (suc p)) 0
      last = rw (before-suc n p) (
          sym (get_or-set_self u p w 0 (omega (arith, (up-IsBlock key n sum p v b).size)))
          ∙ ap (λ t. get_or t p 0) stored)

  pub encrypt_round-up :
      (z : ℕ) (v : List ℕ)
      → IsBlock n v
      → z ≡ get_or v (n - 1) 0
      → encrypt_round key n sum z v ≡ (up key n sum n v, get_or (up key n sum n v) (n - 1) 0)
  unfolding encrypt_round up
  encrypt_round-up z v b hz = rw (encrypt_words-up (n - 1) 0 z v (omega arith) b hz) (
      ap₂ (λ a c. (a, c)) whole
        (sym
            (get_or-set_self u (n - 1) w 0 (omega (arith, (up-IsBlock key n sum (n - 1) v b).size)))
          ∙ ap (λ t. get_or t (n - 1) 0) whole))
    where
      u : List ℕ
      u = up key n sum (n - 1) v

      w : ℕ
      w =
          add_word (get_or u (n - 1) 0)
            (mx key sum (select sum) (n - 1) (get_or u 0 0) (get_or u (before n (n - 1)) 0))

      n_suc : suc (n - 1) ≡ n
      n_suc = omega arith

      whole : set u (n - 1) w ≡ up key n sum n v
      whole =
          forward-eq key n sum (n - 1) _ _ u (ap (λ i. get_or u i 0) (sym (after_last n))) refl
          ∙ ap (λ k. up key n sum k v) n_suc

  decrypt_words-down :
      (p y : ℕ) (v : List ℕ)
      → p ≤ n - 1
      → IsBlock n v
      → y ≡ get_or v (after n p) 0
      → let (v', y') = decrypt_words key sum p y v in
        (down key n sum (suc p) v ≡ backward key n sum 0 v') × (y' ≡ get_or v' 1 0) × IsBlock n v'
  unfolding decrypt_words down
  decrypt_words-down zero y v h b hy =
      (refl, hy ∙ ap (λ i. get_or v i 0) (after-lt n 0 (omega arith)), b)
  decrypt_words-down (suc p) y v h b hy =
      let ih = decrypt_words-down p w (set v (suc p) w) (omega arith) block next in
      (ap (down key n sum (suc p)) (sym stored) ∙ ih.0, ih.1, ih.2)
    where
      w : ℕ
      w = sub_word (get_or v (suc p) 0) (mx key sum (select sum) (suc p) y (get_or v p 0))

      stored : set v (suc p) w ≡ backward key n sum (suc p) v
      stored =
          backward-eq key n sum (suc p) y _ v hy (ap (λ i. get_or v i 0) (sym (before-suc n p)))

      block : IsBlock n (set v (suc p) w)
      block = set-IsBlock (suc p) w (omega arith) b

      next : w ≡ get_or (set v (suc p) w) (after n p) 0
      next = rw (after-lt n p h) (sym (get_or-set_self v (suc p) w 0 (omega (arith, b.size))))

  pub decrypt_round-down :
      (y : ℕ) (v : List ℕ)
      → IsBlock n v
      → y ≡ get_or v 0 0
      → decrypt_round key n sum y v ≡ (down key n sum n v, get_or (down key n sum n v) 0 0)
  unfolding decrypt_round down
  decrypt_round-down y v b hy =
      ap₂ (λ a c. (a, c)) whole
        (sym (get_or-set_self u 0 w 0 (omega (arith, loop.2.size))) ∙ ap (λ t. get_or t 0 0) whole)
    where
      u : List ℕ
      u = (decrypt_words key sum (n - 1) y v).0

      w : ℕ
      w =
          sub_word (get_or u 0 0)
            (mx key sum (select sum) 0 (decrypt_words key sum (n - 1) y v).1 (get_or u (n - 1) 0))

      loop :
          (down key n sum (suc (n - 1)) v ≡ backward key n sum 0 u)
          × ((decrypt_words key sum (n - 1) y v).1 ≡ get_or u 1 0)
          × IsBlock n u
      loop =
          decrypt_words-down (n - 1) y v (omega arith) b
            (hy ∙ ap (λ i. get_or v i 0) (sym (after_last n)))

      n_suc : suc (n - 1) ≡ n
      n_suc = omega arith

      whole : set u 0 w ≡ down key n sum n v
      whole =
          backward-eq key n sum 0 _ _ u
            (loop.1 ∙ ap (λ i. get_or u i 0) (sym (after-lt n 0 (omega arith)))) refl
          ∙ sym loop.0
          ∙ ap (λ k. down key n sum k v) n_suc
