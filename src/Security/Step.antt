-- ===== src/Security/Step.antt =====
-- One word of the cipher: the update of `v[p]` in terms of its neighbours in the ring of indices.
use mundosvirtuales_terremot.Base.{
  ℕ, suc, ◌+◌, ◌-◌, ◌^◌, ◌≤◌, ◌<◌, ◌≡◌, ap, ap₂, ◌∙◌, List, arith, ◌==◌, if◌then◌else◌, length,
  get_or, set, length-set, get_or-set_self, get_or-set_ne, set-set, set-get_or, get_or-set_cases,
}
use mundosvirtuales_terremot.Security.{mx, add_word, sub_word, select}

-- An array of `n` words of 32 bits.
pub record IsBlock (n : ℕ) (v : List ℕ) : Type 0 where
  pub size : length v ≡ n
  pub word : (i : ℕ) → get_or v i 0 < 2 ^ 32

abbrev pub before : ℕ → ℕ → ℕ
before n p = if p == 0 then n - 1 else p - 1

abbrev pub after : ℕ → ℕ → ℕ
after n p = if p == n - 1 then 0 else p + 1

pub before-suc : (n p : ℕ) → before n (suc p) ≡ p
before-suc n p = ground arith

pub after-lt : (n p : ℕ) → p < n - 1 → after n p ≡ suc p
after-lt n p h = ground arith

pub after_last : (n : ℕ) → after n (n - 1) ≡ 0
after_last n = ground arith

module _ (key : List ℕ) (n sum : ℕ) where
  -- The value of MX at `p`, with both neighbours read from the array.
  abbrev pub mix : ℕ → List ℕ → ℕ
  mix p v = mx key sum (select sum) p (get_or v (after n p) 0) (get_or v (before n p) 0)

  unfoldable pub forward : ℕ → List ℕ → List ℕ
  forward p v = set v p (add_word (get_or v p 0) (mix p v))

  unfoldable pub backward : ℕ → List ℕ → List ℕ
  backward p v = set v p (sub_word (get_or v p 0) (mix p v))

pub mx-lt : (key : List ℕ) (sum e p y z : ℕ) → mx key sum e p y z < 2 ^ 32
unfolding mx
mx-lt key sum e p y z = omega arith

pub set-IsBlock : {n : ℕ} {v : List ℕ} (p w : ℕ) → w < 2 ^ 32 → IsBlock n v → IsBlock n (set v p w)
set-IsBlock {n} {v} p w h b = record {
  size = length-set v p w ∙ b.size;
  word = λ i. omega (arith, get_or-set_cases v p i w 0, b.word i);
}

module _ (key : List ℕ) (n sum : ℕ) where
  -- The updates as the loops make them, with the neighbours in `y` and `z`.
  pub forward-eq :
      (p y z : ℕ) (v : List ℕ)
      → y ≡ get_or v (after n p) 0
      → z ≡ get_or v (before n p) 0
      → set v p (add_word (get_or v p 0) (mx key sum (select sum) p y z)) ≡ forward key n sum p v
  unfolding forward
  forward-eq p y z v hy hz = rw (hy, hz)

  pub backward-eq :
      (p y z : ℕ) (v : List ℕ)
      → y ≡ get_or v (after n p) 0
      → z ≡ get_or v (before n p) 0
      → set v p (sub_word (get_or v p 0) (mx key sum (select sum) p y z)) ≡ backward key n sum p v
  unfolding backward
  backward-eq p y z v hy hz = rw (hy, hz)

  pub forward-IsBlock : (p : ℕ) (v : List ℕ) → IsBlock n v → IsBlock n (forward key n sum p v)
  unfolding forward
  forward-IsBlock p v b = set-IsBlock p _ (omega arith) b

  pub backward-IsBlock : (p : ℕ) (v : List ℕ) → IsBlock n v → IsBlock n (backward key n sum p v)
  unfolding backward
  backward-IsBlock p v b = set-IsBlock p _ (omega arith) b

sub-add_word : (w m : ℕ) → w < 2 ^ 32 → m < 2 ^ 32 → sub_word (add_word w m) m ≡ w
sub-add_word w m h k = omega arith

add-sub_word : (w m : ℕ) → w < 2 ^ 32 → m < 2 ^ 32 → add_word (sub_word w m) m ≡ w
add-sub_word w m h k = omega arith

module _ (key : List ℕ) {n : ℕ} (sum : ℕ) (two : 2 ≤ n) where
  -- A write at `p` leaves both neighbours, and so MX at `p`, as they were.
  mix-set : (p w : ℕ) (v : List ℕ) → mix key n sum p (set v p w) ≡ mix key n sum p v
  mix-set p w v =
      ap₂ (mx key sum (select sum) p) (get_or-set_ne v p (after n p) w 0 (ground arith))
        (get_or-set_ne v p (before n p) w 0 (ground arith))

  pub backward-forward :
      (p : ℕ) (v : List ℕ) → IsBlock n v → p < n → backward key n sum p (forward key n sum p v) ≡ v
  unfolding forward backward
  backward-forward p v b h =
      rw (mix-set p _ v, get_or-set_self v p _ 0 (omega (arith, b.size)), set-set v p)
        (ap (set v p) (sub-add_word _ _ (b.word p) (mx-lt _ _ _ _ _ _)) ∙ set-get_or v p 0)

  pub forward-backward :
      (p : ℕ) (v : List ℕ) → IsBlock n v → p < n → forward key n sum p (backward key n sum p v) ≡ v
  unfolding forward backward
  forward-backward p v b h =
      rw (mix-set p _ v, get_or-set_self v p _ 0 (omega (arith, b.size)), set-set v p)
        (ap (set v p) (add-sub_word _ _ (b.word p) (mx-lt _ _ _ _ _ _)) ∙ set-get_or v p 0)
