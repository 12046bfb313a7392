-- ===== src/Base/Bag.antt =====
-- Lists up to the order of their elements.
use mathlib.Core.Path.{◌≡◌, refl}
use mathlib.Core.Quot
use mathlib.Core.Quot.{Quot, Quot-set}
use mathlib.Core.List.{List, ◌∷◌, foldr, Perm}
use mathlib.Core.List.Perm
use mathlib.Core.Bool.{Bool, Bool-set, true, false, ◌||◌}

abbrev pub Bag {ℓ} : Type ℓ → Type ℓ
Bag A = Quot (Perm {A = A})

pub or_swap : (a b c : Bool) → (a || (b || c)) ≡ (b || (a || c))
or_swap true true c = refl
or_swap true false c = refl
or_swap false b c = refl

module _ {ℓ} {A : Type ℓ} where
  abbrev pub bag : List A → Bag A
  bag = Quot.mk

  pub bag-perm : {xs ys : List A} → Perm xs ys → bag xs ≡ bag ys
  bag-perm p = Quot.sound p

  unfoldable pub insert : A → Bag A → Bag A
  insert x = Quot.lift Quot-set (λ xs. bag (x ∷ xs)) λ xs ys p. Quot.sound (Perm.cons x p)

  pub insert-bag : (x : A) (xs : List A) → insert x (bag xs) ≡ bag (x ∷ xs)
  unfolding insert
  insert-bag x xs = refl

  -- Whether some item fits.
  abbrev pub any : (A → Bool) → List A → Bool
  any fits = foldr (λ x b. fits x || b) false

  unfoldable pub contains : (A → Bool) → Bag A → Bool
  contains fits = Quot.lift Bool-set (any fits) λ xs ys p.
      Perm.foldr-eq Bool-set (λ x b. fits x || b) (λ a b c. or_swap (fits a) (fits b) c) p false
