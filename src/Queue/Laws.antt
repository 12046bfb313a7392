-- ===== src/Queue/Laws.antt =====
-- What the queue's operations do to the stored items.
use mathlib.Core.List.{Perm}
use mathlib.Core.List.Perm
use mathlib.Core.Path.{subst}
use mathlib.Core.Option.{some-injective}
use mundosvirtuales_terremot.Base.{
  ◌≡◌, ◌≢◌, refl, ap, ◌⊎◌, inl, inr, Bool, true, false, List, [], ◌∷◌, ◌++◌, Option, none, some,
  All, Bool-cases,
}
use mundosvirtuales_terremot.Queue.{add, pop_back, remove, erase_first, remove_item}

module _ {ℓ} {A : Type ℓ} where
  pop_back-append : (x : A) (xs : List A) (y : A) → pop_back x (xs ++ y ∷ []) ≡ (y, x ∷ xs)
  unfolding pop_back
  pop_back-append x [] y = refl
  pop_back-append x (z ∷ xs) y = rw (pop_back-append z xs y)

  -- The queue is last in, first out: `remove` hands back the item that was added last, and leaves
  -- the queue as it was before.
  pub remove-add : (q : List A) (item : A) → remove (add q item) ≡ some (item, q)
  unfolding remove add
  remove-add [] item = refl
  remove-add (x ∷ q) item = ap some (pop_back-append x q item)

  pub add-ne-nil : (q : List A) (item : A) → add q item ≢ []
  unfolding add
  add-ne-nil [] item e = cc
  add-ne-nil (x ∷ q) item e = cc

  -- What a search for an item yields: nothing, and no element fits, or the first element that fits
  -- together with the elements before and after it.
  pub data Search (equals : A → Bool) (q : List A) : Option A × List A → Type ℓ where
    missing : All (λ x. equals x ≡ false) q → Search equals q (none, q)
    hit :
        (before after : List A) (x : A)
        → q ≡ before ++ x ∷ after
        → All (λ y. equals y ≡ false) before
        → equals x ≡ true
        → Search equals q (some x, before ++ after)

  Search-cons :
      {equals : A → Bool} {q : List A} {r : Option A × List A} (y : A)
      → equals y ≡ false
      → Search equals q r
      → Search equals (y ∷ q) (r.0, y ∷ r.1)
  Search-cons y h (missing all) = missing (h, all)
  Search-cons y h (hit before after x e all fits) =
      hit (y ∷ before) after x (ap (◌∷◌ y) e) (h, all) fits

  erase_first-Search : (equals : A → Bool) (q : List A) → Search equals q (erase_first equals q)
  unfolding erase_first
  erase_first-Search equals [] = missing tt
  erase_first-Search equals (y ∷ q) = elim (Bool-cases (equals y)) [
    | inl fits ↦ rw fits (hit [] q y refl tt fits)
    | inr differs ↦ rw differs (Search-cons y differs (erase_first-Search equals q))
  ]

  -- `remove(item)` waits exactly on the empty queue. On any other it takes out the first element
  -- equal to the item, with all others kept in their order, or it finds none and changes nothing.
  pub remove_item-Search :
      (equals : A → Bool) (q : List A)
      → ((q ≡ []) × (remove_item equals q ≡ none))
        ⊎ ((r : Option A × List A) × (remove_item equals q ≡ some r) × Search equals q r)
  unfolding remove_item
  remove_item-Search equals [] = inl (refl, refl)
  remove_item-Search equals (x ∷ q) = inr (_, refl, erase_first-Search equals (x ∷ q))

  pop_back-perm : (x : A) (xs : List A) → Perm ((pop_back x xs).0 ∷ (pop_back x xs).1) (x ∷ xs)
  unfolding pop_back
  pop_back-perm x [] = Perm.refl _
  pop_back-perm x (y ∷ xs) = Perm.trans (Perm.swap _ _ _) (Perm.cons x (pop_back-perm y xs))

  -- The element that `remove` returns and the queue that it leaves are together what was stored.
  pub remove-perm :
      (q rest : List A) (item : A) → remove q ≡ some (item, rest) → Perm (item ∷ rest) q
  unfolding remove
  remove-perm [] rest item e = cc
  remove-perm (x ∷ q) rest item e =
      subst (λ r. Perm (r.0 ∷ r.1) (x ∷ q)) (some-injective _ _ e) (pop_back-perm x q)
