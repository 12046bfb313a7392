-- ===== src/Queue/Unordered.antt =====
-- src/utils/Queue.h, as its users see it that do not look at the order: a bag of items. A run is a sequence of calls of
-- any threads, in the order in which they get the mutex.
use mathlib.Core.Option.{some-injective}
use mathlib.Core.List.{perm_append_singleton, perm_middle}
use mathlib.Core.List.Perm
use mundosvirtuales_terremot.Base.{
  ◌≡◌, refl, sym, ap, subst, ◌∙◌, inl, inr, Bool, true, false, List, [], ◌∷◌, ◌++◌, Option, none,
  some, Option-cases, All,
}
use mundosvirtuales_terremot.Base.Bag.{Bag, bag, bag-perm, insert, any, contains}
use mundosvirtuales_terremot.Queue.{add, remove, remove_item}
use mundosvirtuales_terremot.Queue.Laws.{remove-perm, Search, missing, hit, remove_item-Search}

pub data Access {ℓ} (A : Type ℓ) : Type ℓ where
  adding : A → Access A
  removing : Access A
  removing_item : A → Access A

abbrev pub is_removal {ℓ} : {A : Type ℓ} → Access A → Bool
is_removal (adding x) = false
is_removal removing = true
is_removal (removing_item x) = true

module _ {ℓ} {A : Type ℓ} (equals : A → A → Bool) where
  -- A call: what it returns and the queue; `none` waits.
  unfoldable pub access : Access A → List A → Option (Option A × List A)
  unfolding add remove remove_item
  access (adding x) q = some (none, add q x)
  access removing q = elim (remove q) [ none ↦ none | some (x, rest) ↦ some (some x, rest) ]
  access (removing_item x) q = remove_item (λ y. equals y x) q

  -- The calls up to the end, or up to one that waits: the results and the queue.
  unfoldable pub accesses : List (Access A) → List A → List (Option A) × List A
  unfolding access
  accesses [] q = ([], q)
  accesses (c ∷ cs) q = elim (access c q) [
    | none ↦ ([], q)
    | some (out, rest) ↦ let (outs, last) = accesses cs rest in (out ∷ outs, last)
  ]

  -- The calls on a bag.
  pub data Moves : Access A → Option A → Bag A → Bag A → Type ℓ where
    puts : (x : A) (b : Bag A) → Moves (adding x) none b (insert x b)
    takes : (x : A) (b : Bag A) → Moves removing (some x) (insert x b) b
    finds :
        (x y : A) (b : Bag A) → equals y x ≡ true → Moves (removing_item x) (some y) (insert y b) b
    misses :
        (x : A) (b : Bag A)
        → contains (λ y. equals y x) b ≡ false
        → Moves (removing_item x) none b b

  none-any : (fits : A → Bool) (q : List A) → All (λ y. fits y ≡ false) q → any fits q ≡ false
  none-any fits [] h = refl
  none-any fits (y ∷ q) (e, h) = rw (e, none-any fits q h) refl

  Search-Moves :
      (x : A) (q : List A) (r : Option A × List A)
      → Search (λ y. equals y x) q r
      → Moves (removing_item x) r.0 (bag q) (bag r.1)
  unfolding insert contains
  Search-Moves x q r (missing all) = misses x (bag q) (none-any (λ y. equals y x) q all)
  Search-Moves x q r (hit before after y e all fits) =
      subst (λ b. Moves (removing_item x) (some y) b (bag (before ++ after)))
        (bag-perm (Perm.symm (perm_middle before after)) ∙ ap bag (sym e))
        (finds x y (bag (before ++ after)) fits)

  access-Moves :
      (c : Access A) (q rest : List A) (out : Option A)
      → access c q ≡ some (out, rest)
      → Moves c out (bag q) (bag rest)
  unfolding access insert
  access-Moves (adding x) q rest out e =
      subst (λ r. Moves (adding x) r.0 (bag q) (bag r.1)) (some-injective _ _ e)
        (subst (Moves (adding x) none (bag q)) (sym (bag-perm (perm_append_singleton x q)))
          (puts x (bag q)))
  access-Moves removing q rest out e = elim (Option-cases (remove q)) [
    | inl n ↦ cc (rw (n, access) at e)
    | inr ((x, left), m) ↦
        subst (λ r. Moves removing r.0 (bag q) (bag r.1)) (some-injective _ _ (rw (m, access) at e))
          (subst (λ b. Moves removing (some x) b (bag left)) (bag-perm (remove-perm q left x m))
            (takes x (bag left)))
  ]
  access-Moves (removing_item x) q rest out e = elim (remove_item-Search (λ y. equals y x) q) [
    | inl (_, n) ↦ cc (rw (n, access) at e)
    | inr (r, m, found) ↦
        subst (λ s. Moves (removing_item x) s.0 (bag q) (bag s.1)) (some-injective _ _ (sym m ∙ e))
          (Search-Moves x q r found)
  ]

  -- Only a removal waits, and only on the empty queue.
  access-waits : (c : Access A) (q : List A) → access c q ≡ none → (is_removal c ≡ true) × (q ≡ [])
  unfolding access remove remove_item
  access-waits (adding x) q e = cc
  access-waits removing [] e = (refl, refl)
  access-waits removing (y ∷ q) e = cc
  access-waits (removing_item x) [] e = (refl, refl)
  access-waits (removing_item x) (y ∷ q) e = cc

  -- The calls on a bag, one after the other, to the end or to a removal that waits on the empty bag.
  pub data Follows : List (Access A) → List (Option A) → Bag A → Bag A → Type ℓ where
    ends : (b : Bag A) → Follows [] [] b b
    waits :
        (c : Access A) (cs : List (Access A))
        → is_removal c ≡ true
        → Follows (c ∷ cs) [] (bag []) (bag [])
    then :
        (c : Access A) (cs : List (Access A)) (out : Option A) (outs : List (Option A))
        (b d e : Bag A)
        → Moves c out b d
        → Follows cs outs d e
        → Follows (c ∷ cs) (out ∷ outs) b e

  -- The queue refines the bag. Whatever the calls are, and whatever is stored before them, their results and
  -- the queue that they leave are, up to the order of the items, those of a bag into which `add` puts an item, from
  -- which `remove()` takes some item, and `remove(item)` an equal item, or none if the bag contains no
  -- equal item; the first call that does not return is a removal on the empty bag.
  pub accesses-Follows :
      (cs : List (Access A)) (q : List A)
      → let (outs, last) = accesses cs q in Follows cs outs (bag q) (bag last)
  unfolding accesses
  accesses-Follows [] q = ends (bag q)
  accesses-Follows (c ∷ cs) q = elim (Option-cases (access c q)) [
    | inl n ↦
        let (removal, empty) = access-waits c q n in
        rw (n, accesses)
          (subst (λ b. Follows (c ∷ cs) [] b b) (ap bag (sym empty)) (waits c cs removal))
    | inr ((out, rest), m) ↦
        rw (m, accesses)
          (then c cs out _ (bag q) (bag rest) _ (access-Moves c q rest out m)
            (accesses-Follows cs rest))
  ]
