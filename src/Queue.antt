-- ===== src/Queue.antt =====
-- src/utils/Queue.h: the vector behind a mutex. Each member holds the mutex from its first line to its
-- last, or until it waits, so a call is one step on the list; `none` says that the call waits on
-- the condition variable, because the vector is empty.
pub mod Laws
pub mod Unordered
mod Tests
use mundosvirtuales_terremot.Base.{
  ℕ, Bool, List, [], ◌∷◌, ◌++◌, Option, none, some, if◌then◌else◌, length, get_elem?,
}

module _ {ℓ} {A : Type ℓ} where
  -- m_queue.push_back(item)
  unfoldable pub add : List A → A → List A
  add q item = q ++ item ∷ []

  -- m_queue.back() and m_queue.pop_back() of the vector with first element `x`.
  unfoldable pub pop_back : A → List A → A × List A
  pop_back x [] = (x, [])
  pop_back x (y ∷ rest) = let (last, front) = pop_back y rest in (last, x ∷ front)

  -- T remove()
  unfoldable pub remove : List A → Option (A × List A)
  unfolding pop_back
  remove [] = none
  remove (x ∷ rest) = some (pop_back x rest)

  -- std::find and m_queue.erase: the first element that `equals` accepts, and the others.
  unfoldable pub erase_first : (A → Bool) → List A → Option A × List A
  erase_first equals [] = (none, [])
  erase_first equals (x ∷ rest) =
      let (found, others) = erase_first equals rest in
      if equals x then (some x, rest) else (found, x ∷ others)

  -- std::shared_ptr<T> remove(T item); a null pointer is `none` inside.
  unfoldable pub remove_item : (A → Bool) → List A → Option (Option A × List A)
  unfolding erase_first
  remove_item equals [] = none
  remove_item equals (x ∷ rest) = some (erase_first equals (x ∷ rest))

  unfoldable pub size : List A → ℕ
  size q = length q

  -- `at` and `operator[]`; past the end the source is undefined.
  unfoldable pub at : List A → ℕ → Option A
  at q index = get_elem? q index
