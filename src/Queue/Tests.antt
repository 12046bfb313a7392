-- ===== src/Queue/Tests.antt =====
-- Runs of the queue.

use mundosvirtuales_terremot.Base.{none, ℕ, Bool, ◌≡◌, refl, List, [], ◌∷◌, some, ◌==◌}
use mundosvirtuales_terremot.Queue.{remove}
use mundosvirtuales_terremot.Base.Bag.{bag}
use mundosvirtuales_terremot.Queue.Unordered.{
  Access, adding, removing, removing_item, accesses, Follows, accesses-Follows,
}

abbrev items : List ℕ
items = 4 ∷ 5 ∷ 4 ∷ []

abbrev is_five : ℕ → Bool
is_five x = x == 5

removed : remove items ≡ some (4, 4 ∷ 5 ∷ [])
unfolding remove
removed = refl

abbrev some_calls : List (Access ℕ)
some_calls =
    removing_item 5 ∷ adding 7 ∷ removing ∷ removing_item 9 ∷ removing ∷ removing ∷ removing ∷ []

-- The last call waits.
outcome :
    accesses ◌==◌ some_calls items ≡ (some 5 ∷ none ∷ some 7 ∷ none ∷ some 4 ∷ some 4 ∷ [], [])
unfolding accesses
outcome = refl

accesses-Follows_example :
    let (outs, last) = accesses ◌==◌ some_calls items in
    Follows ◌==◌ some_calls outs (bag items) (bag last)
accesses-Follows_example = accesses-Follows ◌==◌ some_calls items
