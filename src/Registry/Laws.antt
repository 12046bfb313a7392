-- ===== src/Registry/Laws.antt =====
-- The choice of a new identification, and what a restart makes of the file.
use mundosvirtuales_terremot.Base.{
  ℕ, zero, suc, ◌+◌, ◌≤◌, ◌<◌, ◌≡◌, refl, sym, ap, ◌∙◌, inl, inr, Bool, true, false, List, [], ◌∷◌,
  ◌++◌, map, Option, none, some, arith, Bool-cases, if◌then◌else◌, length, get_or, ltb, ◌==◌,
  ==_iff,
}
use mundosvirtuales_terremot.Base.Int.{ℤ, pos, negsuc}
use mundosvirtuales_terremot.Server.{◌==ℤ◌}
use mundosvirtuales_terremot.Registry.{
  RemoteClientData, PairClientData, new_pair, unbound, shift, load, has_id, search_id,
  get_new_remote_id, find_register,
}

-- The registers with an identification above `n`.
abbrev above : ℕ → List PairClientData → ℕ
above n [] = 0
above n (r ∷ rs) = (if exceeds r.info.remote_id then 1 else 0) + above n rs
  where
    exceeds : ℤ → Bool
    exceeds (pos i) = ltb n i
    exceeds (negsuc i) = false

above-suc : (n : ℕ) (rs : List PairClientData) → above (n + 1) rs ≤ above n rs
above-suc n [] = omega arith
above-suc n (r ∷ rs) = ground (arith, above-suc n rs)

above-has_id :
    (n : ℕ) (rs : List PairClientData) → has_id rs (n + 1) ≡ true → above (n + 1) rs < above n rs
unfolding has_id
above-has_id n [] h = cc
above-has_id n (r ∷ rs) h = ground (arith, above-suc n rs, above-has_id n rs)

above-length : (n : ℕ) (rs : List PairClientData) → above n rs ≤ length rs
above-length n [] = omega arith
above-length n (r ∷ rs) = ground (arith, above-length n rs)

search_id_free :
    (fuel : ℕ) (rs : List PairClientData) (id : ℕ)
    → above id rs < fuel
    → let found = search_id fuel rs id in
      (has_id rs found ≡ false)
      × (id < found)
      × (found ≤ id + fuel)
      × ((j : ℕ) → id < j → j < found → has_id rs j ≡ true)
unfolding search_id
search_id_free zero rs id h = absurd (omega arith)
search_id_free (suc fuel) rs id h = elim (Bool-cases (has_id rs (id + 1))) [
  | inl used ↦
      let ih = search_id_free fuel rs (id + 1) (omega (arith, above-has_id id rs used)) in
      rw used
        (ih.0, omega (arith, ih.1), omega (arith, ih.2), λ j lo hi. below j lo hi used (ih.3 j))
  | inr free ↦ rw free (free, omega arith, omega arith, λ j lo hi. absurd (omega arith))
]
  where
    below :
        (j : ℕ)
        → id < j
        → j < search_id fuel rs (id + 1)
        → has_id rs (id + 1) ≡ true
        → (id + 1 < j → j < search_id fuel rs (id + 1) → has_id rs j ≡ true)
        → has_id rs j ≡ true
    below j lo hi used later = elim (Bool-cases (id + 1 == j)) [
      | inl e ↦ ap (has_id rs) (sym ((==_iff (id + 1) j).0 e)) ∙ used
      | inr e ↦ later (ground arith) hi
    ]

get_new_remote_id_cases :
    (rs : List PairClientData)
    → let id = get_new_remote_id rs in
      (has_id rs id ≡ false)
      × (0 < id)
      × (id ≤ length rs + 2)
      × ((j : ℕ) → 1 < j → j < id → has_id rs j ≡ true)
unfolding get_new_remote_id has_id
get_new_remote_id_cases [] = (refl, omega arith, omega arith, λ j lo hi. absurd (omega arith))
get_new_remote_id_cases (r ∷ rs) =
    let (free, lo, hi, least) =
      search_id_free (length (r ∷ rs) + 1) (r ∷ rs) 1 (omega (arith, above-length 1 (r ∷ rs))) in
    (free, omega (arith, lo), omega (arith, hi), least)

-- `getNewRemoteID` ends within its rounds with a positive identification that no register holds, and
-- that is at most the number of registers plus 2.
pub get_new_remote_id_free :
    (rs : List PairClientData)
    → let id = get_new_remote_id rs in (has_id rs id ≡ false) × (0 < id) × (id ≤ length rs + 2)
get_new_remote_id_free rs = let (free, lo, hi, _) = get_new_remote_id_cases rs in (free, lo, hi)

-- Every identification from 2 to below the one that `getNewRemoteID` returns is in use.
pub get_new_remote_id_least :
    (rs : List PairClientData) (j : ℕ) → 1 < j → j < get_new_remote_id rs → has_id rs j ≡ true
get_new_remote_id_least rs j lo hi = (get_new_remote_id_cases rs).3 j lo hi

-- Loading a file gives a register for each record, without a client, and one more at the end that
-- is all zeros: the loop pushes the register of the read that met the end of the file.
pub load_extra_register :
    (records : List RemoteClientData) → load (some records) ≡ map unbound records ++ new_pair ∷ []
unfolding load
load_extra_register [] = refl
load_extra_register (r ∷ rs) = ap (◌∷◌ (unbound r)) (load_extra_register rs)

==ℤ-eq : (a b : ℤ) → (a ==ℤ b) ≡ true → a ≡ b
==ℤ-eq a b h = ground arith

shift-eq : (o : Option ℕ) (k : ℕ) → shift o ≡ some (suc k) → o ≡ some k
shift-eq none k h = cc
shift-eq (some i) k h = cc

-- A place that the lookup of a device yields is in the list and holds a register of the device.
pub find_register_holds :
    (id : ℤ) (rs : List PairClientData) (i : ℕ)
    → find_register id rs ≡ some i
    → (i < length rs) × ((get_or rs i new_pair).info.remote_id ≡ id)
unfolding find_register
find_register_holds id [] i h = cc
find_register_holds id (r ∷ rs) zero h = elim (Bool-cases (id ==ℤ r.info.remote_id)) [
  | inl e ↦ (omega arith, sym (==ℤ-eq _ _ e))
  | inr e ↦ ground arith
]
find_register_holds id (r ∷ rs) (suc k) h = elim (Bool-cases (id ==ℤ r.info.remote_id)) [
  | inl e ↦ ground arith
  | inr e ↦
      let ih = find_register_holds id rs k (shift-eq _ k (ground arith)) in
      (omega (arith, ih.0), ih.1)
]

-- A lookup that yields no place means that no register is the device's.
pub find_register-none :
    (id : ℕ) (rs : List PairClientData) → has_id rs id ≡ false → find_register (pos id) rs ≡ none
unfolding find_register has_id
find_register-none id [] h = refl
find_register-none id (r ∷ rs) h = ground (arith, find_register-none id rs)
