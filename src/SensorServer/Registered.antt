-- ===== src/SensorServer/Registered.antt =====
-- No two registers hold the same identification, and the file follows the list of registers.
use mathlib.Core.List.{map-append}
use mundosvirtuales_terremot.Base.{
  ℕ, zero, suc, ◌+◌, ◌<◌, ◌^◌, ◌≡◌, refl, ap, ◌⊎◌, inl, inr, false, List, [], ◌∷◌, ◌++◌, Option,
  none, some, map, arith, length, get_or, set, All, Bool-cases,
}
use mundosvirtuales_terremot.Base.Int.{ℤ, pos, leb_ℤ}
use mundosvirtuales_terremot.Server.{◌==ℤ◌}
use mundosvirtuales_terremot.Registry.{RemoteClientData, PairClientData, new_pair, has_id}
use mundosvirtuales_terremot.Sensors.{get_next_local_id}
use mundosvirtuales_terremot.Handshake.{FloatOps, Exchange, Identity, identify}
use mundosvirtuales_terremot.Handshake.Laws.{Sound, fresh, known, identify-Sound}
use mundosvirtuales_terremot.SensorServer.Cases.{admit_cases, joined, add_client_cases}
use mundosvirtuales_terremot.SensorServer.{
  SensorServer, replace_client, register_client, add_client, add_client_over,
}

-- The register does not hold the identification.
abbrev pub Differs : ℤ → PairClientData → Type 0
Differs id r = (id ==ℤ r.info.remote_id) ≡ false

-- All identifications in the list are different.
abbrev pub Distinct : List PairClientData → Type 0
Distinct [] = Unit
Distinct (r ∷ rs) = All (Differs r.info.remote_id) rs × Distinct rs

Differs-set :
    (id : ℤ) (rs : List PairClientData) (i : ℕ) (c : Option ℕ)
    → All (Differs id) rs
    → All (Differs id) (set rs i (record (get_or rs i new_pair) { client = c }))
Differs-set id [] i c h = tt
Differs-set id (r ∷ rs) zero c h = h
Differs-set id (r ∷ rs) (suc i) c h = (h.0, Differs-set id rs i c h.1)

pub Distinct-set :
    (rs : List PairClientData) (i : ℕ) (c : Option ℕ)
    → Distinct rs
    → Distinct (set rs i (record (get_or rs i new_pair) { client = c }))
Distinct-set [] i c d = tt
Distinct-set (r ∷ rs) zero c d = d
Distinct-set (r ∷ rs) (suc i) c d =
    (Differs-set r.info.remote_id rs i c d.0, Distinct-set rs i c d.1)

Differs-append :
    (id : ℤ) (rs : List PairClientData) (r : PairClientData)
    → All (Differs id) rs
    → Differs id r
    → All (Differs id) (rs ++ r ∷ [])
Differs-append id [] r h d = (d, tt)
Differs-append id (q ∷ rs) r h d = (h.0, Differs-append id rs r h.1 d)

pub Distinct-append :
    (rs : List PairClientData) (r : PairClientData) (id : ℕ)
    → r.info.remote_id ≡ pos id
    → has_id rs id ≡ false
    → Distinct rs
    → Distinct (rs ++ r ∷ [])
unfolding has_id
Distinct-append [] r id e h d = (tt, tt)
Distinct-append (q ∷ rs) r id e h d = (
  Differs-append q.info.remote_id rs r d.0 (ground arith),
  Distinct-append rs r id e (ground arith) d.1,
)

register_client-Distinct :
    (s : SensorServer) (who : Identity) (new_id : ℤ) (ref time : ℕ)
    → Sound s.registers who
    → Distinct s.registers
    → Distinct (register_client s who new_id ref time).registers
register_client-Distinct s who new_id ref time (fresh id n r p free e) d =
    rw n (Distinct-append s.registers _ id e free d)
register_client-Distinct s who new_id ref time (known id n r e) d = rw n d

replace_client-Distinct :
    (s : SensorServer) (new_id remote : ℤ) (ref i : ℕ) (c : Option ℕ)
    → Distinct s.registers
    → Distinct (replace_client s new_id remote ref i c).registers
replace_client-Distinct s new_id remote ref i none d = Distinct-set s.registers i (some ref) d
replace_client-Distinct s new_id remote ref i (some last) d =
    Distinct-set s.registers i (some ref) d

-- `addClient` keeps the identifications of the registers different, whatever the device sends, while
-- there are fewer than 2 ^ 31 - 2 registers.
pub add_client-Distinct :
    (f : FloatOps) (s : SensorServer) (x : Exchange)
    → length s.registers + 2 < 2 ^ 31
    → Distinct s.registers
    → Distinct (add_client f s x).0.registers
add_client-Distinct f s x few d =
    add_client_cases f s x (λ t. Distinct t.0.registers) d
      λ _.
        admit_cases (joined f s x) _ _ _ _ (λ t. Distinct t.0.registers) d d
          (λ valid i e. replace_client-Distinct (joined f s x) _ _ _ i _ d)
          (λ valid e b.
            register_client-Distinct _ _ _ _ _ (identify-Sound f s.registers x few s.index valid) d)

abbrev pub infos : List PairClientData → List RemoteClientData
infos = map (λ r. r.info)

pub infos-set :
    (rs : List PairClientData) (i : ℕ) (c : Option ℕ)
    → infos (set rs i (record (get_or rs i new_pair) { client = c })) ≡ infos rs
infos-set [] i c = refl
infos-set (r ∷ rs) zero c = refl
infos-set (r ∷ rs) (suc i) c = ap (◌∷◌ r.info) (infos-set rs i c)

-- The list and the file both stayed, or got the same record.
abbrev pub Saved : SensorServer → SensorServer → Type 0
Saved s t =
    ((infos t.registers ≡ infos s.registers) × (t.file ≡ s.file))
    ⊎ ((r : RemoteClientData) × (infos t.registers ≡ infos s.registers ++ r ∷ [])
        × (t.file ≡ s.file ++ r ∷ []))

register_client-Saved :
    (s : SensorServer) (who : Identity) (new_id : ℤ) (ref time : ℕ)
    → Saved s (register_client s who new_id ref time)
register_client-Saved s who new_id ref time = elim (Bool-cases who.is_new) [
  | inl e ↦ rw e (inr (_, map-append (λ r. r.info) s.registers _, refl))
  | inr e ↦ rw e (inl (refl, refl))
]

replace_client-Saved :
    (s : SensorServer) (new_id remote : ℤ) (ref i : ℕ) (c : Option ℕ)
    → Saved s (replace_client s new_id remote ref i c)
replace_client-Saved s new_id remote ref i none = inl (infos-set s.registers i (some ref), refl)
replace_client-Saved s new_id remote ref i (some last) =
    inl (infos-set s.registers i (some ref), refl)

-- `addClient` appends a record to the list of registers exactly when it appends that record to the
-- file of sensors, and changes no record that is there.
pub add_client-Saved :
    (f : FloatOps) (s : SensorServer) (x : Exchange) → Saved s (add_client f s x).0
add_client-Saved f s x =
    add_client_cases f s x (λ t. Saved s t.0) (inl (refl, refl))
      λ _.
        admit_cases (joined f s x) _ _ _ _ (λ t. Saved s t.0) (inl (refl, refl)) (inl (refl, refl))
          (λ valid i e. replace_client-Saved (joined f s x) _ _ _ i _)
          (λ valid e b. register_client-Saved _ (identify f s.registers x s.index) _ _ _)

-- The same while other threads go on.
pub add_client_over-Saved :
    (f : FloatOps) (s t : SensorServer) (x : Exchange) → Saved t (add_client_over f s x t).0
unfolding add_client_over
add_client_over-Saved f s t x = elim (Bool-cases (leb_ℤ (pos 0) (get_next_local_id s.sensors))) [
  | inr e ↦ rw e (inl (refl, refl))
  | inl e ↦ rw e (
      admit_cases t (identify f s.registers x s.index) _ _ _ (λ u. Saved t u.0) (inl (refl, refl))
        (inl (refl, refl)) (λ ok i found. replace_client-Saved t _ _ _ i _)
        (λ ok absent b. register_client-Saved _ (identify f s.registers x s.index) _ _ _))
]
