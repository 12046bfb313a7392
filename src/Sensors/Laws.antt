-- ===== src/Sensors/Laws.antt =====
-- The slots that the list hands out lie inside its array.
use Prim.Native.Nat.{min}
use mundosvirtuales_terremot.Base.{
  if◌then◌else◌, ◌==◌, ==_iff, sym, ℕ, ◌+◌, ◌≤◌, ◌<◌, ◌≡◌, refl, ◌⊎◌, true, false, none, some,
  arith, length, length-set, Bool-cases, leb, inl, inr, set, get_elem?-set_self, get_elem?-set_ne,
  length-replicate, ◌∙◌,
}
use mundosvirtuales_terremot.Base.Int.{ℤ, pos, negsuc, ◌+ℤ◌}
use mundosvirtuales_terremot.Sensors.{
  ListSensors, Measurement, max_size_sensors, new_measurement, new_list, get_next_local_id,
  append_measure, reserve_space, delete_space, measure_at,
}

-- A local identification that has a slot.
abbrev pub IsSlot : ℤ → Type 0
IsSlot (pos n) = n < max_size_sensors
IsSlot (negsuc n) = ⊥

pub record IsValid (s : ListSensors) : Type 0 where
  pub slots : length s.queue ≡ max_size_sensors
  pub total : s.max_size ≤ max_size_sensors
  pub next : IsSlot s.next_pos

pub new_list-IsValid : IsValid new_list
unfolding new_list
new_list-IsValid = record {
  slots = length-replicate max_size_sensors new_measurement;
  total = omega arith;
  next = omega arith;
}

-- Reserving keeps the list well formed, whether it succeeds or not.
pub reserve_space-IsValid : (s : ListSensors) → IsValid s → IsValid (reserve_space s).0
unfolding reserve_space
reserve_space-IsValid s v = ground arith

pub delete_space-IsValid :
    (s : ListSensors) (id : ℤ) → IsSlot id → IsValid s → IsValid (delete_space s id)
unfolding delete_space
delete_space-IsValid s id h v = ground arith

-- A measurement for a slot never leaves the array, and changes nothing but the array's contents.
pub append_measure_total :
    (s : ListSensors) (id : ℤ) (m : Measurement)
    → IsSlot id
    → IsValid s
    → (t : ListSensors) × (append_measure s id m ≡ some t)
      × (t.next_pos ≡ s.next_pos)
      × (t.max_size ≡ s.max_size)
      × (t.active_sensors ≡ s.active_sensors)
      × IsValid t
unfolding append_measure
append_measure_total s (pos i) m h v = elim (Bool-cases (leb i s.max_size)) [
  | inl e ↦ (
    record s { queue = set s.queue i m },
    ground arith,
    refl,
    refl,
    refl,
    record { slots = length-set s.queue i m ∙ v.slots; total = v.total; next = v.next },
  )
  | inr e ↦ (s, ground arith, refl, refl, refl, v)
]
append_measure_total s (negsuc i) m h v = elim h [ ]

-- In a well-formed list, after a measurement for a slot within the current total, that slot `i` holds
-- it, and every other slot `j` holds what it held.
pub append_measure_stores :
    (s : ListSensors) (i j : ℕ) (m : Measurement)
    → IsValid s
    → i < max_size_sensors
    → i ≤ s.max_size
    → (t : ListSensors) × (append_measure s (pos i) m ≡ some t)
      × (measure_at t j ≡ (if i == j then some m else measure_at s j))
unfolding append_measure measure_at
append_measure_stores s i j m v h k = (
  record s { queue = set s.queue i m },
  ground arith,
  elim (Bool-cases (i == j)) [
    | inl e ↦
        rw (e, sym ((==_iff i j).0 e)) (get_elem?-set_self s.queue i m (omega (arith, v.slots)))
    | inr e ↦ rw e (get_elem?-set_ne s.queue i j m (ground arith))
  ],
)

-- The guard of `appendMeassure` admits one index too many: once the total has reached the size of
-- the array, a measurement for the index after the last slot passes the guard and is written
-- outside of the array.
pub append_measure_overflows :
    (s : ListSensors) (m : Measurement)
    → s.max_size ≡ max_size_sensors
    → append_measure s (pos max_size_sensors) m ≡ none
unfolding append_measure
append_measure_overflows s m h = ground arith

-- A reservation succeeds exactly when there is a slot after the next one. Then the next slot moves
-- on by one and one more sensor is active; otherwise both stay. The total grows in both cases,
-- up to the size of the array.
pub reserve_space_cases :
    (s : ListSensors) (n : ℕ)
    → IsValid s
    → s.next_pos ≡ pos n
    → let (t, reserved) = reserve_space s in
      (((n + 1 < max_size_sensors)
          × (reserved ≡ true)
          × (t.next_pos ≡ pos (n + 1))
          × (t.active_sensors ≡ s.active_sensors +ℤ pos 1))
        ⊎ ((n + 1 ≡ max_size_sensors)
            × (reserved ≡ false)
            × (t.next_pos ≡ s.next_pos)
            × (t.active_sensors ≡ s.active_sensors)))
      × (t.max_size ≡ min (s.max_size + 1) max_size_sensors)
unfolding reserve_space
reserve_space_cases s n v e = ground arith

-- After slot `id` is freed, the next two clients are given the slots `id` and `id + 1`, whether or
-- not `id + 1` still belongs to a connected client.
pub delete_space_hands_out_next :
    (s : ListSensors) (id : ℕ)
    → id + 1 < max_size_sensors
    → let freed = delete_space s (pos id) in
      (get_next_local_id freed ≡ pos id)
      × (get_next_local_id (reserve_space freed).0 ≡ pos (id + 1))
unfolding delete_space get_next_local_id reserve_space
delete_space_hands_out_next s id h = ground arith
