-- ===== src/AlarmServer/Laws.antt =====
-- Where the server of the alarms keeps its registers.
use mathlib.Core.List.{map-append}
use mundosvirtuales_terremot.Base.{
  ℕ, ◌+◌, ◌<◌, ◌^◌, ◌≡◌, refl, ◌⊎◌, inl, inr, true, [], ◌∷◌, ◌++◌, Option, none, some, length,
  Bool-cases, Option-cases, get_or,
}
use mundosvirtuales_terremot.Base.Int.{ℤ, pos, leb_ℤ}
use mundosvirtuales_terremot.Server
use mundosvirtuales_terremot.Registry.{RemoteClientData, new_pair, find_register}
use mundosvirtuales_terremot.Handshake.{FloatOps, Exchange, Identity, identify}
use mundosvirtuales_terremot.Handshake.Laws.{Sound, fresh, known, identify-Sound}
use mundosvirtuales_terremot.SensorServer.Registered.{
  Distinct, Distinct-set, Distinct-append, infos, infos-set,
}
use mundosvirtuales_terremot.AlarmServer.{
  AlarmServer, replace_client, register_client, reject_client, admit, add_client,
}

-- The list of registers stayed, and so did the file of the sensors, or both got the same record; the
-- file of the alarms stayed in any case.
abbrev pub Misplaced : AlarmServer → AlarmServer → Type 0
Misplaced s t =
    (t.alarms_file ≡ s.alarms_file)
    × (((infos t.registers ≡ infos s.registers) × (t.sensors_file ≡ s.sensors_file))
        ⊎ ((r : RemoteClientData) × (infos t.registers ≡ infos s.registers ++ r ∷ [])
            × (t.sensors_file ≡ s.sensors_file ++ r ∷ [])))

module _ {ℓ} (s : AlarmServer) (who : Identity) (new_id : ℤ) (ref time : ℕ)
    (P : AlarmServer × Option ℕ → Type ℓ) (turned_away : P (reject_client s ref))
    (replaced : who.valid ≡ true
      → (i : ℕ)
      → P (
        replace_client s new_id who.remote_id ref i (get_or s.registers i new_pair).client,
        some ref,
      ))
    (registered : who.valid ≡ true → P (register_client s who new_id ref time, some ref)) where
  admit_cases : P (admit s who new_id ref time)
  unfolding admit
  admit_cases = elim (Bool-cases who.valid) [
    | inr e ↦ rw e turned_away
    | inl e ↦ elim (Option-cases (find_register who.remote_id s.registers)) [
      | inr (i, r) ↦ rw (e, r) (replaced e i)
      | inl r ↦ rw (e, r) (registered e)
    ]
  ]

-- The state with the new client in the queue and the request index of the exchange.
abbrev pub joined : FloatOps → AlarmServer → Exchange → AlarmServer
joined f s x = record s {
  pool = (Server.add_client s.pool).0;
  index = (identify f s.registers x s.index).index;
}

add_client_cases {ℓ} :
    (f : FloatOps) (s : AlarmServer) (x : Exchange) (P : AlarmServer × Option ℕ → Type ℓ)
    → P (
        reject_client
          (record s { pool = (Server.add_client s.pool).0 })
          (Server.add_client s.pool).1)
    → P (
        admit
          (joined f s x)
          (identify f s.registers x s.index)
          s.next_id
          (Server.add_client s.pool).1
          x.time)
    → P (add_client f s x)
unfolding add_client
add_client_cases f s x P full some_slot = elim (Bool-cases (leb_ℤ (pos 0) s.next_id)) [
  | inl e ↦ rw e some_slot
  | inr e ↦ rw e full
]

register_client-Misplaced :
    (s : AlarmServer) (who : Identity) (new_id : ℤ) (ref time : ℕ)
    → Misplaced s (register_client s who new_id ref time)
register_client-Misplaced s who new_id ref time = elim (Bool-cases who.is_new) [
  | inl e ↦ rw e (refl, inr (_, map-append (λ r. r.info) s.registers _, refl))
  | inr e ↦ rw e (refl, inl (refl, refl))
]

replace_client-Misplaced :
    (s : AlarmServer) (new_id remote : ℤ) (ref i : ℕ) (c : Option ℕ)
    → Misplaced s (replace_client s new_id remote ref i c)
replace_client-Misplaced s new_id remote ref i none =
    (refl, inl (infos-set s.registers i (some ref), refl))
replace_client-Misplaced s new_id remote ref i (some last) =
    (refl, inl (infos-set s.registers i (some ref), refl))

-- `addClient` of the alarms never writes the file that the server of the alarms reads at its start.
-- A record that it appends to the list of registers is appended to the file of the sensors instead.
pub add_client-Misplaced :
    (f : FloatOps) (s : AlarmServer) (x : Exchange) → Misplaced s (add_client f s x).0
add_client-Misplaced f s x =
    add_client_cases f s x (λ t. Misplaced s t.0) (refl, inl (refl, refl))
      (admit_cases (joined f s x) _ _ _ _ (λ t. Misplaced s t.0) (refl, inl (refl, refl))
        (λ valid i. replace_client-Misplaced (joined f s x) _ _ _ i _)
        (λ valid. register_client-Misplaced _ (identify f s.registers x s.index) _ _ _))

register_client-Distinct :
    (s : AlarmServer) (who : Identity) (new_id : ℤ) (ref time : ℕ)
    → Sound s.registers who
    → Distinct s.registers
    → Distinct (register_client s who new_id ref time).registers
register_client-Distinct s who new_id ref time (fresh id n r p free e) d =
    rw n (Distinct-append s.registers _ id e free d)
register_client-Distinct s who new_id ref time (known id n r e) d = rw n d

replace_client-Distinct :
    (s : AlarmServer) (new_id remote : ℤ) (ref i : ℕ) (c : Option ℕ)
    → Distinct s.registers
    → Distinct (replace_client s new_id remote ref i c).registers
replace_client-Distinct s new_id remote ref i none d = Distinct-set s.registers i (some ref) d
replace_client-Distinct s new_id remote ref i (some last) d =
    Distinct-set s.registers i (some ref) d

-- `addClient` of the alarms keeps the identifications of the registers different, whatever the device
-- sends, while there are fewer than 2 ^ 31 - 2 registers.
pub add_alarm-Distinct :
    (f : FloatOps) (s : AlarmServer) (x : Exchange)
    → length s.registers + 2 < 2 ^ 31
    → Distinct s.registers
    → Distinct (add_client f s x).0.registers
add_alarm-Distinct f s x few d =
    add_client_cases f s x (λ t. Distinct t.0.registers) d
      (admit_cases (joined f s x) _ _ _ _ (λ t. Distinct t.0.registers) d
        (λ valid i. replace_client-Distinct (joined f s x) _ _ _ i _ d)
        (λ valid.
          register_client-Distinct _ _ _ _ _ (identify-Sound f s.registers x few s.index valid) d))
