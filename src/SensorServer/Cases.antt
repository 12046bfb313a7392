-- ===== src/SensorServer/Cases.antt =====
-- The ends of `addClient`, once for all proofs: the client is turned away, replaces the last client of
-- a known device, or gets a slot of its own.
use mathlib.Core.Option.{some-injective}
use mundosvirtuales_terremot.Base.{
  ℕ, ◌≡◌, inl, inr, true, Option, none, some, Bool-cases, Option-cases, get_or,
}
use mundosvirtuales_terremot.Base.Int.{ℤ, pos, leb_ℤ}
use mundosvirtuales_terremot.Sensors.{
  ListSensors, new_measurement, append_measure, get_next_local_id, reserve_space,
}
use mundosvirtuales_terremot.Server
use mundosvirtuales_terremot.Server.{Pool, client_at, remove_client_from_queue}
use mundosvirtuales_terremot.Registry.{new_pair, find_register}
use mundosvirtuales_terremot.Handshake.{FloatOps, Exchange, Identity, identify}
use mundosvirtuales_terremot.SensorServer.{
  SensorServer, replace_client, register_client, reject_client, admit, add_client, remove_client,
  update_list_sensor,
}

module _ {ℓ} (s : SensorServer) (who : Identity) (new_id : ℤ) (ref time : ℕ)
    (P : SensorServer × Option ℕ → Type ℓ) (turned_away : P (reject_client s ref))
    (full : P (reject_client (record s { sensors = (reserve_space s.sensors).0 }) ref))
    (replaced : who.valid ≡ true
      → (i : ℕ) → find_register who.remote_id s.registers ≡ some i
      → P (
        replace_client s new_id who.remote_id ref i (get_or s.registers i new_pair).client,
        some ref,
      ))
    (registered : who.valid ≡ true
      → find_register who.remote_id s.registers ≡ none
      → (reserve_space s.sensors).1 ≡ true
      → P (
        register_client (record s { sensors = (reserve_space s.sensors).0 }) who new_id ref time,
        some ref,
      )) where
  pub admit_cases : P (admit s who new_id ref time)
  unfolding admit
  admit_cases = elim (Bool-cases who.valid) [
    | inr e ↦ rw e turned_away
    | inl e ↦ elim (Option-cases (find_register who.remote_id s.registers)) [
      | inr (i, r) ↦ rw (e, r) (replaced e i r)
      | inl r ↦ elim (Bool-cases (reserve_space s.sensors).1) [
        | inl b ↦ rw (e, r, b) (registered e r b)
        | inr b ↦ rw (e, r, b) full
      ]
    ]
  ]

-- The state with the new client in the queue and the request index of the exchange.
abbrev pub joined : FloatOps → SensorServer → Exchange → SensorServer
joined f s x = record s {
  pool = (Server.add_client s.pool).0;
  index = (identify f s.registers x s.index).index;
}

pub add_client_cases {ℓ} :
    (f : FloatOps) (s : SensorServer) (x : Exchange) (P : SensorServer × Option ℕ → Type ℓ)
    → P (
        reject_client
          (record s { pool = (Server.add_client s.pool).0 })
          (Server.add_client s.pool).1)
    → (leb_ℤ (pos 0) (get_next_local_id s.sensors) ≡ true
        → P (
            admit
              (joined f s x)
              (identify f s.registers x s.index)
              (get_next_local_id s.sensors)
              (Server.add_client s.pool).1
              x.time))
    → P (add_client f s x)
unfolding add_client
add_client_cases f s x P full some_slot =
    elim (Bool-cases (leb_ℤ (pos 0) (get_next_local_id s.sensors))) [
      | inl e ↦ rw e (some_slot e)
      | inr e ↦ rw e full
    ]

-- A measurement that is accepted changes only the list of sensors, by `append_measure`.
pub update_list_sensor_cases :
    (s t : SensorServer) (ref payload : ℕ) (time : ℤ)
    → update_list_sensor s ref payload time ≡ some t
    → (list : ListSensors) × (append_measure s.sensors
          (client_at s.pool ref).local_id
          (record new_measurement { timestamp = time; intensity = payload })
        ≡ some list)
      × (record s { sensors = list } ≡ t)
unfolding update_list_sensor
update_list_sensor_cases s t ref payload time e =
    elim (Option-cases (
      append_measure s.sensors (client_at s.pool ref).local_id
        (record new_measurement { timestamp = time; intensity = payload }))) [
          | inl n ↦ cc (rw (n, update_list_sensor) at e)
          | inr (list, m) ↦ (list, m, some-injective _ _ (rw (m, update_list_sensor) at e))
        ]

-- A departure changes only the pool and the list of sensors.
pub remove_client_cases :
    (s t : SensorServer) (ref : ℕ)
    → remove_client s ref ≡ some t
    → (pool : Pool) × (list : ListSensors) × (record s { pool = pool; sensors = list } ≡ t)
unfolding remove_client
remove_client_cases s t ref e = elim (Option-cases (remove_client_from_queue s.pool ref)) [
  | inl n ↦ cc (rw (n, remove_client) at e)
  | inr (q, m) ↦ elim (Bool-cases (client_at q ref).was_replaced) [
    | inl b ↦ (q, s.sensors, some-injective _ _ (rw (m, b, remove_client) at e))
    | inr b ↦ (q, _, some-injective _ _ (rw (m, b, remove_client) at e))
  ]
]
