-- ===== src/SensorServer/Remembered.antt =====
-- What the registers remember of a device: a new one is recorded, and later found again.
use mathlib.Core.List.{map-append}
use mundosvirtuales_terremot.Base.{
  ℕ, suc, ◌≡◌, refl, ap, ◌∙◌, true, inl, inr, List, [], ◌∷◌, ◌++◌, Option, none, some,
  if◌then◌else◌, get_or, get_or-set_self, Option-cases, Bool-cases,
}
use mundosvirtuales_terremot.Base.Int.{ℤ, pos, leb_ℤ, signed32}
use mundosvirtuales_terremot.Sensors.{get_next_local_id, reserve_space}
use mundosvirtuales_terremot.Server
use mundosvirtuales_terremot.Server.{◌==ℤ◌}
use mundosvirtuales_terremot.Registry.{
  RemoteClientData, PairClientData, new_pair, shift, find_register,
}
use mundosvirtuales_terremot.Registry.Laws.{find_register_holds}
use mundosvirtuales_terremot.Handshake.{FloatOps, Exchange, identify}
use mundosvirtuales_terremot.SensorServer.{SensorServer, admit, add_client}
use mundosvirtuales_terremot.SensorServer.Registered.{infos, infos-set}
use mundosvirtuales_terremot.SensorServer.Durable.{Holds}

-- The lookup reads the records only.
abbrev place : ℤ → List RemoteClientData → Option ℕ
place id [] = none
place id (r ∷ rs) = if id ==ℤ r.remote_id then some 0 else shift (place id rs)

find_register-place :
    (id : ℤ) (rs : List PairClientData) → find_register id rs ≡ place id (infos rs)
unfolding find_register
find_register-place id [] = refl
find_register-place id (r ∷ rs) =
    ap (λ o. if id ==ℤ r.info.remote_id then some 0 else shift o) (find_register-place id rs)

place-shift :
    (id : ℤ) (r : RemoteClientData) (rs : List RemoteClientData) (i : ℕ)
    → place id rs ≡ some i
    → (j : ℕ) × (place id (r ∷ rs) ≡ some j)
place-shift id r rs i h = elim (Bool-cases (id ==ℤ r.remote_id)) [
  | inl e ↦ (0, rw e refl)
  | inr e ↦ (suc i, rw (e, h) refl)
]

place-Holds :
    (id : ℤ) (before : List RemoteClientData) (r : RemoteClientData) (after : List RemoteClientData)
    → (id ==ℤ r.remote_id) ≡ true
    → (i : ℕ) × (place id (before ++ r ∷ after) ≡ some i)
place-Holds id [] r after same = (0, rw same refl)
place-Holds id (q ∷ before) r after same =
    let (i, h) = place-Holds id before r after same in place-shift id q (before ++ r ∷ after) i h

-- A device whose record is in a register is found.
pub find_register-Holds :
    (id : ℤ) (rs : List PairClientData) (r : RemoteClientData)
    → (id ==ℤ r.remote_id) ≡ true
    → Holds r (infos rs)
    → (i : ℕ) × (find_register id rs ≡ some i)
find_register-Holds id rs r same (before, after, e) =
    let (i, h) = place-Holds id before r after same in
    (i, find_register-place id rs ∙ ap (place id) e ∙ h)

module _ (f : FloatOps) (s : SensorServer) (x : Exchange)
    (slot : leb_ℤ (pos 0) (get_next_local_id s.sensors) ≡ true)
    (valid : (identify f s.registers x s.index).valid ≡ true) where
  -- A new device is recorded behind the others, in the file too.
  pub add_client-new :
      (identify f s.registers x s.index).is_new ≡ true
      → find_register (identify f s.registers x s.index).remote_id s.registers ≡ none
      → (reserve_space s.sensors).1 ≡ true
      → let t = (add_client f s x).0 in
        (r : RemoteClientData) × (r.remote_id
          ≡ signed32 (identify f s.registers x s.index).id_device)
        × (infos t.registers ≡ infos s.registers ++ r ∷ [])
        × (t.file ≡ s.file ++ r ∷ [])
  unfolding add_client admit
  add_client-new new free reserved =
      rw (slot, valid, free, reserved, new) (_, refl, map-append (λ r. r.info) s.registers _, refl)

  -- A device that is found keeps its record, and the record gets the new client.
  pub add_client-found :
      (i : ℕ)
      → find_register (identify f s.registers x s.index).remote_id s.registers ≡ some i
      → let (t, ref) = add_client f s x in
        (t.file ≡ s.file)
        × (infos t.registers ≡ infos s.registers)
        × (ref ≡ some (Server.add_client s.pool).1)
        × (get_or t.registers i new_pair
            ≡ record (get_or s.registers i new_pair) { client = some (Server.add_client s.pool).1 })
  unfolding add_client admit
  add_client-found i found =
      let (within, _) = find_register_holds _ s.registers i found in
      let held =
        get_or-set_self s.registers i
          (record (get_or s.registers i new_pair) { client = some (Server.add_client s.pool).1 })
          new_pair within in
      let kept = infos-set s.registers i (some (Server.add_client s.pool).1) in
      elim (Option-cases (get_or s.registers i new_pair).client) [
        | inl n ↦ rw (slot, valid, found, n) (refl, kept, refl, held)
        | inr (last, e) ↦ rw (slot, valid, found, e) (refl, kept, refl, held)
      ]
