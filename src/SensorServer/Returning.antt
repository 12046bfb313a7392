-- ===== src/SensorServer/Returning.antt =====
-- A device that comes back after its client has left.
use mathlib.Core.Option.{some-injective}
use mundosvirtuales_terremot.Base.{
  ℕ, ◌<◌, ◌≡◌, sym, ap, ◌∙◌, true, false, inl, inr, some, Option-cases, length, get_or, length-set,
  get_or-set_self,
}
use mundosvirtuales_terremot.Base.Int.{ℤ, pos, ◌-ℤ◌}
use mundosvirtuales_terremot.Sensors.{get_next_local_id, delete_space}
use mundosvirtuales_terremot.Server.{
  Client, new_client, Pool, client_at, put_client, stop_client, set_replaced,
  remove_client_from_queue,
}
use mundosvirtuales_terremot.Registry.{new_pair, find_register}
use mundosvirtuales_terremot.Handshake.{Identity}
use mundosvirtuales_terremot.SensorServer.{SensorServer, admit, remove_client}
use mundosvirtuales_terremot.SensorServer.Threads.{removed}

client_at-put_client :
    (p : Pool) (ref : ℕ) (c : Client)
    → ref < length p.clients
    → client_at (put_client p ref c) ref ≡ c
client_at-put_client p ref c k = get_or-set_self p.clients ref c new_client k

-- What the departure of a client that was not replaced leaves.
pub left :
    (s t : SensorServer) (last : ℕ)
    → (client_at s.pool last).was_replaced ≡ false
    → remove_client s last ≡ some t
    → (t.sensors ≡ delete_space s.sensors (client_at s.pool last).local_id)
      × (t.pool.clients ≡ s.pool.clients)
unfolding remove_client
left s t last kept e = elim (Option-cases (remove_client_from_queue s.pool last)) [
  | inl n ↦ cc (rw (n, remove_client) at e)
  | inr (q, m) ↦
      let (rest, same) = removed s.pool q last m in
      let clients : q.clients ≡ s.pool.clients = sym (ap (λ p. p.clients) same) in
      let stays : (client_at q last).was_replaced ≡ false =
        ap (λ cs. (get_or cs last new_client).was_replaced) clients ∙ kept in
      let result : record s {
        pool = q;
        sensors = delete_space s.sensors (client_at q last).local_id;
      }
          ≡ t =
        some-injective _ _ (rw (m, stays, remove_client) at e) in
      (
        sym (ap (λ u. u.sensors) result)
            ∙ ap (λ cs. delete_space s.sensors (get_or cs last new_client).local_id) clients,
        sym (ap (λ u. u.pool.clients) result) ∙ clients,
      )
]

-- A device whose client has left, without having been replaced, and that connects again with a valid
-- identity, is given the slot of that client, as its register still holds the client. The slot is
-- not reserved: it is the next one for a new device too, and the number of active sensors
-- stays one below what it was.
pub returning_client_shares :
    (s t : SensorServer) (last ref i : ℕ) (who : Identity) (new_id : ℤ) (time : ℕ)
    → (client_at s.pool last).was_replaced ≡ false
    → remove_client s last ≡ some t
    → ref < length t.pool.clients
    → who.valid ≡ true
    → find_register who.remote_id t.registers ≡ some i
    → (get_or t.registers i new_pair).client ≡ some last
    → let u = (admit t who new_id ref time).0 in
      ((client_at u.pool ref).local_id ≡ get_next_local_id u.sensors)
      × (u.sensors.active_sensors ≡ s.sensors.active_sensors -ℤ pos 1)
unfolding admit get_next_local_id delete_space
returning_client_shares s t last ref i who new_id time kept e k valid found holds =
    let (sensors, clients) = left s t last kept e in
    rw (valid, found, holds)
      (
        ap (λ c. c.local_id)
              (client_at-put_client (set_replaced (stop_client t.pool last) last) ref _ (
                rw
                  (
                    length-set (stop_client t.pool last).clients last
                        (record (client_at (stop_client t.pool last) last) { was_replaced = true }),
                    length-set t.pool.clients last
                        (record (client_at t.pool last) { stopped = true }),
                  )
                  k))
            ∙ ap (λ cs. (get_or cs last new_client).local_id) clients
            ∙ sym (ap (λ l. l.next_pos) sensors),
        ap (λ l. l.active_sensors) sensors,
      )
