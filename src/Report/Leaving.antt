-- ===== src/Report/Leaving.antt =====
-- The end of a sensor's client: `run` of src/utils/network/ClientTCP.cpp calls `remove_client_from_queue` of
-- src/server/ServerSensors.cpp.

use mundosvirtuales_terremot.Base.{
  Option-cases, ℕ, ◌+◌, ◌<◌, ◌≤◌, ◌≡◌, refl, sym, ap, ◌∙◌, true, false, List, [], ◌∷◌, Option, none,
  some, inl, inr, arith, All, ◌==◌, ==_iff, ◌++◌, subst,
}
use mundosvirtuales_terremot.Base.Int.{ℤ, pos, ◌-ℤ◌}
use mundosvirtuales_terremot.Packet.{Packet}
use mundosvirtuales_terremot.Queue.Laws.{Search, missing, hit, remove_item-Search}
use mundosvirtuales_terremot.Sensors.{ListSensors, Measurement, append_measure, delete_space}
use mundosvirtuales_terremot.Tcp.{Socket}
use mundosvirtuales_terremot.Server.{Pool, client_at, remove_client_from_queue}
use mundosvirtuales_terremot.Server.Laws.{has}
use mundosvirtuales_terremot.Client.{max_error_comm, Thread, Turn, run}
use mundosvirtuales_terremot.Client.Laws.{count_bad, run_stops}
use mundosvirtuales_terremot.Client.Ending.{closed, called, run_client, run-state}
use mundosvirtuales_terremot.SensorServer.{SensorServer, update_list_sensor, remove_client}
use mundosvirtuales_terremot.SensorServer.Cases.{update_list_sensor_cases}
use mundosvirtuales_terremot.Response.{process_sensor}
use mundosvirtuales_terremot.Report.Session.{process_packet}

-- The callback that the server gives to its client at `ref`.
abbrev pub close : ℕ → SensorServer × Socket → Option (SensorServer × Socket)
close ref (s, t) = elim (remove_client s ref) [ none ↦ none | some s' ↦ some (s', t) ]

-- What the packets of a client leave: the clients and their queue, the number of active sensors, and the registers.
pub record Same (s u : SensorServer) : Type 0 where
  pub pool : u.pool ≡ s.pool
  pub active : u.sensors.active_sensors ≡ s.sensors.active_sensors

append_measure-active :
    (l m : ListSensors) (id : ℤ) (d : Measurement)
    → append_measure l id d ≡ some m
    → m.active_sensors ≡ l.active_sensors
unfolding append_measure
append_measure-active l m id d e = ground arith

update_list_sensor-Same :
    (u v : SensorServer) (ref payload : ℕ) (time : ℤ)
    → update_list_sensor u ref payload time ≡ some v
    → Same u v
update_list_sensor-Same u v ref payload time e =
    let (list, stored, result) = update_list_sensor_cases u v ref payload time e in
    record {
      pool = sym (ap (λ w. w.pool) result);
      active =
          sym (ap (λ w. w.sensors.active_sensors) result)
          ∙ append_measure-active u.sensors list _ _ stored;
    }

process_packet-Same :
    (ref junk : ℕ) (time : ℤ) (s : SensorServer) (state : SensorServer × Socket) (p : Packet)
    → Same s state.0
    → Same s (process_packet ref time junk state p).state.0
unfolding process_sensor
process_packet-Same ref junk time s (u, t) p h =
    elim (Option-cases (update_list_sensor u ref p.payload time)) [
      | inl n ↦ rw (n, process_sensor) (ground arith)
      | inr (v, m) ↦
          let same = update_list_sensor-Same u v ref p.payload time m in
          rw (m, process_sensor) (ground arith)
    ]

has-missing : (ref : ℕ) (q : List ℕ) → All (λ r. (r == ref) ≡ false) q → has ref q ≡ false
has-missing ref [] a = refl
has-missing ref (r ∷ q) (e, a) = rw (e, has-missing ref q a) refl

-- The first entry of the client is out of the queue, and the other entries are as they were.
abbrev pub Without : ℕ → List ℕ → List ℕ → Type 0
Without ref q rest =
    (before : List ℕ) × (after : List ℕ) × (q ≡ before ++ ref ∷ after)
    × (has ref before ≡ false)
    × (rest ≡ before ++ after)

found-Without :
    (ref : ℕ) (q : List ℕ) (r : Option ℕ × List ℕ)
    → has ref q ≡ true
    → Search (λ r. r == ref) q r
    → Without ref q r.1
found-Without ref q r h (missing all) = cc (has-missing ref q all)
found-Without ref q r h (hit before after x e all fits) = (
  before,
  after,
  e ∙ ap (λ y. before ++ y ∷ after) ((==_iff x ref).0 fits),
  has-missing ref before all,
  refl,
)

-- A client of the queue is taken out of it.
removes :
    (p : Pool) (ref : ℕ)
    → has ref p.queue ≡ true
    → (rest : List ℕ) × (remove_client_from_queue p ref ≡ some (record p { queue = rest }))
      × Without ref p.queue rest
unfolding remove_client_from_queue
removes p ref h = elim (remove_item-Search (λ r. r == ref) p.queue) [
  | inl (e, _) ↦ cc (ap (has ref) e)
  | inr (r, e, found) ↦
      rw (e, remove_client_from_queue) (r.1, refl, found-Without ref p.queue r h found)
]

-- The departure of a client of the queue that was not replaced.
leaves :
    (s : SensorServer) (ref : ℕ)
    → (client_at s.pool ref).was_replaced ≡ false
    → has ref s.pool.queue ≡ true
    → (u : SensorServer) × (remove_client s ref ≡ some u)
      × (u.sensors ≡ delete_space s.sensors (client_at s.pool ref).local_id)
      × Without ref s.pool.queue u.pool.queue
unfolding remove_client
leaves s ref kept queued =
    let (rest, removed, out) = removes s.pool ref queued in
    let u : SensorServer = record s {
      pool = record (s.pool) { queue = rest };
      sensors = delete_space s.sensors (client_at s.pool ref).local_id;
    } in
    (u, rw (removed, kept, remove_client) refl, refl, out)

close-some :
    (ref : ℕ) (state : SensorServer × Socket) (u : SensorServer)
    → remove_client state.0 ref ≡ some u
    → close ref state ≡ some (u, state.1)
close-some ref (s, t) u e = rw (e, close) refl

-- The end of a sensor. If three errors come together before another thread stops it or changes the server, the thread
-- of a client of the queue that was not replaced returns, whatever else it receives: the first entry of the client is out of the
-- queue, whose other entries stay as they were, its slot is the next one that is given away, and one sensor less is
-- active.
pub run_client_frees :
    (ref junk : ℕ) (time : ℤ) (th : Thread (SensorServer × Socket)) (turns : List Turn)
    → th.count_error < max_error_comm
    → max_error_comm ≤ th.count_error + count_bad turns
    → (client_at th.state.0.pool ref).was_replaced ≡ false
    → has ref th.state.0.pool.queue ≡ true
    → (u : SensorServer) × (t : Socket) × (run_client
          (process_packet ref time junk)
          (some (close ref))
          th
          turns
        ≡ closed (u, t))
      × (u.sensors.next_pos ≡ (client_at th.state.0.pool ref).local_id)
      × (u.sensors.active_sensors ≡ th.state.0.sensors.active_sensors -ℤ pos 1)
      × Without ref th.state.0.pool.queue u.pool.queue
unfolding run_client delete_space
run_client_frees ref junk time th turns few enough kept queued =
    let after = run (process_packet ref time junk) th turns in
    let same =
      run-state (process_packet ref time junk) (λ state. Same th.state.0 state.0)
        (λ state p h. process_packet-Same ref junk time th.state.0 state p h) th turns
        (record { pool = refl; active = refl }) in
    let stops = run_stops (process_packet ref time junk) th turns few enough in
    let (u, e, sensors, out) =
      leaves after.state.0 ref (ap (λ p. (client_at p ref).was_replaced) same.pool ∙ kept)
        (ap (λ p. has ref p.queue) same.pool ∙ queued) in
    (
      u,
      after.state.1,
      rw stops (ap (called after.state) (close-some ref after.state u e)),
      ap (λ l. l.next_pos) sensors ∙ ap (λ p. (client_at p ref).local_id) same.pool,
      ap (λ l. l.active_sensors) sensors ∙ ap (λ a. a -ℤ pos 1) same.active,
      subst (λ p. Without ref p.queue u.pool.queue) same.pool out,
    )
