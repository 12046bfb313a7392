-- ===== src/SensorServer/History.antt =====
-- Histories of the sensor server: connections, measurements and departures, and what the rest of the program does to the
-- file and to the request index, in any order, also while a new client is being identified.

use mundosvirtuales_terremot.Base.{
  ℕ, ◌≡◌, refl, ap, length, length-append, arith, true, List, [], ◌∷◌, Option, none, some, All,
}
use mundosvirtuales_terremot.Base.Int.{ℤ}
use mundosvirtuales_terremot.Sensors.Laws.{IsValid, new_list-IsValid}
use mundosvirtuales_terremot.Server
use mundosvirtuales_terremot.Server.{Pool, new_client, client_at, remove_client_from_queue}
use mundosvirtuales_terremot.Server.Laws.{has}
use mundosvirtuales_terremot.Registry.{RemoteClientData, load, load_records}
use mundosvirtuales_terremot.Handshake.{FloatOps, Exchange}
use mundosvirtuales_terremot.SensorServer.{
  SensorServer, start, add_client, add_client_over, update_list_sensor,
}
use mundosvirtuales_terremot.SensorServer.Placed.{Bound, add_client-Keeps}
use mundosvirtuales_terremot.SensorServer.Invariant.{
  Inv, Inv-Keeps, run_too, add_client-Inv, add_client_over-Inv,
}
use mundosvirtuales_terremot.SensorServer.Threads.{
  Run, ThreadStep, ThreadSteps, ThreadStep-Inv, ThreadSteps-Inv, ThreadSteps-clients,
  update_list_sensor-Inv,
}

-- `run` of the server starts the thread of a client that `addClient` returns.
abbrev pub connected : FloatOps → Run → Exchange → Run
connected f r x =
    let (s, client) = add_client f r.server x in
    record { server = s; started = run_too client r.started }

-- The new client is in the queue.
abbrev pub opened : Run → Run
opened r = record r { server = record (r.server) { pool = (Server.add_client r.server.pool).0 } }

-- The same where other threads have come to `t` since then.
abbrev pub connected_over : FloatOps → Run → Exchange → Run → Run
connected_over f r x t =
    let (s, client) = add_client_over f r.server x t.server in
    record { server = s; started = run_too client t.started }

pub data Step (f : FloatOps) (r : Run) : Run → Type 0 where
  connect : (x : Exchange) → Step f r (connected f r x)
  connect_over :
      (x : Exchange) (t : Run) → ThreadSteps (opened r) t → Step f r (connected_over f r x t)
  other : {u : Run} → ThreadStep r u → Step f r u

pub data Reach (f : FloatOps) (r : Run) : Run → Type 0 where
  here : Reach f r r
  next : {t u : Run} → Reach f r t → Step f t u → Reach f r u

abbrev pub begin : Option (List RemoteClientData) → ℕ → Run
begin file index = record { server = start file index; started = [] }

load_records-Bound :
    (p : Pool) (records : List RemoteClientData)
    → All (λ r. Bound p r.client) (load_records records)
unfolding load_records
load_records-Bound p [] = (tt, tt)
load_records-Bound p (r ∷ rs) = (tt, load_records-Bound p rs)

pub start-Inv : (file : Option (List RemoteClientData)) (index : ℕ) → Inv (start file index) []
unfolding start load
start-Inv none index = record { sensors = new_list-IsValid; running = tt; held = tt }
start-Inv (some records) index = record {
  sensors = new_list-IsValid;
  running = tt;
  held = load_records-Bound _ records;
}

opened-Inv : (r : Run) → Inv r.server r.started → Inv (opened r).server r.started
opened-Inv r h =
    Inv-Keeps r.server (opened r).server r.started h.sensors (add_client-Keeps r.server.pool) refl h

Step-Inv : (f : FloatOps) (r u : Run) → Step f r u → Inv r.server r.started → Inv u.server u.started
unfolding Server.add_client
Step-Inv f r u (connect x) h = add_client-Inv f r.server r.started x h
Step-Inv f r u (connect_over x t p) h =
    add_client_over-Inv f r.server t.server t.started x h.sensors
      (omega (
        arith,
        ap length (ThreadSteps-clients (opened r) t p),
        length-append r.server.pool.clients (new_client ∷ []),
      ))
      (ThreadSteps-Inv (opened r) t p (opened-Inv r h))
Step-Inv f r u (other st) h = ThreadStep-Inv r u st h

Reach-Inv :
    (f : FloatOps) (r u : Run) → Reach f r u → Inv r.server r.started → Inv u.server u.started
Reach-Inv f r u here h = h
Reach-Inv f r u (next {t} p st) h = Step-Inv f t u st (Reach-Inv f r t p h)

-- In every history from a start of the server, whatever the file holds and whatever the devices send,
-- a measurement of a running client is accepted without a write outside of the array, and leaves
-- the list of sensors well formed.
pub measure_safe :
    (f : FloatOps) (file : Option (List RemoteClientData)) (index : ℕ) (r : Run)
    → (ref payload : ℕ) (time : ℤ) → Reach f (begin file index) r
    → has ref r.started ≡ true
    → (s : SensorServer) × (update_list_sensor r.server ref payload time ≡ some s)
      × IsValid s.sensors
measure_safe f file index r ref payload time p k =
    let h = Reach-Inv f (begin file index) r p (start-Inv file index) in
    let (s, e, inv) = update_list_sensor-Inv r.server r.started ref payload time h k in
    (s, e, inv.sensors)
