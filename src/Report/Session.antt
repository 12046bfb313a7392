-- ===== src/Report/Session.antt =====
-- The thread of a sensor's client: src/utils/network/ClientTCP.cpp with `process_packet` of
-- src/server/ResponseSensors.cpp.
use mathlib.Core.Option.{some-injective}
use mundosvirtuales_terremot.Base.{
  ℕ, suc, ◌+◌, ◌<◌, ◌≤◌, ◌≡◌, refl, sym, ap, subst, ◌∙◌, false, List, [], ◌∷◌, ◌++◌, Option, none,
  some, All, arith, leb, length, length-append, ==_self,
}
use mundosvirtuales_terremot.Base.Int.{ℤ, pos}
use mundosvirtuales_terremot.Packet.{Packet, earthquake, command_code, packing, to_bytes}
use mundosvirtuales_terremot.Packet.Laws.{wire, unpacking-wire}
use mundosvirtuales_terremot.Sensors.{Measurement, new_measurement, measure_at, max_size_sensors}
use mundosvirtuales_terremot.Sensors.Laws.{IsValid, append_measure_stores, append_measure_total}
use mundosvirtuales_terremot.Tcp.{Socket}
use mundosvirtuales_terremot.Server.{client_at}
use mundosvirtuales_terremot.Client.{Reply, Thread, Turn, emit, check_errors, handle, run}
use mundosvirtuales_terremot.Channel.Fifo.{IsSent}
use mundosvirtuales_terremot.SensorServer.{SensorServer, update_list_sensor}
use mundosvirtuales_terremot.Response.{process_sensor, plain_answer}

-- `process_packet` on the server and the socket; a write outside of the array is answered by nothing.
abbrev pub sensor_reply :
    SensorServer × Socket → Option (SensorServer × Socket × Packet) → Reply (SensorServer × Socket)
sensor_reply state none = record { state = state; response = none }
sensor_reply state (some (s, t, answer)) = record { state = (s, t); response = some answer }

abbrev pub process_packet :
    ℕ → ℤ → ℕ → SensorServer × Socket → Packet → Reply (SensorServer × Socket)
process_packet ref time junk state p =
    sensor_reply state (process_sensor ref time junk state.0 state.1 p)

-- The passes of the thread that receive the packets.
abbrev pub turns : List Packet → List Turn
turns [] = []
turns (p ∷ ps) = record { stop_request = false; message = some (wire p) } ∷ turns ps

-- The measurement that is in the slot after the packets.
abbrev pub latest : ℤ → Option Measurement → List Packet → Option Measurement
latest time m [] = m
latest time m (p ∷ ps) =
    latest time (some (record new_measurement { timestamp = time; intensity = p.payload })) ps

abbrev pub IsQuake : Packet → Type 0
IsQuake p = IsSent p × (p.header.command ≡ command_code earthquake)

-- The slot of the client is within the well-formed list.
pub record HasSlot (ref i : ℕ) (s : SensorServer) : Type 0 where
  pub valid : IsValid s.sensors
  pub local : (client_at s.pool ref).local_id ≡ pos i
  pub inside : i < max_size_sensors
  pub within : i ≤ s.sensors.max_size

process_packet-quake :
    (ref i junk : ℕ) (time : ℤ) (s : SensorServer) (t : Socket) (p : Packet)
    → HasSlot ref i s
    → p.header.command ≡ command_code earthquake
    → (u : SensorServer) × (process_packet ref time junk (s, t) p
        ≡ record { state = (u, t); response = some (plain_answer junk) })
      × HasSlot ref i u
      × (measure_at u.sensors i
          ≡ some (record new_measurement { timestamp = time; intensity = p.payload }))
unfolding process_sensor update_list_sensor
process_packet-quake ref i junk time s t p h c =
    let m = record new_measurement { timestamp = time; intensity = p.payload } in
    let (list, stored, held) = append_measure_stores s.sensors i i m h.valid h.inside h.within in
    let (again, same, _, size, _, valid) =
      append_measure_total s.sensors (pos i) m h.inside h.valid in
    let equal : again ≡ list = some-injective _ _ (sym same ∙ stored) in
    (
      record s { sensors = again },
      rw (c, h.local, same) refl,
      record { valid = valid; local = h.local; inside = h.inside; within = rw size h.within },
      ap (λ l. measure_at l i) equal ∙ held ∙ rw (==_self i) refl,
    )

handle-wire :
    (ref junk : ℕ) (time : ℤ) (th : Thread (SensorServer × Socket)) (p : Packet)
    (u : SensorServer × Socket)
    → IsSent p
    → process_packet ref time junk th.state p
      ≡ record { state = u; response = some (plain_answer junk) }
    → handle (process_packet ref time junk) th (some (wire p))
      ≡ emit (record th { state = u }) (plain_answer junk)
unfolding handle
handle-wire ref junk time th p u sent e = rw (unpacking-wire p sent.bounds, sent.version, e) refl

-- What a session leaves: the thread goes on, with so many errors and messages, and the measurement in the slot.
abbrev pub Leaves : ℕ → ℕ → ℕ → Option Measurement → Thread (SensorServer × Socket) → Type 0
Leaves i errors messages m after =
    (after.stopped ≡ false)
    × (after.count_error ≡ errors)
    × (length after.output ≡ messages)
    × (measure_at after.state.0.sensors i ≡ m)

-- A sensor's session. The thread of a client with a slot takes every earthquake packet that it receives: it answers
-- each with one message, counts no error and goes on, and the slot holds the last measurement. The packets are
-- as they were sent; fewer than three errors have been counted before.
pub run_stores :
    (ref i junk : ℕ) (time : ℤ) (s : SensorServer) (t : Socket) (index errors : ℕ)
    → (output : List (List ℕ)) (ps : List Packet) → errors < 3
    → HasSlot ref i s
    → All IsQuake ps
    → Leaves i errors (length ps + length output) (latest time (measure_at s.sensors i) ps) (
        run
          (process_packet ref time junk)
          (record {
            state = (s, t);
            index = index;
            count_error = errors;
            stopped = false;
            output = output;
          })
          (turns ps))
unfolding run
run_stores ref i junk time s t index errors output [] few h quakes = (refl, refl, omega arith, refl)
run_stores ref i junk time s t index errors output (p ∷ ps) few h ((sent, c), quakes) =
    let (u, e, h', held) = process_packet-quake ref i junk time s t p h c in
    let (q, index') = packing index (plain_answer junk) in
    let calm : leb 3 errors ≡ false = ground arith in
    let process = process_packet ref time junk in
    let th : Thread (SensorServer × Socket) = record {
      state = (s, t);
      index = index;
      count_error = errors;
      stopped = false;
      output = output;
    } in
    let th' : Thread (SensorServer × Socket) = record {
      state = (u, t);
      index = index';
      count_error = errors;
      stopped = false;
      output = output ++ to_bytes q ∷ [];
    } in
    let (going, count, out, stored) =
      run_stores ref i junk time u t index' errors (output ++ to_bytes q ∷ []) ps few h' quakes in
    let step : run process th (turns (p ∷ ps)) ≡ run process th' (turns ps) =
      ap (λ x. run process (check_errors x) (turns ps))
        (handle-wire ref junk time th p (u, t) sent e)
      ∙ rw calm refl in
    subst
      (Leaves i errors (suc (length ps) + length output)
        (latest time (measure_at s.sensors i) (p ∷ ps)))
      (sym step)
      (
        going,
        count,
        omega (arith, out, length-append output (to_bytes q ∷ [])),
        stored ∙ ap (λ m. latest time m ps) held,
      )
