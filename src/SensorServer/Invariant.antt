-- ===== src/SensorServer/Invariant.antt =====
-- The invariant of the sensor server, and that `addClient` keeps it.
use mundosvirtuales_terremot.Base.{
  ℕ, ◌<◌, ◌≡◌, refl, inl, inr, true, List, [], ◌∷◌, ◌++◌, Option, none, some, arith, length,
  length-append, length-set, get_or, All-imp, All-set, All-append, All_at, subst, set, All,
  Bool-cases,
}
use mundosvirtuales_terremot.Base.Int.{ℤ, pos, leb_ℤ}
use mundosvirtuales_terremot.Sensors.{reserve_space, get_next_local_id}
use mundosvirtuales_terremot.Sensors.Laws.{IsSlot, IsValid, reserve_space-IsValid}
use mundosvirtuales_terremot.Server
use mundosvirtuales_terremot.Server.{
  Client, new_client, Pool, client_at, put_client, stop_client, set_replaced, set_client_id,
  remove_client_from_queue,
}
use mundosvirtuales_terremot.Registry.{new_pair}
use mundosvirtuales_terremot.Handshake.{FloatOps, Exchange, Identity, identify}
use mundosvirtuales_terremot.SensorServer.{
  SensorServer, replace_client, register_client, add_client, add_client_over,
}
use mundosvirtuales_terremot.SensorServer.Cases.{admit_cases, joined, add_client_cases}
use mundosvirtuales_terremot.SensorServer.Placed.{
  Placed, Keeps, Bound, Bound-Keeps, add_client-Keeps, stop_client-Keeps, set_replaced-Keeps,
  set_client_id-Keeps, set_client_id-Placed,
}

-- The slots are in order, and the clients whose threads run and those that registers point at have
-- slots of the array.
pub record Inv (s : SensorServer) (started : List ℕ) : Type 0 where
  pub sensors : IsValid s.sensors
  pub running : All (Placed s.pool) started
  pub held : All (λ r. Bound s.pool r.client) s.registers

pub Inv-Keeps :
    (s t : SensorServer) (started : List ℕ)
    → IsValid t.sensors
    → Keeps s.pool t.pool
    → s.registers ≡ t.registers
    → Inv s started
    → Inv t started
Inv-Keeps s t started v k e h = record {
  sensors = v;
  running = All-imp (Placed s.pool) started k h.running;
  held = subst (All (λ r. Bound t.pool r.client)) e (
      All-imp (λ r. Bound s.pool r.client) s.registers (λ r. Bound-Keeps s.pool t.pool r.client k)
        h.held);
}

-- A register takes the pointer of a client that has a slot.
Inv-bound :
    (s : SensorServer) (started : List ℕ) (ref i : ℕ)
    → Placed s.pool ref
    → Inv s started
    → Inv
        (record s {
          registers =
              set s.registers i (record (get_or s.registers i new_pair) { client = some ref });
        })
        started
Inv-bound s started ref i p h = record {
  sensors = h.sensors;
  running = h.running;
  held = All-set (λ r. Bound s.pool r.client) s.registers i _ p h.held;
}

-- The clients that run after `addClient` returned its pointer.
abbrev pub run_too : Option ℕ → List ℕ → List ℕ
run_too none started = started
run_too (some ref) started = ref ∷ started

abbrev pub Admitted : List ℕ → SensorServer × Option ℕ → Type 0
Admitted started t = Inv t.0 (run_too t.1 started)

-- The new client has got a slot, and the registers are those of `s` with it.
Inv-Placed :
    (s : SensorServer) (started : List ℕ) (ref : ℕ)
    → Inv s started
    → Placed s.pool ref
    → Inv s (ref ∷ started)
Inv-Placed s started ref h p = record {
  sensors = h.sensors;
  running = (p, h.running);
  held = h.held;
}

register_client-Inv :
    (s : SensorServer) (started : List ℕ) (who : Identity) (new_id : ℤ) (ref time : ℕ)
    → ref < length s.pool.clients
    → IsSlot new_id
    → Inv s started
    → Inv (register_client s who new_id ref time) (ref ∷ started)
register_client-Inv s started who new_id ref time k slot h = elim (Bool-cases who.is_new) [
  | inl e ↦ rw e (record {
    sensors = h.sensors;
    running = named.running;
    held =
        All-append (λ r. Bound (set_client_id s.pool ref new_id who.remote_id) r.client) s.registers
          _ named.held (placed, tt);
  })
  | inr e ↦ rw e named
]
  where
    placed : Placed (set_client_id s.pool ref new_id who.remote_id) ref
    placed = set_client_id-Placed s.pool ref new_id who.remote_id k slot

    named : Inv (record s { pool = set_client_id s.pool ref new_id who.remote_id }) (ref ∷ started)
    named =
        Inv-Placed _ started ref
          (Inv-Keeps s _ started h.sensors
            (set_client_id-Keeps s.pool ref new_id who.remote_id slot) refl h)
          placed

replace_client-Inv :
    (s : SensorServer) (started : List ℕ) (new_id remote : ℤ) (ref i : ℕ) (c : Option ℕ)
    → ref < length s.pool.clients
    → IsSlot new_id
    → Bound s.pool c
    → Inv s started
    → Inv (replace_client s new_id remote ref i c) (ref ∷ started)
replace_client-Inv s started new_id remote ref i none k slot b h =
    Inv-Placed _ started ref
      (Inv-bound moved started ref i placed (
        Inv-Keeps s moved started (reserve_space-IsValid s.sensors h.sensors)
          (set_client_id-Keeps s.pool ref new_id remote slot) refl h))
      placed
  where
    moved : SensorServer
    moved = record s {
      sensors = (reserve_space s.sensors).0;
      pool = set_client_id s.pool ref new_id remote;
    }

    placed : Placed moved.pool ref
    placed = set_client_id-Placed s.pool ref new_id remote k slot
replace_client-Inv s started new_id remote ref i (some last) k slot b h =
    Inv-Placed _ started ref
      (Inv-bound moved started ref i placed (Inv-Keeps s moved started h.sensors keeps refl h))
      placed
  where
    local : ℤ
    local = (client_at s.pool last).local_id

    retired : Pool
    retired = set_replaced (stop_client s.pool last) last

    moved : SensorServer
    moved = record s { pool = set_client_id retired ref local remote }

    keeps : Keeps s.pool moved.pool
    keeps q p =
        set_client_id-Keeps retired ref local remote b.slot q
          (set_replaced-Keeps (stop_client s.pool last) last q (stop_client-Keeps s.pool last q p))

    placed : Placed moved.pool ref
    placed =
        set_client_id-Placed retired ref local remote
          (omega (
            arith,
            length-set s.pool.clients last (record (client_at s.pool last) { stopped = true }),
            length-set (stop_client s.pool last).clients last
                (record (client_at (stop_client s.pool last) last) { was_replaced = true }),
          ))
          b.slot

-- Whatever the device sends, `addClient` keeps the invariant, with the client that it returns: the list of sensors is
-- well formed, and the clients whose threads run and those that registers point at have slots of its array.
pub add_client-Inv :
    (f : FloatOps) (s : SensorServer) (started : List ℕ) (x : Exchange)
    → Inv s started
    → Admitted started (add_client f s x)
unfolding get_next_local_id Server.add_client
add_client-Inv f s started x h =
    add_client_cases f s x (Admitted started) (Inv-Keeps s _ started h.sensors stopped refl h) λ _.
      admit_cases (joined f s x) (identify f s.registers x s.index) _ _ _ (Admitted started)
        (Inv-Keeps s _ started h.sensors stopped refl h)
        (Inv-Keeps s _ started reserved stopped refl h)
        (λ valid i e.
          replace_client-Inv (joined f s x) started _ _ _ i _ known h.sensors.next
            (All_at (λ r. Bound (Server.add_client s.pool).0 r.client) s.registers i new_pair tt
              in_queue.held)
            in_queue)
        (λ valid e b.
          register_client-Inv _ started (identify f s.registers x s.index) _ _ x.time known
            h.sensors.next (Inv-Keeps s _ started reserved (add_client-Keeps s.pool) refl h))
  where
    reserved : IsValid (reserve_space s.sensors).0
    reserved = reserve_space-IsValid s.sensors h.sensors

    stopped : Keeps s.pool (stop_client (Server.add_client s.pool).0 (length s.pool.clients))
    stopped q p = stop_client-Keeps _ _ q (add_client-Keeps s.pool q p)

    in_queue : Inv (joined f s x) started
    in_queue = Inv-Keeps s (joined f s x) started h.sensors (add_client-Keeps s.pool) refl h

    known : length s.pool.clients < length (s.pool.clients ++ new_client ∷ [])
    known = omega (arith, length-append s.pool.clients (new_client ∷ []))

-- The same while other threads go on, if they keep the invariant and the new client.
pub add_client_over-Inv :
    (f : FloatOps) (s t : SensorServer) (started : List ℕ) (x : Exchange)
    → IsValid s.sensors
    → (Server.add_client s.pool).1 < length t.pool.clients
    → Inv t started
    → Admitted started (add_client_over f s x t)
unfolding add_client_over get_next_local_id Server.add_client
add_client_over-Inv f s t started x valid known h =
    elim (Bool-cases (leb_ℤ (pos 0) (get_next_local_id s.sensors))) [
      | inr e ↦ rw e (Inv-Keeps t _ started h.sensors stopped refl h)
      | inl e ↦ rw e (
          admit_cases t (identify f s.registers x s.index) _ _ _ (Admitted started)
            (Inv-Keeps t _ started h.sensors stopped refl h)
            (Inv-Keeps t _ started reserved stopped refl h)
            (λ ok i found.
              replace_client-Inv t started _ _ _ i _ known valid.next
                (All_at (λ r. Bound t.pool r.client) t.registers i new_pair tt h.held) h)
            (λ ok absent b.
              register_client-Inv _ started (identify f s.registers x s.index) _ _ x.time known
                valid.next (Inv-Keeps t _ started reserved (λ q p. p) refl h)))
    ]
  where
    reserved : IsValid (reserve_space t.sensors).0
    reserved = reserve_space-IsValid t.sensors h.sensors

    stopped : Keeps t.pool (stop_client t.pool (Server.add_client s.pool).1)
    stopped = stop_client-Keeps t.pool (Server.add_client s.pool).1
