-- ===== src/SensorServer/Threads.antt =====
-- What other threads do to the sensor server: the threads of the clients, and the rest of the program.
use mathlib.Core.Option.{some-injective}
use mundosvirtuales_terremot.Base.{
  ℕ, ◌≡◌, refl, sym, ap, ◌∙◌, inl, inr, true, List, [], ◌∷◌, ◌++◌, some, All, Bool-cases,
  Option-cases, if◌then◌else◌, ◌==◌, ==_iff, subst,
}
use mundosvirtuales_terremot.Base.Int.{ℤ}
use mundosvirtuales_terremot.Sensors.{new_measurement, delete_space}
use mundosvirtuales_terremot.Sensors.Laws.{delete_space-IsValid, append_measure_total}
use mundosvirtuales_terremot.Server.{Pool, client_at, remove_client_from_queue}
use mundosvirtuales_terremot.Server.Laws.{has}
use mundosvirtuales_terremot.Queue.{remove_item}
use mundosvirtuales_terremot.Registry.{RemoteClientData}
use mundosvirtuales_terremot.SensorServer.{SensorServer, remove_client, update_list_sensor}
use mundosvirtuales_terremot.SensorServer.Cases.{update_list_sensor_cases}
use mundosvirtuales_terremot.SensorServer.Placed.{Placed, Keeps}
use mundosvirtuales_terremot.SensorServer.Invariant.{Inv, Inv-Keeps}

-- The server and the pointers to the clients whose threads run.
pub record Run : Type 0 where
  pub server : SensorServer
  pub started : List ℕ

abbrev pub without : ℕ → List ℕ → List ℕ
without ref [] = []
without ref (r ∷ rs) = if r == ref then without ref rs else r ∷ without ref rs

-- A step of another thread than that of the server.
pub data ThreadStep (r : Run) : Run → Type 0 where
  measure :
      (ref payload : ℕ) (time : ℤ) (s : SensorServer)
      → has ref r.started ≡ true
      → update_list_sensor r.server ref payload time ≡ some s
      → ThreadStep r (record { server = s; started = r.started })
  leave :
      (ref : ℕ) (s : SensorServer)
      → has ref r.started ≡ true
      → remove_client r.server ref ≡ some s
      → ThreadStep r (record { server = s; started = without ref r.started })
  -- `addClient` of the alarms writes a record to the file of the sensors.
  record_alarm :
      (x : RemoteClientData)
      → ThreadStep r (record r { server = record (r.server) { file = r.server.file ++ x ∷ [] } })
  -- Another thread numbers packets: the request index is one for the whole program.
  count : (index : ℕ) → ThreadStep r (record r { server = record (r.server) { index = index } })

pub data ThreadSteps (r : Run) : Run → Type 0 where
  unmoved : ThreadSteps r r
  moved : {t u : Run} → ThreadSteps r t → ThreadStep t u → ThreadSteps r u

All-has : (P : ℕ → Type 0) (ref : ℕ) (refs : List ℕ) → All P refs → has ref refs ≡ true → P ref
All-has P ref [] a h = cc
All-has P ref (r ∷ refs) a h = elim (Bool-cases (r == ref)) [
  | inl e ↦ subst P ((==_iff r ref).0 e) a.0
  | inr e ↦ All-has P ref refs a.1 (rw e at h)
]

All-without : (P : ℕ → Type 0) (ref : ℕ) (refs : List ℕ) → All P refs → All P (without ref refs)
All-without P ref [] a = tt
All-without P ref (r ∷ refs) a = elim (Bool-cases (r == ref)) [
  | inl e ↦ rw e (All-without P ref refs a.1)
  | inr e ↦ rw e (a.0, All-without P ref refs a.1)
]

pub update_list_sensor-Inv :
    (s : SensorServer) (started : List ℕ) (ref payload : ℕ) (time : ℤ)
    → Inv s started
    → has ref started ≡ true
    → (t : SensorServer) × (update_list_sensor s ref payload time ≡ some t) × Inv t started
unfolding update_list_sensor
update_list_sensor-Inv s started ref payload time h k =
    let (list, stored, _, _, _, valid) =
      append_measure_total s.sensors (client_at s.pool ref).local_id
        (record new_measurement { timestamp = time; intensity = payload })
        (All-has (Placed s.pool) ref started h.running k).slot h.sensors in
    (
      record s { sensors = list },
      rw (stored, update_list_sensor),
      Inv-Keeps s (record s { sensors = list }) started valid (λ q p. p) refl h,
    )

pub removed :
    (p q : Pool) (ref : ℕ)
    → remove_client_from_queue p ref ≡ some q
    → (rest : List ℕ) × (record p { queue = rest } ≡ q)
unfolding remove_client_from_queue
removed p q ref e = elim (Option-cases (remove_item (λ r. r == ref) p.queue)) [
  | inl n ↦ cc (rw (n, remove_client_from_queue) at e)
  | inr ((found, rest), m) ↦ (rest, some-injective _ _ (rw (m, remove_client_from_queue) at e))
]

Inv-without :
    (s : SensorServer) (started : List ℕ) (ref : ℕ) → Inv s started → Inv s (without ref started)
Inv-without s started ref h = record {
  sensors = h.sensors;
  running = All-without (Placed s.pool) ref started h.running;
  held = h.held;
}

remove_client-Inv :
    (s t : SensorServer) (started : List ℕ) (ref : ℕ)
    → Inv s started
    → has ref started ≡ true
    → remove_client s ref ≡ some t
    → Inv t (without ref started)
unfolding remove_client
remove_client-Inv s t started ref h k e =
    Inv-without t started ref (elim (Option-cases (remove_client_from_queue s.pool ref)) [
      | inl n ↦ cc (rw (n, remove_client) at e)
      | inr (q, m) ↦
          let (rest, same) = removed s.pool q ref m in
          let keeps : Keeps s.pool q =
            subst (Keeps s.pool) same (λ r p. record { known = p.known; slot = p.slot }) in
          elim (Bool-cases (client_at q ref).was_replaced) [
            | inl b ↦
                subst (λ u. Inv u started) (some-injective _ _ (rw (m, b, remove_client) at e))
                  (Inv-Keeps s (record s { pool = q }) started h.sensors keeps refl h)
            | inr b ↦
                subst (λ u. Inv u started) (some-injective _ _ (rw (m, b, remove_client) at e))
                  (Inv-Keeps s
                    (record s {
                      pool = q;
                      sensors = delete_space s.sensors (client_at q ref).local_id;
                    })
                    started
                    (delete_space-IsValid s.sensors _
                      (keeps ref (All-has (Placed s.pool) ref started h.running k)).slot h.sensors)
                    keeps refl h)
          ]
    ])

remove_client-clients :
    (s t : SensorServer) (ref : ℕ) → remove_client s ref ≡ some t → t.pool.clients ≡ s.pool.clients
unfolding remove_client
remove_client-clients s t ref e = elim (Option-cases (remove_client_from_queue s.pool ref)) [
  | inl n ↦ cc (rw (n, remove_client) at e)
  | inr (q, m) ↦
      let (_, same) = removed s.pool q ref m in
      let clients : q.clients ≡ s.pool.clients = sym (ap (λ p. p.clients) same) in
      elim (Bool-cases (client_at q ref).was_replaced) [
        | inl b ↦
            sym (ap (λ u. u.pool.clients) (some-injective _ _ (rw (m, b, remove_client) at e)))
            ∙ clients
        | inr b ↦
            sym (ap (λ u. u.pool.clients) (some-injective _ _ (rw (m, b, remove_client) at e)))
            ∙ clients
      ]
]

pub ThreadStep-Inv : (r u : Run) → ThreadStep r u → Inv r.server r.started → Inv u.server u.started
ThreadStep-Inv r u (measure ref payload time s k e) h =
    let (t, e', inv) = update_list_sensor-Inv r.server r.started ref payload time h k in
    subst (λ q. Inv q r.started) (some-injective _ _ (sym e' ∙ e)) inv
ThreadStep-Inv r u (leave ref s k e) h = remove_client-Inv r.server s r.started ref h k e
ThreadStep-Inv r u (record_alarm x) h = Inv-Keeps r.server _ r.started h.sensors (λ q p. p) refl h
ThreadStep-Inv r u (count index) h = Inv-Keeps r.server _ r.started h.sensors (λ q p. p) refl h

pub ThreadSteps-Inv :
    (r u : Run) → ThreadSteps r u → Inv r.server r.started → Inv u.server u.started
ThreadSteps-Inv r u unmoved h = h
ThreadSteps-Inv r u (moved {t} p st) h = ThreadStep-Inv t u st (ThreadSteps-Inv r t p h)

-- The threads make no clients and forget none.
ThreadStep-clients : (r u : Run) → ThreadStep r u → u.server.pool.clients ≡ r.server.pool.clients
ThreadStep-clients r u (measure ref payload time s k e) =
    let (_, _, result) = update_list_sensor_cases r.server s ref payload time e in
    sym (ap (λ t. t.pool.clients) result)
ThreadStep-clients r u (leave ref s k e) = remove_client-clients r.server s ref e
ThreadStep-clients r u (record_alarm x) = refl
ThreadStep-clients r u (count index) = refl

pub ThreadSteps-clients :
    (r u : Run) → ThreadSteps r u → u.server.pool.clients ≡ r.server.pool.clients
ThreadSteps-clients r u unmoved = refl
ThreadSteps-clients r u (moved {t} p st) = ThreadStep-clients t u st ∙ ThreadSteps-clients r t p
