-- ===== src/SensorServer/Serving.antt =====
-- The loop of `run` of the sensor server, and how it ends.
use mundosvirtuales_terremot.Base.{refl, false, ◌≡◌, not, ◌||◌, List, [], ◌∷◌}
use mundosvirtuales_terremot.Base.Int.{ℤ}
use mundosvirtuales_terremot.Server.{exist_client, close_all_clients}
use mundosvirtuales_terremot.Server.Accept
use mundosvirtuales_terremot.Server.Accept.{Pass, Serving, ended, serving, accept_loop}
use mundosvirtuales_terremot.Handshake.{FloatOps, Exchange}
use mundosvirtuales_terremot.Server.Laws.{close_all_clients_queue}
use mundosvirtuales_terremot.SensorServer.Threads.{Run}
use mundosvirtuales_terremot.SensorServer.History.{connected}

-- The loop of the sensor server; `exchange` is what a socket's client sends.
abbrev pub serve : FloatOps → (ℤ → Exchange) → Run → List (Pass Run) → Serving Run
serve f exchange = accept_loop (λ r. r.server.pool) (λ r socket. connected f r (exchange socket))

-- The other threads put no client into an empty queue.
abbrev pub Quiet : Pass Run → Type 0
Quiet p = (r : Run) → r.server.pool.queue ≡ [] → (p.others r).server.pool.queue ≡ []

-- After `stop` has closed the clients, the loop of the sensor server ends at its next test, if `m_stop` is set by
-- then and no other thread has put a client into the queue.
pub serve_ends :
    (f : FloatOps) (exchange : ℤ → Exchange) (r : Run) (p : Pass Run) (ps : List (Pass Run))
    → p.is_stopped ≡ (Accept.stop r.server.pool).1
    → Quiet p
    → let closed : Run = record r {
      server = record (r.server) { pool = (Accept.stop r.server.pool).0 };
    } in
      serve f exchange closed (p ∷ ps) ≡ ended (p.others closed)
unfolding accept_loop Accept.stop exist_client
serve_ends f exchange r p ps s quiet =
    let closed : Run = record r {
      server = record (r.server) { pool = close_all_clients r.server.pool };
    } in
    let none_left : (p.others closed).server.pool.queue ≡ [] =
      quiet closed (close_all_clients_queue r.server.pool) in
    let ends : (not p.is_stopped || exist_client (p.others closed).server.pool) ≡ false =
      rw (s, none_left) refl in
    rw (ends, serve) refl
