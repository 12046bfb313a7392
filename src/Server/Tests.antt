-- ===== src/Server/Tests.antt =====
-- Runs of the connected clients.

use mundosvirtuales_terremot.Base.{ℕ, ◌*◌, ◌≡◌, refl, true, [], ◌∷◌, none, arith}
use mundosvirtuales_terremot.Server.{
  Pool, new_client, client_at, close_all_clients, remove_client_from_queue,
}
use mundosvirtuales_terremot.Server.Laws.{close_all_clients_strands}

abbrev pool : Pool
pool = record { clients = new_client ∷ new_client ∷ []; queue = 0 ∷ 1 ∷ [] }

close_all_clients_strands_example :
    let q = close_all_clients pool in
    (q.queue ≡ []) × ((client_at q 1).stopped ≡ true) × (remove_client_from_queue q 1 ≡ none)
close_all_clients_strands_example = close_all_clients_strands pool 1 (omega arith) refl

abbrev rand : ℕ → ℕ
rand n = n * 1103515245
