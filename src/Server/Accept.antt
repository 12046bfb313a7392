-- ===== src/Server/Accept.antt =====
-- src/utils/network/ServerTCP.cpp, `run`: the loop that accepts the clients, over any `addClient`. A pass is a test of the
-- loop: what the other threads did before it, whether `m_stop` is set, and the result of `acceptClient` if the body runs; a list
-- of passes that ends while the loop runs is a thread that goes on.
use mundosvirtuales_terremot.Base.{Bool, true, not, ◌||◌, List, [], ◌∷◌, if◌then◌else◌}
use mundosvirtuales_terremot.Base.Int.{ℤ, pos, ltb_ℤ}
use mundosvirtuales_terremot.Server.{Pool, exist_client, close_all_clients}

pub record Pass (State : Type 0) : Type 0 where
  pub others : State → State
  pub is_stopped : Bool
  pub socket : ℤ

pub data Serving (State : Type 0) : Type 0 where
  ended : State → Serving State
  serving : State → Serving State

module _ {State : Type 0} (pool : State → Pool) (add_client : State → ℤ → State) where
  -- The body of the loop: `add_client` is `addClient` and the start of the thread of the client that it returns.
  abbrev pub accept : State → ℤ → State
  accept s socket = if ltb_ℤ (pos 0) socket then add_client s socket else s

  unfoldable pub accept_loop : State → List (Pass State) → Serving State
  unfolding exist_client
  accept_loop s [] = serving s
  accept_loop s (p ∷ ps) =
      let t = p.others s in
      let more = accept_loop (accept t p.socket) ps in
      if not p.is_stopped || exist_client (pool t) then more else ended t

-- `stop` of ServerTCP up to the join: the clients are closed and `m_stop` is set.
unfoldable pub stop : Pool → Pool × Bool
unfolding close_all_clients
stop p = (close_all_clients p, true)
