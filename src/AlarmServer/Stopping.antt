-- ===== src/AlarmServer/Stopping.antt =====
-- `stop` of ServerAlarm and the loop of `run`.
use mundosvirtuales_terremot.Base.{
  ℕ, ◌≡◌, refl, ap, ◌∙◌, Bool, true, false, not, ◌||◌, inl, inr, List, [], ◌∷◌, Option, none, some,
  All, arith, Bool-cases, ltb, length, length-append,
}
use mundosvirtuales_terremot.Base.Int.{ℤ, pos, leb_ℤ, ltb_ℤ}
use mundosvirtuales_terremot.Queue.{add}
use mundosvirtuales_terremot.Server
use mundosvirtuales_terremot.Server.{Pool, exist_client, client_at}
use mundosvirtuales_terremot.Server.Accept.{Pass, Serving, serving, accept_loop}
use mundosvirtuales_terremot.Handshake.{FloatOps, Exchange, Identity, identify}
use mundosvirtuales_terremot.Registry.{find_register, new_pair}
use mundosvirtuales_terremot.Base.{get_or}
use mundosvirtuales_terremot.AlarmServer.{
  AlarmServer, next_local_id, add_client, admit, admit_at, register_client, replace_client,
}

-- The loop of the alarm server; `exchange` is what a socket's client sends.
abbrev pub serve :
    FloatOps → (ℤ → Exchange) → AlarmServer → List (Pass AlarmServer) → Serving AlarmServer
serve f exchange = accept_loop (λ s. s.pool) (λ s socket. (add_client f s (exchange socket)).0)

-- The other threads leave some client in the queue.
abbrev pub Leaves : Pass AlarmServer → Type 0
Leaves p = (s : AlarmServer) → exist_client s.pool ≡ true → exist_client (p.others s).pool ≡ true

exist_client_if : (p q : Pool) → p.queue ≡ q.queue → exist_client p ≡ exist_client q
unfolding exist_client
exist_client_if p q e = ap (λ l. ltb 0 (length l)) e

replace_client_queue :
    (s : AlarmServer) (new_id remote : ℤ) (ref i : ℕ) (last : Option ℕ)
    → (replace_client s new_id remote ref i last).pool.queue ≡ s.pool.queue
replace_client_queue s new_id remote ref i none = refl
replace_client_queue s new_id remote ref i (some last) = refl

register_client_queue :
    (s : AlarmServer) (who : Identity) (new_id : ℤ) (ref time : ℕ)
    → (register_client s who new_id ref time).pool.queue ≡ s.pool.queue
register_client_queue s who new_id ref time = elim (Bool-cases who.is_new) [
  | inl e ↦ rw e refl
  | inr e ↦ rw e refl
]

admit_at_queue :
    (s : AlarmServer) (who : Identity) (new_id : ℤ) (ref time : ℕ) (found : Option ℕ)
    → (admit_at s who new_id ref time found).0.pool.queue ≡ s.pool.queue
admit_at_queue s who new_id ref time none = register_client_queue s who new_id ref time
admit_at_queue s who new_id ref time (some i) =
    replace_client_queue s new_id who.remote_id ref i (get_or s.registers i new_pair).client

admit_queue :
    (s : AlarmServer) (who : Identity) (new_id : ℤ) (ref time : ℕ)
    → (admit s who new_id ref time).0.pool.queue ≡ s.pool.queue
unfolding admit
admit_queue s who new_id ref time = elim (Bool-cases who.valid) [
  | inl e ↦
      rw (e, admit) (admit_at_queue s who new_id ref time (find_register who.remote_id s.registers))
  | inr e ↦ rw (e, admit) refl
]

add-exists : (q : List ℕ) (ref : ℕ) → ltb 0 (length (add q ref)) ≡ true
unfolding add
add-exists q ref = ground (arith, length-append q (ref ∷ []))

add_client_exists :
    (f : FloatOps) (s : AlarmServer) (x : Exchange) → exist_client (add_client f s x).0.pool ≡ true
unfolding add_client exist_client Server.add_client
add_client_exists f s x = elim (Bool-cases (leb_ℤ (pos 0) (next_local_id s))) [
  | inl e ↦
      rw (e, add_client)
        (ap (λ l. ltb 0 (length l))
            (admit_queue _ (identify f s.registers x s.index) (next_local_id s)
              (length s.pool.clients) x.time)
          ∙ add-exists s.pool.queue (length s.pool.clients))
  | inr e ↦ rw (e, add_client) (add-exists s.pool.queue (length s.pool.clients))
]

or_true : (b : Bool) → (b || true) ≡ true
or_true true = refl
or_true false = refl

-- The alarm server does not stop while some client is in its queue. `stop` of ServerAlarm sets `m_stop` and
-- waits for the thread, without closing the clients; as long as the client threads leave some client in the queue, the
-- loop of `run` goes on, whatever `m_stop` is and whatever connections arrive.
pub serve_goes_on :
    (f : FloatOps) (exchange : ℤ → Exchange) (s : AlarmServer) (ps : List (Pass AlarmServer))
    → exist_client s.pool ≡ true
    → All Leaves ps
    → (t : AlarmServer) × (serve f exchange s ps ≡ serving t) × (exist_client t.pool ≡ true)
unfolding accept_loop
serve_goes_on f exchange s [] e leaves = (s, refl, e)
serve_goes_on f exchange s (p ∷ ps) e (l, leaves) =
    let t = p.others s in
    let still : exist_client t.pool ≡ true = l s e in
    let goes_on : (not p.is_stopped || exist_client t.pool) ≡ true =
      rw still (or_true (not p.is_stopped)) in
    elim (Bool-cases (ltb_ℤ (pos 0) p.socket)) [
      | inr k ↦ rw (goes_on, k, serve) (serve_goes_on f exchange t ps still leaves)
      | inl k ↦
          rw (goes_on, k, serve)
            (serve_goes_on f exchange (add_client f t (exchange p.socket)).0 ps
              (add_client_exists f t (exchange p.socket)) leaves)
    ]
