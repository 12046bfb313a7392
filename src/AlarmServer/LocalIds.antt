-- ===== src/AlarmServer/LocalIds.antt =====
-- src/server/ServerAlarm.cpp: the local identifications that `m_nextID` hands out, and what `remove_client_from_queue` does to it.
use mathlib.Core.Option.{some-injective}
use mundosvirtuales_terremot.Base.{
  ℕ, suc, ◌<◌, ◌≡◌, refl, sym, ap, ◌∙◌, Bool, true, false, ◌||◌, inl, inr, List, [], ◌∷◌, ◌++◌,
  none, some, arith, length, length-append, get_or, get_or-append, Option-cases, ◌==◌, ==_self,
  Bool-cases, subst, get_or-set_self, get_or-set_ne, length-set,
}
use mundosvirtuales_terremot.Base.Int.{ℤ, pos, leb_ℤ, ◌+ℤ◌}
use mundosvirtuales_terremot.Queue.{add}
use mundosvirtuales_terremot.Server
use mundosvirtuales_terremot.Server.{
  new_client, Pool, client_at, put_client, set_client_id, remove_client_from_queue,
}
use mundosvirtuales_terremot.Server.Laws.{has}
use mundosvirtuales_terremot.Registry.{find_register}
use mundosvirtuales_terremot.Handshake.{FloatOps, Exchange, Identity, identify}
use mundosvirtuales_terremot.SensorServer.Threads.{removed}
use mundosvirtuales_terremot.AlarmServer.{
  AlarmServer, register_client, admit, add_client, remove_client,
}
use mundosvirtuales_terremot.AlarmServer.Laws.{joined}

-- A device that the exchange identifies, and that has no register yet.
pub record IsNewcomer (f : FloatOps) (s : AlarmServer) (x : Exchange) : Type 0 where
  pub valid : (identify f s.registers x s.index).valid ≡ true
  pub unknown : find_register (identify f s.registers x s.index).remote_id s.registers ≡ none

-- The pointer that the next client gets.
abbrev pub next_ref : AlarmServer → ℕ
next_ref s = length s.pool.clients

register_client-pool :
    (s : AlarmServer) (who : Identity) (new_id : ℤ) (ref time : ℕ)
    → ((register_client s who new_id ref time).pool ≡ set_client_id s.pool ref new_id who.remote_id)
      × ((register_client s who new_id ref time).next_id ≡ s.next_id +ℤ pos 1)
register_client-pool s who new_id ref time = elim (Bool-cases who.is_new) [
  | inl e ↦ rw e (refl, refl)
  | inr e ↦ rw e (refl, refl)
]

newcomer-register :
    (f : FloatOps) (s : AlarmServer) (x : Exchange) (k : ℕ)
    → IsNewcomer f s x
    → s.next_id ≡ pos k
    → (add_client f s x).0
      ≡ register_client
          (joined f s x)
          (identify f s.registers x s.index)
          s.next_id
          (next_ref s)
          x.time
unfolding add_client admit Server.add_client
newcomer-register f s x k n e =
    let taken : leb_ℤ (pos 0) s.next_id ≡ true = rw e (ground arith) in
    rw (taken, n.valid, n.unknown) refl

-- The pool `q` is `p` with one client more, with the local identification `local`.
abbrev Joins : Pool → ℤ → Pool → Type 0
Joins p local q =
    ((client_at q (length p.clients)).local_id ≡ local)
    × (length q.clients ≡ suc (length p.clients))
    × (q.queue ≡ p.queue ++ length p.clients ∷ [])
    × ((other : ℕ) → other < length p.clients → client_at q other ≡ client_at p other)

set_client_id-Joins :
    (p : Pool) (local remote : ℤ)
    → Joins p local (set_client_id (Server.add_client p).0 (length p.clients) local remote)
unfolding Server.add_client add
set_client_id-Joins p local remote =
    let cs = p.clients ++ new_client ∷ [] in
    let size : length cs ≡ suc (length p.clients) =
      omega (arith, length-append p.clients (new_client ∷ [])) in
    (
      ap (λ c. c.local_id)
          (get_or-set_self cs (length p.clients) _ new_client (omega (arith, size))),
      length-set cs (length p.clients) _ ∙ size,
      refl,
      λ other h.
          get_or-set_ne cs (length p.clients) other _ new_client (omega arith)
          ∙ get_or-append p.clients new_client new_client other h,
    )

-- A newcomer gets the value of m_nextID, which is counted up; the other clients keep theirs.
newcomer :
    (f : FloatOps) (s : AlarmServer) (x : Exchange) (k : ℕ)
    → IsNewcomer f s x
    → s.next_id ≡ pos k
    → ((add_client f s x).0.next_id ≡ pos (suc k)) × Joins s.pool (pos k) (add_client f s x).0.pool
newcomer f s x k n e =
    let who = identify f s.registers x s.index in
    let registered = newcomer-register f s x k n e in
    let (pool, next) = register_client-pool (joined f s x) who s.next_id (next_ref s) x.time in
    (
      ap (λ u. u.next_id) registered ∙ next ∙ rw e (ground arith),
      subst (Joins s.pool (pos k)) (sym (ap (λ u. u.pool) registered ∙ pool)) (
          subst
            (λ l.
              Joins s.pool l
                (set_client_id (Server.add_client s.pool).0 (next_ref s) s.next_id who.remote_id))
            e (set_client_id-Joins s.pool s.next_id who.remote_id)),
    )

-- What the departure of a client that was not replaced leaves.
left :
    (s t : AlarmServer) (last : ℕ)
    → (client_at s.pool last).was_replaced ≡ false
    → remove_client s last ≡ some t
    → (t.next_id ≡ (client_at s.pool last).local_id) × (t.pool.clients ≡ s.pool.clients)
unfolding remove_client
left s t last kept e = elim (Option-cases (remove_client_from_queue s.pool last)) [
  | inl n ↦ cc (rw (n, remove_client) at e)
  | inr (q, m) ↦
      let (rest, same) = removed s.pool q last m in
      let clients : q.clients ≡ s.pool.clients = sym (ap (λ p. p.clients) same) in
      let stays : (client_at q last).was_replaced ≡ false =
        ap (λ cs. (get_or cs last new_client).was_replaced) clients ∙ kept in
      let result : record s { pool = q; next_id = (client_at q last).local_id } ≡ t =
        some-injective _ _ (rw (m, stays, remove_client) at e) in
      (
        sym (ap (λ u. u.next_id) result) ∙ ap (λ cs. (get_or cs last new_client).local_id) clients,
        sym (ap (λ u. u.pool.clients) result) ∙ clients,
      )
]

has-append : (ref r : ℕ) (q : List ℕ) → has ref (q ++ r ∷ []) ≡ (has ref q || r == ref)
has-append ref r [] = ground arith
has-append ref r (x ∷ q) = ground (arith, has-append ref r q)

-- After an alarm with the local identification `k` has left, without having been replaced, the second of two
-- newcomers gets the local identification of an alarm that has `k + 1` and is still in the queue: two
-- clients of the queue have the same.
pub second_newcomer_shares :
    (f : FloatOps) (s t : AlarmServer) (last other k : ℕ) (x y : Exchange)
    → (client_at s.pool last).was_replaced ≡ false
    → (client_at s.pool last).local_id ≡ pos k
    → remove_client s last ≡ some t
    → other < length s.pool.clients
    → (client_at s.pool other).local_id ≡ pos (suc k)
    → has other t.pool.queue ≡ true
    → IsNewcomer f t x
    → IsNewcomer f (add_client f t x).0 y
    → let u = (add_client f (add_client f t x).0 y).0 in
      let second = suc (length s.pool.clients) in
      ((client_at u.pool second).local_id ≡ (client_at u.pool other).local_id)
      × (other < second)
      × (has other u.pool.queue ≡ true)
      × (has second u.pool.queue ≡ true)
second_newcomer_shares f s t last other k x y kept had e inside next queued n m =
    let (id, clients) = left s t last kept e in
    let size = ap length clients in
    let (id1, (local1, size1, queue1, others1)) = newcomer f t x k n (id ∙ had) in
    let (id2, (local2, size2, queue2, others2)) = newcomer f (add_client f t x).0 y (suc k) m id1 in
    let count : length (add_client f t x).0.pool.clients ≡ suc (length s.pool.clients) =
      omega arith in
    (
      ap (λ r. (client_at (add_client f (add_client f t x).0 y).0.pool r).local_id) (sym count)
          ∙ local2
          ∙ sym next
          ∙ ap (λ c. c.local_id)
              (sym (
                others2 other (omega arith)
                ∙ others1 other (omega arith)
                ∙ ap (λ cs. get_or cs other new_client) clients)),
      omega arith,
      rw (queue2, has-append other, queue1, has-append other, queued) refl,
      rw (queue2, has-append (suc (length s.pool.clients)), count, ==_self)
          (or_true (has (suc (length s.pool.clients)) (add_client f t x).0.pool.queue)),
    )
  where
    or_true : (b : Bool) → (b || true) ≡ true
    or_true true = refl
    or_true false = refl
