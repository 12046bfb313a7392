-- ===== src/Server/Laws.antt =====
-- Closing the clients of a server, and what their threads find then.
use mathlib.Core.Option.{some-injective}
use native.Mathlib.Nat.{le_refl}
use mundosvirtuales_terremot.Base.{
  ℕ, zero, suc, ◌≤◌, ◌<◌, ◌≡◌, refl, sym, ap, ◌∙◌, ◌⊎◌, inl, inr, Bool, true, false, List, [], ◌∷◌,
  none, some, arith, Bool-cases, length, get_or-set_self, get_or-set_ne, ◌||◌, ==_iff, ◌==◌,
  length-set,
}
use mundosvirtuales_terremot.Queue.{remove, remove_item, pop_back}
use mundosvirtuales_terremot.Server.{
  new_client, Pool, client_at, stop_client, close_clients, close_all_clients,
  remove_client_from_queue,
}

pop_back-length : (x : ℕ) (xs : List ℕ) → length (pop_back x xs).1 ≡ length xs
unfolding pop_back
pop_back-length x [] = refl
pop_back-length x (y ∷ xs) = ap suc (pop_back-length y xs)

remove-length :
    (q : List ℕ)
    → ((q ≡ []) × (remove q ≡ none))
      ⊎ ((ref : ℕ) × (rest : List ℕ) × (remove q ≡ some (ref, rest))
          × (length q ≡ suc (length rest)))
unfolding remove
remove-length [] = inl (refl, refl)
remove-length (x ∷ q) =
    inr ((pop_back x q).0, (pop_back x q).1, refl, ap suc (sym (pop_back-length x q)))

close_clients-queue :
    (fuel : ℕ) (p : Pool) → length p.queue ≤ fuel → (close_clients fuel p).queue ≡ []
unfolding close_clients
close_clients-queue zero p h = elim (remove-length p.queue) [
  | inl (e, _) ↦ e
  | inr (ref, rest, _, e) ↦ absurd (omega arith)
]
close_clients-queue (suc fuel) p h = elim (remove-length p.queue) [
  | inl (e, r) ↦ rw (r, close_clients) e
  | inr (ref, rest, r, e) ↦ rw (r, close_clients) (close_clients-queue fuel _ (omega arith))
]

pub close_all_clients_queue : (p : Pool) → (close_all_clients p).queue ≡ []
unfolding close_all_clients
close_all_clients_queue p = close_clients-queue (length p.queue) p (omega arith)

-- A pointer is in the queue.
abbrev pub has : ℕ → List ℕ → Bool
has ref [] = false
has ref (r ∷ rs) = r == ref || has ref rs

has-pop_back :
    (ref x : ℕ) (xs : List ℕ)
    → has ref (x ∷ xs) ≡ ((pop_back x xs).0 == ref || has ref (pop_back x xs).1)
unfolding pop_back
has-pop_back ref x [] = refl
has-pop_back ref x (y ∷ xs) = ground (arith, has-pop_back ref y xs)

has-remove :
    (ref r : ℕ) (q rest : List ℕ)
    → remove q ≡ some (r, rest)
    → has ref q ≡ (r == ref || has ref rest)
unfolding remove
has-remove ref r [] rest e = cc
has-remove ref r (x ∷ q) rest e =
    has-pop_back ref x q ∙ ap (λ t. t.0 == ref || has ref t.1) (some-injective _ _ e)

stop_client-stopped :
    (p : Pool) (ref r : ℕ)
    → ref < length p.clients
    → ((r ≡ ref) ⊎ ((client_at p ref).stopped ≡ true))
    → (client_at (stop_client p r) ref).stopped ≡ true
stop_client-stopped p ref r h d = elim (Bool-cases (r == ref)) [
  | inl e ↦
      ground
        (arith, get_or-set_self p.clients r (record (client_at p r) { stopped = true }) new_client)
  | inr e ↦
      ground (
        arith,
        get_or-set_ne p.clients r ref (record (client_at p r) { stopped = true }) new_client,
      )
]

not_queued :
    (p : Pool) (ref : ℕ)
    → p.queue ≡ []
    → ((has ref p.queue ≡ true) ⊎ ((client_at p ref).stopped ≡ true))
    → (client_at p ref).stopped ≡ true
not_queued p ref e (inl h) = cc (ap (has ref) e)
not_queued p ref e (inr h) = h

queued_or_stopped :
    (p : Pool) (ref r : ℕ) (rest : List ℕ)
    → remove p.queue ≡ some (r, rest)
    → ref < length p.clients
    → ((has ref p.queue ≡ true) ⊎ ((client_at p ref).stopped ≡ true))
    → (has ref rest ≡ true)
      ⊎ ((client_at (stop_client (record p { queue = rest }) r) ref).stopped ≡ true)
queued_or_stopped p ref r rest m k (inl h) = elim (Bool-cases (r == ref)) [
  | inl e ↦ inr (stop_client-stopped (record p { queue = rest }) ref r k (inl ((==_iff r ref).0 e)))
  | inr e ↦ inl (ground (arith, has-remove ref r p.queue rest m))
]
queued_or_stopped p ref r rest m k (inr h) =
    inr (stop_client-stopped (record p { queue = rest }) ref r k (inr h))

close_clients-stopped :
    (fuel : ℕ) (p : Pool) (ref : ℕ)
    → length p.queue ≤ fuel
    → ref < length p.clients
    → ((has ref p.queue ≡ true) ⊎ ((client_at p ref).stopped ≡ true))
    → (client_at (close_clients fuel p) ref).stopped ≡ true
unfolding close_clients
close_clients-stopped zero p ref h k d = elim (remove-length p.queue) [
  | inl (e, _) ↦ not_queued p ref e d
  | inr (r, rest, _, e) ↦ absurd (omega arith)
]
close_clients-stopped (suc fuel) p ref h k d = elim (remove-length p.queue) [
  | inl (e, r) ↦ rw (r, close_clients) (not_queued p ref e d)
  | inr (r, rest, m, e) ↦
      rw (m, close_clients)
        (close_clients-stopped fuel (stop_client (record p { queue = rest }) r) ref (omega arith)
          (rw (length-set p.clients r (record (client_at p r) { stopped = true })) k)
          (queued_or_stopped p ref r rest m k d))
]

-- `close_all_clients` empties the queue and has stopped every client that stood in it; on the queue as it is
-- then, the call of `remove_client_from_queue` with which the thread of such a client ends waits.
pub close_all_clients_strands :
    (p : Pool) (ref : ℕ)
    → ref < length p.clients
    → has ref p.queue ≡ true
    → let q = close_all_clients p in
      (q.queue ≡ []) × ((client_at q ref).stopped ≡ true) × (remove_client_from_queue q ref ≡ none)
unfolding close_all_clients remove_client_from_queue remove_item
close_all_clients_strands p ref k d =
    let empty = close_clients-queue (length p.queue) p (le_refl _) in
    (
      empty,
      close_clients-stopped (length p.queue) p ref (le_refl _) k (inl d),
      rw (empty, remove_client_from_queue) refl,
    )
