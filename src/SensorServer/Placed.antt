-- ===== src/SensorServer/Placed.antt =====
-- Clients of the store that have a slot of the array, and the changes that keep it so.
use mundosvirtuales_terremot.Base.{
  ℕ, ◌<◌, ◌≡◌, sym, inl, inr, [], ◌∷◌, Option, none, some, arith, length, length-append, length-set,
  get_or-append, subst, get_or-set_self, get_or-set_ne, Bool-cases, ◌==◌, ==_iff,
}
use mundosvirtuales_terremot.Base.Int.{ℤ}
use mundosvirtuales_terremot.Sensors.Laws.{IsSlot}
use mundosvirtuales_terremot.Server
use mundosvirtuales_terremot.Server.{
  Client, new_client, Pool, client_at, put_client, stop_client, set_replaced, set_client_id,
  remove_client_from_queue,
}

-- A pointer to a client that was given a slot.
pub record Placed (p : Pool) (ref : ℕ) : Type 0 where
  pub known : ref < length p.clients
  pub slot : IsSlot (client_at p ref).local_id

-- Every change of the store keeps what was placed.
abbrev pub Keeps : Pool → Pool → Type 0
Keeps p q = (ref : ℕ) → Placed p ref → Placed q ref

pub add_client-Keeps : (p : Pool) → Keeps p (Server.add_client p).0
unfolding Server.add_client
add_client-Keeps p ref h = record {
  known = omega (arith, h.known, length-append p.clients (new_client ∷ []));
  slot = rw (get_or-append p.clients new_client new_client ref h.known) h.slot;
}

-- A write to a client whose new value has a slot if the old one had.
put_client-Placed :
    (p : Pool) (r : ℕ) (c : Client) (ref : ℕ)
    → Placed p ref
    → (r ≡ ref → IsSlot c.local_id)
    → Placed (put_client p r c) ref
put_client-Placed p r c ref h s = elim (Bool-cases (r == ref)) [
  | inl e ↦ record {
    known = rw (length-set p.clients r c) h.known;
    slot =
        let e' : r ≡ ref = (==_iff r ref).0 e in
        subst (λ k. IsSlot (client_at (put_client p r c) k).local_id) e'
          (rw
            (get_or-set_self p.clients r c new_client
              (subst (λ k. k < length p.clients) (sym e') h.known))
            (s e'));
  }
  | inr e ↦ record {
    known = rw (length-set p.clients r c) h.known;
    slot = rw (get_or-set_ne p.clients r ref c new_client (ground arith)) h.slot;
  }
]

pub stop_client-Keeps : (p : Pool) (r : ℕ) → Keeps p (stop_client p r)
stop_client-Keeps p r ref h = put_client-Placed p r _ ref h (λ e. rw e h.slot)

pub set_replaced-Keeps : (p : Pool) (r : ℕ) → Keeps p (set_replaced p r)
set_replaced-Keeps p r ref h = put_client-Placed p r _ ref h (λ e. rw e h.slot)

pub set_client_id-Keeps :
    (p : Pool) (r : ℕ) (local remote : ℤ) → IsSlot local → Keeps p (set_client_id p r local remote)
set_client_id-Keeps p r local remote s ref h = put_client-Placed p r _ ref h (λ e. s)

pub set_client_id-Placed :
    (p : Pool) (r : ℕ) (local remote : ℤ)
    → r < length p.clients
    → IsSlot local
    → Placed (set_client_id p r local remote) r
set_client_id-Placed p r local remote h s = record {
  known =
      rw (length-set p.clients r (record (client_at p r) { local_id = local; remote_id = remote }))
        h;
  slot =
      rw
        (get_or-set_self p.clients r
          (record (client_at p r) { local_id = local; remote_id = remote }) new_client h)
        s;
}

abbrev pub Bound : Pool → Option ℕ → Type 0
Bound p none = Unit
Bound p (some ref) = Placed p ref

pub Bound-Keeps : (p q : Pool) (c : Option ℕ) → Keeps p q → Bound p c → Bound q c
Bound-Keeps p q none k b = tt
Bound-Keeps p q (some ref) k b = k ref b
