-- ===== src/Udp/Multicast.antt =====
-- What `joinMulticast` and `readLocal` promise.
use mathlib.Core.List.{append_assoc, append-nil}
use mundosvirtuales_terremot.Base.{
  ℕ, suc, ◌≡◌, refl, sym, ap, ◌∙◌, Bool, true, false, ◌&&◌, ◌||◌, inl, inr, List, [], ◌∷◌, ◌++◌,
  some, arith, Bool-cases, Option-cases, if◌then◌else◌, ◌==◌, get_elem?,
}
use mundosvirtuales_terremot.Base.Int.{pos, negsuc, leb_ℤ}
use mundosvirtuales_terremot.Udp.{
  UdpComm, Setting, member, is_multicast, join_interfaces, join_multicast, Datagram, Interface,
  is_sender, found, read_local, set_rcv_buf_size,
}

-- The memberships that the system grants for a group.
abbrev pub memberships : ℕ → (ℕ → Bool) → List ℕ → List Setting
memberships group accepts [] = []
memberships group accepts (i ∷ is) =
    if accepts i
    then member group i ∷ memberships group accepts is
    else memberships group accepts is

abbrev pub any_accepts : (ℕ → Bool) → List ℕ → Bool
any_accepts accepts [] = false
any_accepts accepts (i ∷ is) = accepts i || any_accepts accepts is

join_interfaces_lem :
    (group : ℕ) (accepts : ℕ → Bool) (is : List ℕ) (u : UdpComm)
    → join_interfaces group accepts is u
      ≡ (record u { settings = u.settings ++ memberships group accepts is }, any_accepts accepts is)
unfolding join_interfaces
join_interfaces_lem group accepts [] u =
    ap (λ l. (record u { settings = l }, false)) (sym (append-nil u.settings))
join_interfaces_lem group accepts (i ∷ is) u = elim (Bool-cases (accepts i)) [
  | inl e ↦
      rw
        (
          e,
          join_interfaces_lem group accepts is
              (record u { settings = u.settings ++ member group i ∷ [] }),
        )
        (ap (λ l. (record u { settings = l }, true))
          (append_assoc u.settings (member group i ∷ []) (memberships group accepts is)))
  | inr e ↦ rw (e, join_interfaces_lem group accepts is u) refl
]

-- `joinMulticast` with a valid group and the list of interfaces joins the group on exactly the interfaces that the
-- system accepts, in their order, and reports success if there is one.
pub join_multicast-memberships :
    (u : UdpComm) (group : ℕ) (is : List ℕ) (accepts : ℕ → Bool)
    → is_multicast group ≡ true
    → join_multicast u (some group) (some is) accepts
      ≡ (record u { settings = u.settings ++ memberships group accepts is }, any_accepts accepts is)
unfolding join_multicast
join_multicast-memberships u group is accepts m =
    rw (m, join_multicast) (join_interfaces_lem group accepts is u)

and_false : (b : Bool) → (b && false) ≡ false
and_false true = refl
and_false false = refl

found-Interface :
    (sender : ℕ) (is : List Interface)
    → found sender is ≡ true
    → (n : ℕ) × (i : Interface) × (get_elem? is n ≡ some i)
      × (i.multicast ≡ true)
      × (i.address ≡ some sender)
found-Interface sender [] e = cc
found-Interface sender (i ∷ is) e = elim (Bool-cases (is_sender sender i)) [
  | inr k ↦ let (n, j, at, m, a) = found-Interface sender is (rw k at e) in (suc n, j, at, m, a)
  | inl k ↦ let (m, a) = both i k in (0, i, refl, m, a)
]
  where
    both :
        (i : Interface)
        → is_sender sender i ≡ true
        → (i.multicast ≡ true) × (i.address ≡ some sender)
    both i k = elim (Option-cases i.address) [
      | inl n ↦ absurd (let never : is_sender sender i ≡ false = rw n (and_false i.multicast) in cc)
      | inr (a, e) ↦
          let plain : (i.multicast && a == sender) ≡ true = rw e at k in
          let same : a ≡ sender = ground arith in (ground arith, e ∙ ap some same)
    ]

-- `readLocal` hands over a datagram only if its sender is the address of one of the interfaces of this
-- machine that can multicast.
pub read_local-Interface :
    (d : Datagram) (is : List Interface)
    → leb_ℤ (read_local d (some is)) (pos 0) ≡ false
    → (read_local d (some is) ≡ d.result)
      × ((n : ℕ) × (i : Interface) × (get_elem? is n ≡ some i)
          × (i.multicast ≡ true)
          × (i.address ≡ some d.sender))
unfolding read_local
read_local-Interface d is e = elim (Bool-cases (leb_ℤ d.result (pos 0))) [
  | inl h ↦ absurd (let again : leb_ℤ d.result (pos 0) ≡ false = rw (h, read_local) at e in cc)
  | inr h ↦ elim (Bool-cases (found d.sender is)) [
    | inl k ↦ rw (h, k, read_local) (refl, found-Interface d.sender is k)
    | inr k ↦
        absurd (let never : leb_ℤ (negsuc 0) (pos 0) ≡ false = rw (h, k, read_local) at e in cc)
  ]
]

-- `setRcvBufSize` reports success only if the system refused the new size: then the socket is as before.
pub set_rcv_buf_size_inverted :
    (u : UdpComm) (size : ℕ) (granted readable : Bool)
    → (set_rcv_buf_size u size granted readable).1 ≡ true
    → (granted ≡ false) × ((set_rcv_buf_size u size granted readable).0 ≡ u)
unfolding set_rcv_buf_size
set_rcv_buf_size_inverted u size true readable e = cc
set_rcv_buf_size_inverted u size false readable e = (refl, refl)
