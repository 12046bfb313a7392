-- ===== src/Handshake/Laws.antt =====
-- What a valid identity promises.
use mundosvirtuales_terremot.Base.{
  ℕ, ◌+◌, ◌<◌, ◌^◌, ◌≡◌, refl, inl, inr, true, false, ◌&&◌, List, Option, none, some, arith, length,
  Bool-cases, ◌==◌,
}
use mundosvirtuales_terremot.Base.Int.{ℤ, pos, negsuc, ltb_ℤ, signed32, word32}
use mundosvirtuales_terremot.Packet.{Packet, acknowledge_client, command_code, new_packet}
use mundosvirtuales_terremot.Client.{send_message, recv_message}
use mundosvirtuales_terremot.Registry.{PairClientData, has_id, get_new_remote_id}
use mundosvirtuales_terremot.Registry.Laws.{get_new_remote_id_free}
use mundosvirtuales_terremot.Handshake.{
  FloatOps, Exchange, Identity, message, confirm, renew, judge, identify,
}

-- A valid identity is either new, with an identification that no register holds and that the device
-- confirmed, or the device's own, which is not negative. The device field of the last message that
-- was received stands for it in both cases.
pub data Sound (registers : List PairClientData) (who : Identity) : Type 0 where
  fresh :
      (id : ℕ)
      → who.is_new ≡ true
      → who.remote_id ≡ pos id
      → 0 < id
      → has_id registers id ≡ false
      → signed32 who.id_device ≡ pos id
      → Sound registers who
  known :
      (id : ℕ)
      → who.is_new ≡ false
      → who.remote_id ≡ pos id
      → signed32 who.id_device ≡ pos id
      → Sound registers who

confirmed :
    (p : Packet) (id : ℕ)
    → id < 2 ^ 31
    → (p.header.command == command_code acknowledge_client && p.header.id_device == word32 (pos id))
      ≡ true
    → signed32 p.header.id_device ≡ pos id
confirmed p id h e = ground arith

not_negative : (a : ℤ) → ltb_ℤ a (pos 0) ≡ false → (n : ℕ) × (a ≡ pos n)
not_negative (pos n) h = (n, refl)
not_negative (negsuc n) h = absurd (ground arith)

module _ (f : FloatOps) (registers : List PairClientData) (x : Exchange)
    (few : length registers + 2 < 2 ^ 31) where
  confirm-Sound :
      (p : Option Packet) (sent : List (List ℕ)) (index : ℕ)
      → let who = confirm f (get_new_remote_id registers) p sent index in
        who.valid ≡ true → Sound registers who
  confirm-Sound none sent index h = cc
  confirm-Sound (some p) sent index h =
      let id = get_new_remote_id registers in
      let (free, positive, small) = get_new_remote_id_free registers in
      elim (Bool-cases (
        p.header.command == command_code acknowledge_client
        && p.header.id_device == word32 (pos id))) [
          | inl e ↦ rw e (fresh id refl refl positive free (confirmed p id (omega arith) e))
          | inr e ↦ cc (rw e at h)
        ]

  renew-Sound :
      (sent : List (List ℕ)) (index : ℕ)
      → let who = renew f registers x sent index in who.valid ≡ true → Sound registers who
  unfolding renew
  renew-Sound sent index h = elim (Bool-cases x.renew_sent) [
    | inl e ↦ rw e (confirm-Sound (recv_message x.confirmation) _ _ (rw e at h))
    | inr e ↦ cc (rw e at h)
  ]

  accept-Sound :
      (p : Packet) (sent : List (List ℕ)) (index : ℕ)
      → ltb_ℤ (signed32 p.header.id_device) (pos 0) ≡ false
      → Sound registers (record {
        remote_id = signed32 p.header.id_device;
        valid = true;
        is_new = false;
        id_device = p.header.id_device;
        sent = sent;
        index = index;
      })
  accept-Sound p sent index e =
      let (n, q) = not_negative (signed32 p.header.id_device) e in known n refl q q

  judge-Sound :
      (p : Option Packet) (sent : List (List ℕ)) (index : ℕ)
      → let who = judge f registers x p sent index in who.valid ≡ true → Sound registers who
  judge-Sound none sent index h = cc
  judge-Sound (some p) sent index h =
      elim (Bool-cases (p.header.command == command_code acknowledge_client)) [
        | inl e ↦ elim (Bool-cases (ltb_ℤ (signed32 p.header.id_device) (pos 0))) [
          | inl l ↦ rw (e, l) (renew-Sound sent index (rw (e, l) at h))
          | inr l ↦ rw (e, l) (accept-Sound p sent index l)
        ]
        | inr e ↦ cc (rw e at h)
      ]

  -- With fewer than 2 ^ 31 - 2 registers, an exchange that ends with a valid identity yields a sound one, whatever
  -- the device sends: either the identity is new, and its identification is positive and in no register, or it is a known
  -- one, and its identification is not negative; in both cases the last message that was received carries it.
  pub identify-Sound :
      (index : ℕ)
      → (identify f registers x index).valid ≡ true
      → Sound registers (identify f registers x index)
  unfolding identify
  identify-Sound index h =
      judge-Sound (recv_message x.answer)
        (message (send_message index (new_packet x.junk_ack acknowledge_client)).0)
        (send_message index (new_packet x.junk_ack acknowledge_client)).1 h
