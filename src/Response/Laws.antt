-- ===== src/Response/Laws.antt =====
-- A response finds its request, and a measurement its slot.
use mundosvirtuales_terremot.Base.{
  ℕ, ◌≤◌, ◌<◌, ◌^◌, ◌≡◌, ◌≢◌, refl, ap, ◌∙◌, Bool, true, false, List, [], ◌∷◌, ◌++◌, some, arith,
  if◌then◌else◌, ◌==◌, All,
}
use mundosvirtuales_terremot.Base.Int.{ℤ, pos}
use mundosvirtuales_terremot.Packet.{
  Packet, IsPacket, earthquake, command_code, is_valid, packet_equals, number, unpacking, of_bytes,
}
use mundosvirtuales_terremot.Packet.Laws.{unpacking-wire, to_bytes-packing, number-IsPacket}
use mundosvirtuales_terremot.Queue.{add, remove_item, erase_first}
use mundosvirtuales_terremot.Tcp.{Socket}
use mundosvirtuales_terremot.Sensors.{new_measurement, ListSensors, measure_at, max_size_sensors}
use mundosvirtuales_terremot.Sensors.Laws.{IsValid, append_measure_stores}
use mundosvirtuales_terremot.Server.{client_at}
use mundosvirtuales_terremot.SensorServer.{SensorServer, update_list_sensor}
use mundosvirtuales_terremot.Response.{
  plain_answer, process_sensor, get_response, response_to, send_response,
}

-- The packet that arrives when `sendResponse` answers a numbered request.
send_response-received :
    (index payload : ℕ) (request : Packet)
    → IsPacket request
    → payload < 2 ^ 32
    → request.header.id_response ≢ 0
    → unpacking (of_bytes (send_response index request payload).0) ≡ response_to request payload
unfolding send_response number
send_response-received index payload request w h numbered =
    ap (λ b. unpacking (of_bytes b)) (to_bytes-packing index (response_to request payload))
    ∙ unpacking-wire (number index (response_to request payload)).0
        (number-IsPacket index (response_to request payload) (omega arith))
    ∙ ground arith

erase_first-append :
    (equals : Packet → Bool) (q : List Packet) (p : Packet)
    → All (λ r. equals r ≡ false) q
    → equals p ≡ true
    → erase_first equals (q ++ p ∷ []) ≡ (some p, q)
unfolding erase_first
erase_first-append equals [] p a e = rw e refl
erase_first-append equals (r ∷ q) p a e = rw (a.0, erase_first-append equals q p a.1 e) refl

remove_item-append :
    (equals : Packet → Bool) (q : List Packet) (p : Packet)
    → All (λ r. equals r ≡ false) q
    → equals p ≡ true
    → remove_item equals (q ++ p ∷ []) ≡ some (some p, q)
unfolding remove_item
remove_item-append equals [] p a e = ap some (erase_first-append equals [] p a e)
remove_item-append equals (r ∷ q) p a e = ap some (erase_first-append equals (r ∷ q) p a e)

-- What one end sends by `sendResponse` for a numbered request of the current version with its fields
-- within their widths, and with a payload of 32 bits, the other end's
-- `get_response` picks out of its queue for that request, with the payload that was sent and the
-- rest of the queue as it was, if no earlier packet in the queue answers the request.
pub get_response-send_response :
    (index payload junk : ℕ) (request : Packet) (queue : List Packet)
    → IsPacket request
    → is_valid request ≡ true
    → payload < 2 ^ 32
    → request.header.id_response ≢ 0
    → All (λ p. packet_equals p request ≡ false) queue
    → get_response junk
        (add queue (unpacking (of_bytes (send_response index request payload).0)))
        request
      ≡ some (response_to request payload, queue)
unfolding get_response add
get_response-send_response index payload junk request queue w v h numbered others =
    ap (λ p. get_response junk (add queue p) request)
      (send_response-received index payload request w h numbered)
    ∙ rw
        (
          get_response,
          remove_item-append (λ p. packet_equals p request) queue (response_to request payload)
              others equal,
        )
        refl
  where
    equal : packet_equals (response_to request payload) request ≡ true
    equal = ground arith

-- In a well-formed list, an earthquake packet of a client with a slot within the current total and the
-- array stores its payload and the
-- time in that slot, leaves every other slot and the socket alone, and is answered by an alive
-- packet.
pub process_sensor_stores :
    (ref i j junk : ℕ) (time : ℤ) (s : SensorServer) (t : Socket) (p : Packet)
    → IsValid s.sensors
    → (client_at s.pool ref).local_id ≡ pos i
    → i < max_size_sensors
    → i ≤ s.sensors.max_size
    → p.header.command ≡ command_code earthquake
    → (list : ListSensors) × (process_sensor ref time junk s t p
        ≡ some (record s { sensors = list }, t, plain_answer junk))
      × (measure_at list j ≡ (
          if i == j
          then some (record new_measurement { timestamp = time; intensity = p.payload })
          else measure_at s.sensors j))
unfolding process_sensor update_list_sensor
process_sensor_stores ref i j junk time s t p v slot lo hi c =
    let (list, stored, kept) =
      append_measure_stores s.sensors i j
        (record new_measurement { timestamp = time; intensity = p.payload }) v lo hi in
    (list, rw (c, slot, stored) refl, kept)
