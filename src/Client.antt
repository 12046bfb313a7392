-- ===== src/Client.antt =====
-- src/utils/network/ClientTCP.cpp: messages over a client's socket, and the loop of its thread.
-- The socket's answers are given: a message received is its sixteen bytes, `none` is a receive that
-- failed; an answer is the bytes handed to `send`, whose result the loop ignores.
pub mod Laws
pub mod Wire
pub mod Ending
mod Tests
use mundosvirtuales_terremot.Base.{
  ℕ, ◌+◌, Bool, true, false, ◌||◌, List, [], ◌∷◌, ◌++◌, Option, none, some, if◌then◌else◌, leb,
}
use mundosvirtuales_terremot.Packet.{
  Packet, wrong_packet, new_packet, is_valid, to_bytes, of_bytes, packing, unpacking,
}

-- MAX_ERROR_COMM
abbrev pub max_error_comm : ℕ
max_error_comm = 3

-- `sendMessage(const PacketComm&)`: the bytes handed to the socket, if the packet is valid, and the
-- static request index after the call.
unfoldable pub send_message : ℕ → Packet → Option (List ℕ) × ℕ
unfolding packing to_bytes
send_message index p =
    if is_valid p
    then (let (q, index') = packing index p in (some (to_bytes q), index'))
    else (none, index)

-- `recvMessage(PacketComm&)`: the packet, if one arrived and is valid.
unfoldable pub recv_message : Option (List ℕ) → Option Packet
unfolding unpacking of_bytes
recv_message none = none
recv_message (some bytes) =
    let q = unpacking (of_bytes bytes) in if is_valid q then some q else none

-- The answer of `process_packet`; `none` is an exception.
pub record Reply {ℓ} (S : Type ℓ) : Type ℓ where
  pub state : S
  pub response : Option Packet

-- The state of the thread: what `process_packet` works on, the static request index, the errors so
-- far, `m_stop`, and the messages sent.
pub record Thread {ℓ} (S : Type ℓ) : Type ℓ where
  pub state : S
  pub index : ℕ
  pub count_error : ℕ
  pub stopped : Bool
  pub output : List (List ℕ)

-- One pass: whether another thread has set `m_stop`, and what `receive` yields.
pub record Turn : Type 0 where
  pub stop_request : Bool
  pub message : Option (List ℕ)

module _ {ℓ} {S : Type ℓ} where
  abbrev pub fail : Thread S → Thread S
  fail t = record t { count_error = t.count_error + 1 }

  abbrev pub emit : Thread S → Packet → Thread S
  emit t p =
      let (q, index') = packing t.index p in
      record t { index = index'; output = t.output ++ to_bytes q ∷ [] }

  abbrev pub respond : Thread S → Reply S → Thread S
  respond t r = elim r.response [
    | none ↦ fail (record t { state = r.state })
    | some p ↦
        if is_valid p then emit (record t { state = r.state }) p else record t { state = r.state }
  ]

  -- The body of the `while` loop up to the test of the error count.
  unfoldable pub handle : (S → Packet → Reply S) → Thread S → Option (List ℕ) → Thread S
  handle process t none = fail t
  handle process t (some bytes) =
      let q = unpacking (of_bytes bytes) in
      if is_valid q
      then respond t (process t.state q)
      else emit (fail t) (new_packet 0 wrong_packet)

  abbrev pub check_errors : Thread S → Thread S
  check_errors t = if leb max_error_comm t.count_error then record t { stopped = true } else t

  -- `run` over the passes that its environment offers.
  unfoldable pub run : (S → Packet → Reply S) → Thread S → List Turn → Thread S
  unfolding handle
  run process t [] = t
  run process t (turn ∷ turns) =
      let rest = run process (check_errors (handle process t turn.message)) turns in
      if t.stopped || turn.stop_request then record t { stopped = true } else rest
