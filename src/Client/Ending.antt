-- ===== src/Client/Ending.antt =====
-- src/utils/network/ClientTCP.cpp: the end of `run`, which hands the client to the callback of its owner.
use mundosvirtuales_terremot.Base.{
  ℕ, ◌≡◌, ◌||◌, List, [], ◌∷◌, Option, none, some, Bool-cases, inl, inr, if◌then◌else◌, sym, subst,
  arith,
}
use mundosvirtuales_terremot.Packet.{Packet, is_valid, of_bytes, unpacking}
use mundosvirtuales_terremot.Client.{Reply, Thread, Turn, respond, handle, check_errors, run}

-- The thread goes on, has returned, or waits in the callback.
pub data Closing {ℓ} (S : Type ℓ) : Type ℓ where
  going : Thread S → Closing S
  closed : S → Closing S
  waiting : S → Closing S

module _ {ℓ} {S : Type ℓ} where
  abbrev pub called : S → Option S → Closing S
  called s none = waiting s
  called s (some s') = closed s'

  -- m_closeClientFn on the state, if it is set; `none` inside is a call that waits.
  abbrev pub close_client : Option (S → Option S) → S → Closing S
  close_client none s = closed s
  close_client (some close) s = called s (close s)

  -- The whole of `run`.
  unfoldable pub run_client :
      (S → Packet → Reply S) → Option (S → Option S) → Thread S → List Turn → Closing S
  unfolding run
  run_client process close t turns =
      let after = run process t turns in
      if after.stopped then close_client close after.state else going after

  respond-state : (t : Thread S) (r : Reply S) → (respond t r).state ≡ r.state
  respond-state t r = ground arith

  check_errors-state : (t : Thread S) → (check_errors t).state ≡ t.state
  check_errors-state t = ground arith

  module _ {κ} (process : S → Packet → Reply S) (P : S → Type κ)
      (kept : (s : S) (p : Packet) → P s → P (process s p).state) where
    handle-state : (t : Thread S) (m : Option (List ℕ)) → P t.state → P (handle process t m).state
    unfolding handle
    handle-state t none h = h
    handle-state t (some bytes) h =
        let q = unpacking (of_bytes bytes) in
        elim (Bool-cases (is_valid q)) [
          | inl e ↦ rw e (subst P (sym (respond-state t (process t.state q))) (kept t.state q h))
          | inr e ↦ rw e h
        ]

    -- What holds of the state before the loop, and is kept by `process_packet`, holds after it.
    pub run-state : (t : Thread S) (turns : List Turn) → P t.state → P (run process t turns).state
    unfolding run
    run-state t [] h = h
    run-state t (turn ∷ turns) h =
        let u = handle process t turn.message in
        elim (Bool-cases (t.stopped || turn.stop_request)) [
          | inl e ↦ rw e h
          | inr e ↦ rw e (
              run-state (check_errors u) turns
                (subst P (sym (check_errors-state u)) (handle-state t turn.message h)))
        ]
